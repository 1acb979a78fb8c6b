-- ===== src/Tests/GatewayRuns.antt =====
-- A payment through the gateway: initiated, confirmed and refunded.
use apna_mandla.Prelude.{◌≡◌, refl, ◌⊎◌, String, Option, none, some, inl, inr, arith, []}
use apna_mandla.Prelude.{true, false, ap}
use apna_mandla.Prelude.Text.{str_eq, eq_iff, eq_refl}
use apna_mandla.Prelude.Int.{ℤ, pos}
use apna_mandla.Money.{of_paise}
use apna_mandla.Json.{Json}
use apna_mandla.Schema.{Db, GatewayPayment, manual, initiated, success, refunded}
use apna_mandla.Session.{Result, Error, ok, err, bad_signature, runtime_error}
use apna_mandla.Ledger.Invariant.{IsValid}
use apna_mandla.Gateway.{
  initiate, handle_webhook, handle_refund_webhook, extract_payment_id, extract_amount_minor,
  gateway_payment,
}
use apna_mandla.Gateway.WebhookOutcomes.{
  payment_ids, Confirmed, handle_webhook_lem, handle_webhook_twice,
}
use apna_mandla.Gateway.RefundOutcomes.{Repaid, handle_refund_webhook_lem}
use apna_mandla.Gateway.Forgery.{ComparesTexts, webhooks-forged}
use apna_mandla.Gateway.Validity.{initiate-Keeps, handle_webhook-Keeps}
use apna_mandla.Gateway.LifeCycle.{
  IsSound, Lives, Lives_lem, no_step, one_more, webhook_step, refund_step,
}
use apna_mandla.Table.{Distinct, Below}
use apna_mandla.Tests.State.{test_env, test_payload, after, returned}
use apna_mandla.Tests.Calls.{funded}
use apna_mandla.Tests.ValidStates.{funded-IsValid}

abbrev initiation : Result (GatewayPayment × Db)
initiation = initiate test_env 7 (of_paise (pos 2500)) manual none funded

abbrev no_payment : GatewayPayment
no_payment = record {
  id = 0;
  user_id = 0;
  order_id = none;
  amount = pos 0;
  provider = manual;
  status = initiated;
  gateway_order_id = none;
  gateway_payment_id = none;
  gateway_signature = none;
  ledger_correlation_id = none;
  completed_at = none;
  refunded_at = none;
}

abbrev new_payment : GatewayPayment
new_payment = returned no_payment initiation

abbrev waiting : Db
waiting = after funded initiation

-- The secret of MANUAL is empty.
abbrev confirmation : Result (GatewayPayment × Db)
confirmation = handle_webhook test_env manual "body" "body" "" test_payload waiting

abbrev paid_payment : GatewayPayment
paid_payment = returned no_payment confirmation

abbrev paid : Db
paid = after waiting confirmation

abbrev refunding : Result (GatewayPayment × Db)
refunding = handle_refund_webhook test_env manual "body" "body" "" test_payload paid

abbrev refunded_payment : GatewayPayment
refunded_payment = returned no_payment refunding

abbrev repaid : Db
repaid = after paid refunding

record GatewayRuns : Type 0 where
  initiated_ok : initiation ≡ ok (new_payment, waiting)
  confirmed_ok : confirmation ≡ ok (paid_payment, paid)
  refunded_ok : refunding ≡ ok (refunded_payment, repaid)
  found : gateway_payment 1 waiting ≡ some new_payment
  waiting-Distinct : Distinct payment_ids waiting.tables.gateway_payments
  waiting-Below :
      Below payment_ids waiting.tables.next_gateway_payment_id waiting.tables.gateway_payments
  paid-Distinct : Distinct payment_ids paid.tables.gateway_payments
  not_signed : str_eq "x" (test_env.hmac "key" "body") ≡ false

runs : GatewayRuns
unfolding apna_mandla.Table.Distinct apna_mandla.Table.Below apna_mandla.Ledger.Effects.used
    apna_mandla.Prelude.Int.◌+ℤ◌ apna_mandla.Prelude.Int.◌-ℤ◌ apna_mandla.Prelude.Int.◌*ℤ◌
    apna_mandla.Prelude.Text.f_string apna_mandla.Prelude.Text.str apna_mandla.Money.half_up
    apna_mandla.Money.signed_half_up apna_mandla.Money.round apna_mandla.Money.daily_rate
    apna_mandla.Fraud.debits_since apna_mandla.Fraud.sum_amounts apna_mandla.Fraud.latest
    apna_mandla.Fraud.add_flag apna_mandla.Fraud.count_check apna_mandla.Fraud.flag_if_soon
    apna_mandla.Fraud.check_single_txn_limit apna_mandla.Fraud.check_daily_limit
    apna_mandla.Fraud.hourly_counter apna_mandla.Fraud.check_hourly_velocity
    apna_mandla.Fraud.interval_fallback apna_mandla.Fraud.check_min_interval
    apna_mandla.Fraud.check_velocity_spike apna_mandla.Fraud.pre_check
    apna_mandla.Ledger.find_wallet apna_mandla.Ledger.put_wallet
    apna_mandla.Ledger.get_or_create_wallet apna_mandla.Ledger.last_entry
    apna_mandla.Ledger.next_sequence apna_mandla.Ledger.last_hash apna_mandla.Ledger.str_paise
    apna_mandla.Ledger.str_amount apna_mandla.Ledger.compute_hash apna_mandla.Ledger.find_key
    apna_mandla.Ledger.check_idempotency apna_mandla.Ledger.key_or
    apna_mandla.Ledger.Posting.save_wallet apna_mandla.Ledger.Posting.insert_entry
    apna_mandla.Ledger.Posting.entry_of apna_mandla.Ledger.Posting.write_entry
    apna_mandla.Ledger.Posting.post apna_mandla.Ledger.Posting.credit
    apna_mandla.Ledger.Posting.fraud_guard apna_mandla.Ledger.Posting.debit apna_mandla.Ledger.when
    apna_mandla.Ledger.newest_config apna_mandla.Ledger.commission_percent
    apna_mandla.Ledger.split_of apna_mandla.Ledger.topup_wallet
    apna_mandla.Ledger.process_order_payment apna_mandla.Ledger.process_refund
    apna_mandla.Ledger.credit_delivery_fee apna_mandla.Ledger.initiate_withdrawal
    apna_mandla.Ledger.reverse_withdrawal apna_mandla.Ledger.legacy_order_payment
    apna_mandla.Ledger.credit_rider_delivery_fee apna_mandla.Json.lookup apna_mandla.Json.get
    apna_mandla.Json.get_path apna_mandla.Table.find_row apna_mandla.Table.put_row
    apna_mandla.Gateway.extract_payment_id apna_mandla.Gateway.extract_order_id
    apna_mandla.Gateway.int_of apna_mandla.Gateway.extract_amount_minor
    apna_mandla.Gateway.find_order apna_mandla.Gateway.find_payment
    apna_mandla.Gateway.payment_id_taken apna_mandla.Gateway.save_payment
    apna_mandla.Gateway.add_payment apna_mandla.Gateway.initiate
    apna_mandla.Gateway.verify_signature apna_mandla.Gateway.confirmed
    apna_mandla.Gateway.credit_payment apna_mandla.Gateway.handle_webhook
    apna_mandla.Gateway.refund_payment apna_mandla.Gateway.handle_refund_webhook
runs = record {
  initiated_ok = refl;
  confirmed_ok = refl;
  refunded_ok = refl;
  found = refl;
  waiting-Distinct = (refl, tt);
  waiting-Below = (omega arith, tt);
  paid-Distinct = (refl, tt);
  not_signed = refl;
}

waiting-IsSound : IsSound test_env waiting
waiting-IsSound = record {
  valid =
      (initiate-Keeps test_env 7 (of_paise (pos 2500)) manual none).at funded new_payment waiting
        funded-IsValid runs.initiated_ok;
  distinct = runs.waiting-Distinct;
  below = runs.waiting-Below;
}

paid-IsValid : IsValid test_env paid.books
paid-IsValid =
    (handle_webhook-Keeps test_env manual "body" "body" "" test_payload).at waiting paid_payment
      paid waiting-IsSound.valid runs.confirmed_ok

handle_webhook_lem_example :
    ((paid_payment.status ≡ success) × (paid ≡ waiting))
    ⊎ ((payment_id : Json) × (amount : ℤ) × (before : GatewayPayment) × (extract_payment_id manual
            test_payload
          ≡ some payment_id)
        × (extract_amount_minor test_env manual test_payload waiting ≡ ok (amount, waiting))
        × Confirmed test_env payment_id amount before paid_payment waiting paid)
handle_webhook_lem_example =
    handle_webhook_lem test_env manual "body" "body" "" test_payload waiting paid_payment paid
      runs.confirmed_ok waiting-IsSound.valid waiting-IsSound.distinct

handle_webhook_twice_example :
    handle_webhook test_env manual "body" "body" "" test_payload paid ≡ ok (paid_payment, paid)
handle_webhook_twice_example =
    handle_webhook_twice test_env manual "body" "body" "" test_payload waiting paid_payment paid
      runs.confirmed_ok waiting-IsSound.valid waiting-IsSound.distinct

handle_refund_webhook_lem_example :
    ((refunded_payment.status ≡ refunded) × (repaid ≡ paid))
    ⊎ ((payment_id : Json) × (amount : ℤ) × (before : GatewayPayment) × (extract_payment_id manual
            test_payload
          ≡ some payment_id)
        × (extract_amount_minor test_env manual test_payload paid ≡ ok (amount, paid))
        × Repaid test_env payment_id amount before refunded_payment paid repaid)
handle_refund_webhook_lem_example =
    handle_refund_webhook_lem test_env manual "body" "body" "" test_payload paid refunded_payment
      repaid runs.refunded_ok paid-IsValid runs.paid-Distinct

equal_only : ComparesTexts test_env
equal_only = record { only_equal = λ a b h. (eq_iff a b).0 (ground arith) }

webhooks-forged_example :
    (e : Error) × ((e ≡ bad_signature) ⊎ (e ≡ runtime_error))
    × (handle_webhook test_env manual "body" "x" "key" test_payload waiting ≡ err e)
    × (handle_refund_webhook test_env manual "body" "x" "key" test_payload waiting ≡ err e)
webhooks-forged_example =
    webhooks-forged test_env equal_only "body" "x" "key"
      (λ p. absurd (cc (ap (str_eq "x") p, runs.not_signed))) manual test_payload waiting

Lives_lem_example : Lives 1 new_payment repaid
Lives_lem_example = Lives_lem test_env waiting repaid 1 new_payment waiting-IsSound runs.found (
    one_more
      (one_more no_step (
        webhook_step manual "body" "body" "" test_payload waiting paid paid_payment
          runs.confirmed_ok))
      (refund_step manual "body" "body" "" test_payload paid repaid refunded_payment
        runs.refunded_ok))
