-- ===== src/Tests/OrderRuns.antt =====
-- Three orders: one that waits for its payment, one that is searched for, and one on its way.
use apna_mandla.Prelude.{
  ◌+◌, ◌≤◌, ◌≡◌, ◌≢◌, refl, String, true, false, Option, none, some, [], ◌∷◌, arith, ap, is_some,
}
use apna_mandla.Prelude.Int.{pos}
use apna_mandla.Money.{of_paise}
use apna_mandla.Table.{find_row, put_row, Distinct}
use apna_mandla.Schema.{
  Db, Order, Shop, Payment, pay_initiated, pay_success, payment_pending, broadcasting,
  out_for_delivery, delivered, prepaid, cod,
}
use apna_mandla.Session.{Result, ok}
use apna_mandla.Ledger.{Split}
use apna_mandla.Orders.{
  order, order_ids, payment, payment_ids, pay_for_order, payment_success, confirm_delivery,
  expand_radius_and_notify, given_up,
}
use apna_mandla.Orders.Search.{Searched, expand_radius_and_notify-stops}
use apna_mandla.Orders.Saved.{Manned}
use apna_mandla.Orders.PaymentOutcomes.{
  PaidFor, pay_for_order_lem, pay_for_order_once, pay_for_order-ends_gateway,
}
use apna_mandla.Orders.Steps.{IsSound, no_step, one_more, deliver_step}
use apna_mandla.Orders.LifeCycle.{Delivery, Steps-manned, Step-delivered}
use apna_mandla.Tests.State.{test_env, after, returned}
use apna_mandla.Tests.Calls.{with_commission}

abbrev waiting_order : Order
waiting_order = record {
  id = 1;
  customer_id = 7;
  shop_id = some 3;
  total_amount = pos 10_000;
  status = payment_pending;
  payment_mode = prepaid;
  delivery_otp = none;
  assigned_rider_id = none;
  broadcast_deadline = none;
  broadcast_radius = 2;
  transfer_count = 0;
  is_archived = false;
}

abbrev searched_order : Order
searched_order = record waiting_order { id = 2; status = broadcasting; payment_mode = cod }

abbrev order_out : Order
order_out = record waiting_order {
  id = 3;
  status = out_for_delivery;
  delivery_otp = some "424242";
  assigned_rider_id = some 5;
}

abbrev seller : Shop
seller = record { id = 3; user_id = 8; has_profile = true }

abbrev card_payment : Payment
card_payment = record {
  id = 1;
  order_id = 1;
  user_id = 7;
  amount = of_paise (pos 10_000);
  status = pay_initiated;
  transaction_id = none;
  failure_reason = none;
  completed_at = none;
  refunded_at = none;
}

abbrev market : Db
market = record with_commission {
  tables = record with_commission.tables {
    orders = waiting_order ∷ searched_order ∷ order_out ∷ [];
    shops = seller ∷ [];
    payments = card_payment ∷ [];
    rider_profiles = record { id = 5; user_id = 9 } ∷ [];
    riders = record { id = 4; user_id = 9; current_order_id = some 3 } ∷ [];
  };
}

abbrev paying : Result (Split × Db)
paying = pay_for_order test_env 7 1 none market

abbrev paying_split : Split
paying_split = returned (record { total = pos 0; net = pos 0; commission = pos 0 }) paying

abbrev paid_market : Db
paid_market = after market paying

abbrev delivering : Result (Unit {0} × Db)
delivering = confirm_delivery 9 3 "424242" market

abbrev delivered_market : Db
delivered_market = after market delivering

record OrderRuns : Type 0 where
  paying_ok : paying ≡ ok (paying_split, paid_market)
  delivering_ok : delivering ≡ ok (tt, delivered_market)
  market-Distinct : Distinct order_ids market.tables.orders
  market-Manned : Manned market.tables.orders
  paid-Distinct : Distinct payment_ids paid_market.tables.payments
  still_there : payment 1 paid_market ≡ some card_payment
  found : order 3 market ≡ some order_out
  now_delivered : order 3 delivered_market ≡ some (record order_out { status = delivered })
  search : Searched 2 market searched_order seller
  narrow : (o : Order) → order 2 market ≡ some o → 2 ≤ o.broadcast_radius

runs : OrderRuns
unfolding apna_mandla.Table.Distinct apna_mandla.Table.Below apna_mandla.Ledger.Effects.used
    apna_mandla.Prelude.Int.◌+ℤ◌ apna_mandla.Prelude.Int.◌-ℤ◌ apna_mandla.Prelude.Int.◌*ℤ◌
    apna_mandla.Prelude.Text.f_string apna_mandla.Prelude.Text.str apna_mandla.Money.half_up
    apna_mandla.Money.signed_half_up apna_mandla.Money.round apna_mandla.Money.daily_rate
    apna_mandla.Fraud.debits_since apna_mandla.Fraud.sum_amounts apna_mandla.Fraud.latest
    apna_mandla.Fraud.add_flag apna_mandla.Fraud.count_check apna_mandla.Fraud.flag_if_soon
    apna_mandla.Fraud.check_single_txn_limit apna_mandla.Fraud.check_daily_limit
    apna_mandla.Fraud.hourly_counter apna_mandla.Fraud.check_hourly_velocity
    apna_mandla.Fraud.interval_fallback apna_mandla.Fraud.check_min_interval
    apna_mandla.Fraud.check_velocity_spike apna_mandla.Fraud.pre_check
    apna_mandla.Ledger.find_wallet apna_mandla.Ledger.put_wallet
    apna_mandla.Ledger.get_or_create_wallet apna_mandla.Ledger.last_entry
    apna_mandla.Ledger.next_sequence apna_mandla.Ledger.last_hash apna_mandla.Ledger.str_paise
    apna_mandla.Ledger.str_amount apna_mandla.Ledger.compute_hash apna_mandla.Ledger.find_key
    apna_mandla.Ledger.check_idempotency apna_mandla.Ledger.key_or
    apna_mandla.Ledger.Posting.save_wallet apna_mandla.Ledger.Posting.insert_entry
    apna_mandla.Ledger.Posting.entry_of apna_mandla.Ledger.Posting.write_entry
    apna_mandla.Ledger.Posting.post apna_mandla.Ledger.Posting.credit
    apna_mandla.Ledger.Posting.fraud_guard apna_mandla.Ledger.Posting.debit apna_mandla.Ledger.when
    apna_mandla.Ledger.newest_config apna_mandla.Ledger.commission_percent
    apna_mandla.Ledger.split_of apna_mandla.Ledger.topup_wallet
    apna_mandla.Ledger.process_order_payment apna_mandla.Ledger.process_refund
    apna_mandla.Ledger.credit_delivery_fee apna_mandla.Ledger.initiate_withdrawal
    apna_mandla.Ledger.reverse_withdrawal apna_mandla.Ledger.legacy_order_payment
    apna_mandla.Ledger.credit_rider_delivery_fee apna_mandla.Table.find_row
    apna_mandla.Table.put_row apna_mandla.Withdrawal.answering apna_mandla.Orders.Saved.Manned
    apna_mandla.Orders.find_shop apna_mandla.Orders.same_number apna_mandla.Orders.save_order
    apna_mandla.Orders.save_payment apna_mandla.Orders.set_parcel apna_mandla.Orders.save_parcel
    apna_mandla.Orders.find_profile apna_mandla.Orders.free_rider apna_mandla.Orders.save_free_rider
    apna_mandla.Orders.pay_for_order apna_mandla.Orders.check_rider
    apna_mandla.Orders.confirm_delivery
runs = record {
  paying_ok = refl;
  delivering_ok = refl;
  market-Distinct = (refl, (refl, (refl, tt)));
  market-Manned = (λ p. absurd (cc p), (λ p. absurd (cc p), (λ p. refl, tt)));
  paid-Distinct = (refl, tt);
  still_there = refl;
  found = refl;
  now_delivered = refl;
  search = record { found = refl; searching = refl; shop = refl; profile = refl };
  narrow = λ o h. ground arith;
}

market-IsSound : IsSound market
market-IsSound = record { distinct = runs.market-Distinct; manned = runs.market-Manned }

pay_for_order_lem_example :
    (o : Order) × (s : Shop) × (o.id ≡ 1)
    × PaidFor test_env 7 none o s paying_split market paid_market
pay_for_order_lem_example =
    pay_for_order_lem test_env 7 1 none market paying_split paid_market runs.market-Distinct
      runs.paying_ok

unpaid : card_payment.status ≢ pay_success
unpaid = λ p. absurd (cc p)

pay_for_order_once_example :
    pay_for_order test_env 7 1 (some "again") paid_market ≢ ok (paying_split, paid_market)
pay_for_order_once_example =
    pay_for_order_once test_env 7 1 none market paying_split paid_market runs.market-Distinct
      runs.paying_ok 7 (some "again") (paying_split, paid_market)

pay_for_order-ends_gateway_example :
    payment_success test_env 7 1 "txn" paid_market ≢ ok (1, paid_market)
pay_for_order-ends_gateway_example =
    pay_for_order-ends_gateway test_env 7 1 none market paying_split paid_market
      runs.market-Distinct runs.paying_ok 7 1 "txn" card_payment (1, paid_market) runs.paid-Distinct
      runs.still_there unpaid refl

Steps-manned_example : is_some (record order_out { status = delivered }).assigned_rider_id ≡ true
Steps-manned_example =
    Steps-manned test_env market delivered_market 3 (record order_out { status = delivered })
      market-IsSound
      (one_more no_step (deliver_step 9 3 "424242" market delivered_market runs.delivering_ok))
      runs.now_delivered refl

out_yet : order_out.status ≢ delivered
out_yet = λ p. absurd (cc p)

Step-delivered_example : Delivery 3 order_out market delivered_market
Step-delivered_example =
    Step-delivered test_env market delivered_market 3 order_out
      (record order_out { status = delivered }) runs.market-Distinct
      (deliver_step 9 3 "424242" market delivered_market runs.delivering_ok) runs.found
      runs.now_delivered out_yet refl

expand_radius_and_notify-stops_example : (expand_radius_and_notify (λ _ x. x) 10 2 market).0 ≡ false
expand_radius_and_notify-stops_example =
    expand_radius_and_notify-stops 2 (λ _ x. x) market (λ n d o h p. (o, h, omega arith))
      runs.narrow
