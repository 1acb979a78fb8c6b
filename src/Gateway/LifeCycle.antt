-- ===== src/Gateway/LifeCycle.antt =====
-- The life of a gateway payment over any sequence of calls.
use apna_mandla.Prelude.{
  ℕ, ◌+◌, ◌≡◌, ◌⊎◌, refl, String, Option, none, some, [], ◌∷◌, arith, inl, inr, ◌∙◌, ap, ◌==◌,
  Bool-cases, ==→eq,
}
use apna_mandla.Money.{Decimal, round}
use apna_mandla.Prelude.Text.{f_string}
use apna_mandla.Json.{Json}
use apna_mandla.Table.{
  find_row, put_row, Distinct, Below, Updated, put_row-Distinct, put_row-Below, find_row-Below,
  Below-add, Distinct-add,
}
use apna_mandla.Schema.{
  Db, GatewayPayment, GatewayProvider, GatewayPaymentStatus, initiated, success, refunded,
}
use apna_mandla.Env.{Env}
use apna_mandla.Session.{ok, Result-cases}
use apna_mandla.Ledger.Invariant.{IsValid}
use apna_mandla.Gateway.{
  gateway_payment, provider_value, initiate, add_payment, handle_webhook, handle_refund_webhook,
}
use apna_mandla.Gateway.WebhookOutcomes.{payment_ids, SameTerms, handle_webhook_lem}
use apna_mandla.Gateway.RefundOutcomes.{handle_refund_webhook_lem}
use apna_mandla.Gateway.Validity.{initiate-Keeps, handle_webhook-Keeps, handle_refund_webhook-Keeps}

add_payment_lem :
    (g : GatewayPayment) (d d' : Db)
    → add_payment g d ≡ ok (tt, d')
    → (d'.tables.gateway_payments ≡ g ∷ d.tables.gateway_payments)
      × (d'.tables.next_gateway_payment_id ≡ d.tables.next_gateway_payment_id + 1)
unfolding add_payment
add_payment_lem g d d' h = (ground arith, ground arith)

-- A payment stays as it is, is confirmed when it was initiated, or is refunded.
abbrev pub Later : GatewayPaymentStatus → GatewayPaymentStatus → Type 0
Later a b = (a ≡ b) ⊎ (((a ≡ initiated) × (b ≡ success)) ⊎ (b ≡ refunded))

Later-trans : (a b c : GatewayPaymentStatus) → Later a b → Later b c → Later a c
Later-trans a b c h k = ground arith

-- The books are valid, and the ids of payments are distinct and below the next one.
pub record IsSound (env : Env) (d : Db) : Type 0 where
  pub valid : IsValid env d.books
  pub distinct : Distinct payment_ids d.tables.gateway_payments
  pub below : Below payment_ids d.tables.next_gateway_payment_id d.tables.gateway_payments

-- What became of the payment `g` with the id `i`.
pub record Lives (i : ℕ) (g : GatewayPayment) (d' : Db) : Type 0 where
  pub now : GatewayPayment
  pub found : gateway_payment i d' ≡ some now
  pub terms : SameTerms g now
  pub later : Later g.status now.status

module _ (env : Env) where
  -- One call; `elsewhere` is any that leaves the payments alone and the books valid.
  pub data Step : Db → Db → Type 0 where
    initiate_step :
        (u : ℕ) (a : Decimal) (p : GatewayProvider) (o : Option ℕ) (d d' : Db) (g : GatewayPayment)
        → initiate env u a p o d ≡ ok (g, d')
        → Step d d'
    webhook_step :
        (p : GatewayProvider) (body signature secret : String) (payload : Json) (d d' : Db)
        (g : GatewayPayment)
        → handle_webhook env p body signature secret payload d ≡ ok (g, d')
        → Step d d'
    refund_step :
        (p : GatewayProvider) (body signature secret : String) (payload : Json) (d d' : Db)
        (g : GatewayPayment)
        → handle_refund_webhook env p body signature secret payload d ≡ ok (g, d')
        → Step d d'
    elsewhere :
        (d d' : Db)
        → d'.tables.gateway_payments ≡ d.tables.gateway_payments
        → d'.tables.next_gateway_payment_id ≡ d.tables.next_gateway_payment_id
        → IsValid env d'.books
        → Step d d'

  pub data Steps (start : Db) : Db → Type 0 where
    no_step : Steps start start
    one_more : {d d' : Db} → Steps start d → Step d d' → Steps start d'

  -- What a step does to the table of payments.
  record Carries (d d' : Db) : Type 0 where
    sound : IsSound env d'
    lives : (i : ℕ) (g : GatewayPayment) → gateway_payment i d ≡ some g → Lives i g d'

  stays :
      (d d' : Db)
      → d'.tables.gateway_payments ≡ d.tables.gateway_payments
      → d'.tables.next_gateway_payment_id ≡ d.tables.next_gateway_payment_id
      → IsValid env d'.books
      → IsSound env d
      → Carries d d'
  stays d d' rows next valid s = record {
    sound = record {
      valid = valid;
      distinct = rw rows s.distinct;
      below = rw (rows, next) s.below;
    };
    lives = λ i g h. record {
      now = g;
      found = ap (find_row payment_ids i) rows ∙ h;
      terms = record { same_id = refl; same_user = refl; same_amount = refl; same_order = refl };
      later = inl refl;
    };
  }

  -- A row was changed in place.
  changes :
      (d d' : Db) (b a : GatewayPayment)
      → Updated payment_ids b.id b a d.tables.gateway_payments d'.tables.gateway_payments
      → d'.tables.gateway_payments ≡ put_row payment_ids a d.tables.gateway_payments
      → d'.tables.next_gateway_payment_id ≡ d.tables.next_gateway_payment_id
      → SameTerms b a
      → Later b.status a.status
      → IsValid env d'.books
      → IsSound env d
      → Carries d d'
  changes d d' b a row rows next terms later valid s = record {
    sound = record {
      valid = valid;
      distinct = rw rows (put_row-Distinct payment_ids a d.tables.gateway_payments s.distinct);
      below =
          rw (rows, next)
            (put_row-Below payment_ids d.tables.next_gateway_payment_id a d.tables.gateway_payments
              (rw terms.same_id (
                find_row-Below payment_ids d.tables.next_gateway_payment_id b.id
                  d.tables.gateway_payments s.below row.found))
              s.below);
    };
    lives = λ i g h. elim (Bool-cases (b.id == i)) [
      | inl own ↦
          let same : b ≡ g = ground (
            arith,
            row.found,
            h,
            ap (λ j. find_row payment_ids j d.tables.gateway_payments) (==→eq b.id i own),
          ) in
          record {
            now = a;
            found = ground (arith, row.others i);
            terms = rw (← same) terms;
            later = rw (← same) later;
          }
      | inr differ ↦ record {
        now = g;
        found = ground (arith, row.others i);
        terms = record { same_id = refl; same_user = refl; same_amount = refl; same_order = refl };
        later = inl refl;
      }
    ];
  }

  initiated_row :
      (u : ℕ) (amount : Decimal) (p : GatewayProvider) (o : Option ℕ) (d d' : Db)
      (g : GatewayPayment)
      → initiate env u amount p o d ≡ ok (g, d')
      → (d'.tables.gateway_payments ≡ g ∷ d.tables.gateway_payments)
        × (g.id ≡ d.tables.next_gateway_payment_id)
        × (d'.tables.next_gateway_payment_id ≡ d.tables.next_gateway_payment_id + 1)
  unfolding initiate
  initiated_row u amount p o d d' g h =
      let new : GatewayPayment = record {
        id = d.tables.next_gateway_payment_id;
        user_id = u;
        order_id = o;
        amount = round amount;
        provider = p;
        status = initiated;
        gateway_order_id =
            some (f_string ("MOCK-" ∷ provider_value p ∷ "-" ∷ env.uuid_hex12 d.ticks ∷ []));
        gateway_payment_id = none;
        gateway_signature = none;
        ledger_correlation_id = none;
        completed_at = none;
        refunded_at = none;
      } in
      let d1 = record d { ticks = d.ticks + 1 } in
      elim (Result-cases (add_payment new d1)) [
        | inl (x, failed) ↦ absurd (ground arith)
        | inr (_, f, added) ↦
            let final : (g ≡ new) × (d' ≡ f) = (ground arith, ground arith) in
            let (rows, next) = add_payment_lem new d1 f added in
            rw (final.0, final.1) (rows, refl, next)
      ]

  adds :
      (d d' : Db) (a : GatewayPayment)
      → d'.tables.gateway_payments ≡ a ∷ d.tables.gateway_payments
      → a.id ≡ d.tables.next_gateway_payment_id
      → d'.tables.next_gateway_payment_id ≡ d.tables.next_gateway_payment_id + 1
      → IsValid env d'.books
      → IsSound env d
      → Carries d d'
  unfolding find_row
  adds d d' a rows new next valid s =
      let n = d.tables.next_gateway_payment_id in
      let old = d.tables.gateway_payments in
      record {
        sound = record {
          valid = valid;
          distinct = rw rows (Distinct-add payment_ids n a old new s.below s.distinct);
          below = rw (rows, next) (Below-add payment_ids n a old new s.below);
        };
        lives = λ i g h. record {
          now = g;
          found = ground (
            arith,
            ap (find_row payment_ids i) rows,
            find_row-Below payment_ids n i old {r = g} s.below h,
          );
          terms = record {
            same_id = refl;
            same_user = refl;
            same_amount = refl;
            same_order = refl;
          };
          later = inl refl;
        };
      }

  step : (d d' : Db) → IsSound env d → Step d d' → Carries d d'
  step d d' s (initiate_step u a p o _ _ g h) =
      let (rows, id, next) = initiated_row u a p o d d' g h in
      adds d d' g rows id next ((initiate-Keeps env u a p o).at d g d' s.valid h) s
  step d d' s (webhook_step p body signature secret payload _ _ g h) =
      let valid = (handle_webhook-Keeps env p body signature secret payload).at d g d' s.valid h in
      elim (handle_webhook_lem env p body signature secret payload d g d' h s.valid s.distinct) [
        | inl (_, same) ↦ stays d d' (rw same refl) (rw same refl) valid s
        | inr (_, _, b, _, _, c) ↦
            changes d d' b g c.row c.rows c.same_next c.terms
              (inr (inl (c.was_initiated, c.now_success))) valid s
      ]
  step d d' s (refund_step p body signature secret payload _ _ g h) =
      let valid =
        (handle_refund_webhook-Keeps env p body signature secret payload).at d g d' s.valid h in
      elim (handle_refund_webhook_lem env p body signature secret payload d g d' h s.valid
        s.distinct) [
          | inl (_, same) ↦ stays d d' (rw same refl) (rw same refl) valid s
          | inr (_, _, b, _, _, c) ↦
              changes d d' b g c.row c.rows c.same_next c.terms (inr (inr c.now_refunded)) valid s
        ]
  step d d' s (elsewhere _ _ rows next valid) = stays d d' rows next valid s

  outlives :
      (start d d' : Db) (i : ℕ) (g : GatewayPayment) → Lives i g d → Carries d d' → Lives i g d'
  outlives start d d' i g l c =
      let m = c.lives i l.now l.found in
      record {
        now = m.now;
        found = m.found;
        terms = record {
          same_id = m.terms.same_id ∙ l.terms.same_id;
          same_user = m.terms.same_user ∙ l.terms.same_user;
          same_amount = m.terms.same_amount ∙ l.terms.same_amount;
          same_order = m.terms.same_order ∙ l.terms.same_order;
        };
        later = Later-trans g.status l.now.status m.now.status l.later m.later;
      }

  carried :
      {start d : Db} (i : ℕ) (g : GatewayPayment)
      → IsSound env start
      → gateway_payment i start ≡ some g
      → Steps start d
      → IsSound env d × Lives i g d
  carried {start} i g s h no_step = (
    s,
    record {
      now = g;
      found = h;
      terms = record { same_id = refl; same_user = refl; same_amount = refl; same_order = refl };
      later = inl refl;
    },
  )
  carried {start} {d} i g s h (one_more {d = e} r t) =
      let (sd, l) = carried i g s h r in
      let c = step e d sd t in (c.sound, outlives start e d i g l c)

  -- From a state with valid books, in which the ids of payments are distinct and below the next
  -- one, over any sequence of initiations, webhooks and calls that leave payments alone and books
  -- valid, a payment stays in the table with its user, amount and order, and its status is the
  -- same, or has gone from initiated to success, or is refunded.
  pub Lives_lem :
      (start d : Db) (i : ℕ) (g : GatewayPayment)
      → IsSound env start
      → gateway_payment i start ≡ some g
      → Steps start d
      → Lives i g d
  Lives_lem start d i g s h r = (carried i g s h r).1
