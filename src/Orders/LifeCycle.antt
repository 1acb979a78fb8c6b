-- ===== src/Orders/LifeCycle.antt =====
-- The orders over any sequence of calls.
use apna_mandla.Prelude.{
  ℕ, ◌≡◌, ◌≢◌, ◌∙◌, refl, sym, String, true, some, arith, inl, inr, ap, is_some,
}
use apna_mandla.Table.{find_row, Distinct, put_row-Distinct, find_row-key, find_row-put_row_either}
use apna_mandla.Schema.{Db, Order, out_for_delivery, delivered}
use apna_mandla.Env.{Env}
use apna_mandla.Session.{ok}
use apna_mandla.Orders.{order, order_ids, otp_is, confirm_delivery}
use apna_mandla.Orders.Saved.{on_the_way, put_row-Manned, find_row-Manned, confirm_delivery_saved}
use apna_mandla.Orders.Steps.{
  IsSound, Step, Steps, no_step, one_more, Effect, none_changed, one_saved, one_reassigned,
  one_delivered, effect,
}

-- A delivery of the order `i`.
pub record Delivery (i : ℕ) (o : Order) (d d' : Db) : Type 0 where
  pub rider : ℕ
  pub otp : String
  pub call : confirm_delivery rider i otp d ≡ ok (tt, d')
  pub was_out : o.status ≡ out_for_delivery
  pub right_code : otp_is o.delivery_otp otp ≡ true

module _ (env : Env) where
  kept : {d d' : Db} → IsSound d → Effect d d' → IsSound d'
  kept s (none_changed same) = record { distinct = rw same s.distinct; manned = rw same s.manned }
  kept {d} s (one_saved t) = record {
    distinct = rw t.rows (put_row-Distinct order_ids t.after d.tables.orders s.distinct);
    manned = rw t.rows (put_row-Manned t.after d.tables.orders (t.manned s.manned) s.manned);
  }
  kept {d} s (one_reassigned r) =
      let a = record r.before { assigned_rider_id = some r.rider } in
      record {
        distinct = rw r.rows (put_row-Distinct order_ids a d.tables.orders s.distinct);
        manned = rw r.rows (put_row-Manned a d.tables.orders (λ p. refl) s.manned);
      }
  kept {d} {d'} s (one_delivered u i otp h) =
      let (o, found, out, code, rows) = confirm_delivery_saved u i otp d d' h in
      let a = record o { status = delivered } in
      record {
        distinct = rw rows (put_row-Distinct order_ids a d.tables.orders s.distinct);
        manned = rw rows (
            put_row-Manned a d.tables.orders
              (λ p. find_row-Manned i d.tables.orders s.manned found (ap on_the_way out)) s.manned);
      }

  all_kept : {start d : Db} → IsSound start → Steps env start d → IsSound d
  all_kept s no_step = s
  all_kept s (one_more r t) =
      let before = all_kept s r in kept before (effect env before.distinct t)

  -- From a state in which the ids of orders are distinct and every order on its way has a rider,
  -- over any sequence of the calls of Orders/Steps, an order that is assigned, out for delivery or
  -- delivered has a rider. The calls are all that write orders but the creation of an order and
  -- the routes of shop_order.py.
  pub Steps-manned :
      (start d : Db) (i : ℕ) (o : Order)
      → IsSound start
      → Steps env start d
      → order i d ≡ some o
      → on_the_way o.status ≡ true
      → is_some o.assigned_rider_id ≡ true
  Steps-manned start d i o s r h = find_row-Manned i d.tables.orders (all_kept s r).manned h

  unchanged :
      (d : Db) (i : ℕ) (o o' : Order)
      → order i d ≡ some o
      → order i d ≡ some o'
      → o.status ≢ delivered
      → o'.status ≢ delivered
  unchanged d i o o' h h' not_yet now =
      let same : o ≡ o' = ground (arith, h, h') in not_yet (ap (λ x. x.status) same ∙ now)

  delivery :
      {d d' : Db} (i : ℕ) (o o' : Order)
      → Effect d d'
      → order i d ≡ some o
      → order i d' ≡ some o'
      → o.status ≢ delivered
      → o'.status ≡ delivered
      → Delivery i o d d'
  delivery {d} i o o' (none_changed same) h h' not_yet now =
      absurd (unchanged d i o o' h (ap (find_row order_ids i) (sym same) ∙ h') not_yet now)
  delivery {d} i o o' (one_saved t) h h' not_yet now =
      elim (find_row-put_row_either order_ids i t.after o' d.tables.orders
        (ap (find_row order_ids i) (sym t.rows) ∙ h')) [
          | inl new ↦ absurd (t.undelivered (ap (λ x. x.status) (sym new) ∙ now))
          | inr old ↦ absurd (unchanged d i o o' h old not_yet now)
        ]
  delivery {d} {d'} i o o' (one_reassigned r) h h' not_yet now =
      let a = record r.before { assigned_rider_id = some r.rider } in
      elim (find_row-put_row_either order_ids i a o' d.tables.orders
        (ap (find_row order_ids i) (sym r.rows) ∙ h')) [
          | inr old ↦ absurd (unchanged d i o o' h old not_yet now)
          | inl new ↦
              let own : r.at ≡ i =
                sym (find_row-key order_ids r.at d.tables.orders r.found)
                ∙ ap (λ x. x.id) (sym new)
                ∙ find_row-key order_ids i d'.tables.orders h' in
              let same : r.before ≡ o = ground (arith, r.found, h, ap (λ k. order k d) own) in
              absurd (not_yet (ap (λ x. x.status) (sym same) ∙ ap (λ x. x.status) (sym new) ∙ now))
        ]
  delivery {d} {d'} i o o' (one_delivered u j otp call) h h' not_yet now =
      let (b, found, out, code, rows) = confirm_delivery_saved u j otp d d' call in
      let a = record b { status = delivered } in
      elim (find_row-put_row_either order_ids i a o' d.tables.orders
        (ap (find_row order_ids i) (sym rows) ∙ h')) [
          | inr old ↦ absurd (unchanged d i o o' h old not_yet now)
          | inl new ↦
              let own : j ≡ i =
                sym (find_row-key order_ids j d.tables.orders found)
                ∙ ap (λ x. x.id) (sym new)
                ∙ find_row-key order_ids i d'.tables.orders h' in
              let same : b ≡ o = ground (arith, found, h, ap (λ k. order k d) own) in
              record {
                rider = u;
                otp = otp;
                call = rw (← own) call;
                was_out = rw (← same) out;
                right_code = rw (← same) code;
              }
        ]

  -- Where the ids of orders are distinct, a call of Orders/Steps after which an order is delivered
  -- that was not before is the confirmation of that order by `confirm_delivery`, and the order was
  -- out for delivery, with the code given. The calls are all that write orders but the creation of
  -- an order and the routes of shop_order.py.
  pub Step-delivered :
      (d d' : Db) (i : ℕ) (o o' : Order)
      → Distinct order_ids d.tables.orders
      → Step env d d'
      → order i d ≡ some o
      → order i d' ≡ some o'
      → o.status ≢ delivered
      → o'.status ≡ delivered
      → Delivery i o d d'
  Step-delivered d d' i o o' dis t h h' = delivery i o o' (effect env dis t) h h'
