-- ===== src/Orders/OverridesSaved.antt =====
-- How the routes of Orders/Overrides leave the orders.
use apna_mandla.Prelude.{
  ℕ, ◌≡◌, ◌≢◌, ◌⊎◌, refl, String, Bool, true, false, not, Option, none, some, arith, inl, inr, ◌==◌,
  ◌&&◌, Option-cases, first,
}
use apna_mandla.Table.{find_row, put_row}
use apna_mandla.Schema.{Db, Order, Parcel, assigned, cancelled, out_for_delivery, rider_assigned}
use apna_mandla.Env.{Env}
use apna_mandla.Session.{ok}
use apna_mandla.Orders.{
  order, order_ids, own_order, find_profile, complete_delivery, rider_pickup_proof, force_cancel,
  force_assign_rider, rider_complete_order, update_order_status, accept_delivery,
  accept_parcel_order, put_parcel, parcel_ids, save_order, save_payment, is_pay_success, an_order,
  a_parcel, other_type,
}
use apna_mandla.Orders.Saved.{Saved, find_row-Manned}

module _ (d d' : Db) where
  pub complete_delivery_fails :
      (user i : ℕ) (otp : String) → complete_delivery user i otp d ≢ ok (tt, d')
  unfolding complete_delivery own_order
  complete_delivery_fails user i otp h = elim (Option-cases (order i d)) [
    | inl absent ↦ absurd (ground arith)
    | inr (o, found) ↦
        elim (Option-cases (find_profile o.assigned_rider_id d.tables.rider_profiles)) [
          | inl alone ↦ absurd (ground arith)
          | inr (r, rider) ↦ absurd (ground arith)
        ]
  ]

  pub rider_complete_fails : (rider i : ℕ) → rider_complete_order rider i d ≢ ok (tt, d')
  unfolding rider_complete_order
  rider_complete_fails rider i h = elim (Option-cases (order i d)) [
    | inl absent ↦ absurd (ground arith)
    | inr (o, found) ↦ absurd (ground arith)
  ]

  pub force_assign_fails : (i rider : ℕ) → force_assign_rider i rider d ≢ ok (tt, d')
  unfolding force_assign_rider
  force_assign_fails i rider h = ground arith

  pub update_status_fails : (i : ℕ) → update_order_status i d ≢ ok (tt, d')
  unfolding update_order_status
  update_status_fails i h = elim (Option-cases (order i d)) [
    | inl absent ↦ absurd (ground arith)
    | inr (o, found) ↦ absurd (ground arith)
  ]

  -- A rider put on an order that keeps its status.
  pub record Reassigned : Type 0 where
    pub at : ℕ
    pub before : Order
    pub rider : ℕ
    pub found : order at d ≡ some before
    pub rows :
        d'.tables.orders
        ≡ put_row order_ids (record before { assigned_rider_id = some rider }) d.tables.orders

  pub accept_order_delivery-Saved :
      (begun : Bool) (profile : Option ℕ) (i : ℕ)
      → accept_delivery begun profile an_order i d ≡ ok (tt, d')
      → Saved d d'
  unfolding accept_delivery save_order
  accept_order_delivery-Saved true profile i h = absurd (cc h)
  accept_order_delivery-Saved false none i h = elim (Option-cases (order i d)) [
    | inl absent ↦ absurd (ground arith)
    | inr (o, found) ↦ absurd (ground arith)
  ]
  accept_order_delivery-Saved false (some r) i h = elim (Option-cases (order i d)) [
    | inl absent ↦ absurd (ground arith)
    | inr (o, found) ↦ record {
      after = record o { status = rider_assigned; assigned_rider_id = some r };
      rows = ground arith;
      undelivered = λ p. absurd (cc p);
      manned = λ m p. refl;
    }
  ]

  pub accept_parcel_order-Reassigned :
      (profile : Option ℕ) (i : ℕ)
      → accept_parcel_order profile i d ≡ ok (tt, d')
      → (d'.tables.orders ≡ d.tables.orders) ⊎ Reassigned
  unfolding accept_parcel_order save_order
  accept_parcel_order-Reassigned none i h = elim (Option-cases (order i d)) [
    | inl absent ↦ inl (ground arith)
    | inr (o, found) ↦ absurd (ground arith)
  ]
  accept_parcel_order-Reassigned (some r) i h = elim (Option-cases (order i d)) [
    | inl absent ↦ inl (ground arith)
    | inr (o, found) ↦
        inr (record { at = i; before = o; rider = r; found = found; rows = ground arith })
  ]

pub accept_parcel-Reassigned :
    (d d' : Db) (begun : Bool) (profile : Option ℕ) (i : ℕ)
    → accept_delivery begun profile a_parcel i d ≡ ok (tt, d')
    → (d'.tables.orders ≡ d.tables.orders) ⊎ Reassigned d d'
unfolding accept_delivery put_parcel
accept_parcel-Reassigned d d' true profile i h = absurd (cc h)
accept_parcel-Reassigned d d' false profile i h =
    elim (Option-cases (find_row parcel_ids i d.tables.parcels)) [
      | inl absent ↦ absurd (ground arith)
      | inr (p, found) ↦
          let now : Parcel = record p { status = assigned } in
          let e : Db = record d {
            tables = record d.tables { parcels = put_row parcel_ids now d.tables.parcels };
          } in
          elim (accept_parcel_order-Reassigned e d' profile p.order_id (ground arith)) [
            | inl same ↦ inl same
            | inr r ↦ inr (record {
              at = r.at;
              before = r.before;
              rider = r.rider;
              found = r.found;
              rows = r.rows;
            })
          ]
    ]

pub accept_other_fails :
    (d d' : Db) (begun : Bool) (profile : Option ℕ) (i : ℕ)
    → accept_delivery begun profile other_type i d ≢ ok (tt, d')
unfolding accept_delivery
accept_other_fails d d' true profile i h = cc h
accept_other_fails d d' false profile i h = cc h

module _ (env : Env) (d d' : Db) where
  pub rider_pickup_proof-Saved :
      (user i : ℕ) → rider_pickup_proof env user i d ≡ ok (tt, d') → Saved d d'
  unfolding rider_pickup_proof own_order save_order
  rider_pickup_proof-Saved user i h = elim (Option-cases (order i d)) [
    | inl absent ↦ absurd (ground arith)
    | inr (o, found) ↦
        elim (Option-cases (find_profile o.assigned_rider_id d.tables.rider_profiles)) [
          | inl alone ↦ absurd (ground arith)
          | inr (r, rider) ↦ record {
            after = record o {
              status = out_for_delivery;
              delivery_otp = some (env.random_otp d.ticks);
            };
            rows = ground arith;
            undelivered = λ p. absurd (cc p);
            manned = λ m p. find_row-Manned i d.tables.orders m found (ground arith);
          }
        ]
  ]

  pub force_cancel-Saved : (i : ℕ) → force_cancel env i d ≡ ok (tt, d') → Saved d d'
  unfolding force_cancel save_order save_payment
  force_cancel-Saved i h =
      elim (Option-cases (first (λ o. o.id == i && not o.is_archived) d.tables.orders)) [
        | inl absent ↦ absurd (ground arith)
        | inr (o, found) ↦
            elim (Option-cases
              (first (λ p. p.order_id == o.id && is_pay_success p.status) d.tables.payments)) [
                | inl unpaid ↦ record {
                  after = record o { status = cancelled };
                  rows = ground arith;
                  undelivered = λ p. absurd (cc p);
                  manned = λ m p. absurd (cc p);
                }
                | inr (p, paid) ↦ record {
                  after = record o { status = cancelled };
                  rows = ground arith;
                  undelivered = λ p. absurd (cc p);
                  manned = λ m p. absurd (cc p);
                }
              ]
      ]
