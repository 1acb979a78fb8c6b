-- ===== src/Orders/Saved.antt =====
-- How each call that changes orders leaves them.
use apna_mandla.Prelude.{
  ℕ, ◌+◌, ◌≡◌, ◌≢◌, ◌⊎◌, refl, String, true, false, Bool, Option, none, some, List, [], ◌∷◌, arith,
  inl, inr, ◌==◌, ◌&&◌, leb, Bool-cases, Option-cases, first, is_some,
}
use apna_mandla.Table.{find_row, put_row}
use apna_mandla.Schema.{
  Db, Order, OrderStatus, broadcasting, rider_assigned, out_for_delivery, delivered,
}
use apna_mandla.Env.{Env}
use apna_mandla.Session.{ok}
use apna_mandla.Orders.{
  order, order_ids, save_order, otp_is, mark_ready, accept_task, check_rider, confirm_pickup,
  confirm_delivery, complete_order, transfer_order, save_parcel, save_free_rider, start_broadcast,
  accept_order, expand_round, is_broadcasting, max_radius_km, given_up, find_profile, key_is,
}

-- An order that is on its way has a rider.
abbrev pub on_the_way : OrderStatus → Bool
on_the_way rider_assigned = true
on_the_way out_for_delivery = true
on_the_way delivered = true
on_the_way _ = false

unfoldable pub Manned : List Order → Type 0
Manned [] = Unit
Manned (o ∷ os) = (on_the_way o.status ≡ true → is_some o.assigned_rider_id ≡ true) × Manned os

pub put_row-Manned :
    (o : Order) (os : List Order)
    → (on_the_way o.status ≡ true → is_some o.assigned_rider_id ≡ true)
    → Manned os
    → Manned (put_row order_ids o os)
unfolding put_row Manned
put_row-Manned o [] new m = tt
put_row-Manned o (x ∷ xs) new (mx, m) = elim (Bool-cases (x.id == o.id)) [
  | inl same ↦ rw same (new, m)
  | inr differ ↦ rw differ (mx, put_row-Manned o xs new m)
]

pub find_row-Manned :
    (i : ℕ) (os : List Order) {o : Order}
    → Manned os
    → find_row order_ids i os ≡ some o
    → on_the_way o.status ≡ true
    → is_some o.assigned_rider_id ≡ true
unfolding Manned find_row
find_row-Manned i [] m h = absurd (cc h)
find_row-Manned i (x ∷ xs) {o} (mx, m) h = elim (Bool-cases (x.id == i)) [
  | inl hit ↦ let same : x ≡ o = ground arith in rw (← same) mx
  | inr miss ↦ find_row-Manned i xs {o = o} m (ground arith)
]

-- How a call that delivers nothing leaves the orders: with `after` in the place of a row, which is
-- on its way only with a rider.
pub record Saved (d d' : Db) : Type 0 where
  pub after : Order
  pub rows : d'.tables.orders ≡ put_row order_ids after d.tables.orders
  pub undelivered : after.status ≢ delivered
  pub manned :
      Manned d.tables.orders
      → on_the_way after.status ≡ true
      → is_some after.assigned_rider_id ≡ true

pub confirm_delivery_saved :
    (user i : ℕ) (otp : String) (d d' : Db)
    → confirm_delivery user i otp d ≡ ok (tt, d')
    → (o : Order) × (order i d ≡ some o)
      × (o.status ≡ out_for_delivery)
      × (otp_is o.delivery_otp otp ≡ true)
      × (d'.tables.orders ≡ put_row order_ids (record o { status = delivered }) d.tables.orders)
unfolding confirm_delivery check_rider save_order save_parcel save_free_rider
confirm_delivery_saved user i otp d d' h = elim (Option-cases (order i d)) [
  | inl absent ↦ absurd (ground arith)
  | inr (o, found) ↦
      elim (Option-cases (find_profile o.assigned_rider_id d.tables.rider_profiles)) [
        | inl alone ↦ absurd (ground arith)
        | inr (r, rider) ↦ (o, found, ground arith, ground arith, ground arith)
      ]
]

module _ (env : Env) (d d' : Db) where
  pub mark_ready-Saved :
      (shop : Option ℕ) (i : ℕ) → mark_ready env shop i d ≡ ok (tt, d') → Saved d d'
  unfolding mark_ready save_order
  mark_ready-Saved none i h = absurd (ground arith)
  mark_ready-Saved (some shop) i h =
      elim (Option-cases (first (λ o. o.id == i && key_is o.shop_id shop) d.tables.orders)) [
        | inl absent ↦ absurd (ground arith)
        | inr (o, found) ↦ record {
          after = record o { status = broadcasting; delivery_otp = some (env.random_otp d.ticks) };
          rows = ground arith;
          undelivered = λ p. absurd (cc p);
          manned = λ m p. absurd (cc p);
        }
      ]

  pub start_broadcast-Saved :
      (i : ℕ) (x : Order) → start_broadcast env i d ≡ ok (x, d') → Saved d d'
  unfolding start_broadcast save_order
  start_broadcast-Saved i x h = elim (Option-cases (order i d)) [
    | inl absent ↦ absurd (ground arith)
    | inr (o, found) ↦ record {
      after = x;
      rows = ground arith;
      undelivered = ground arith;
      manned = λ m p. absurd (ground arith);
    }
  ]

  pub accept_order-Saved :
      (rider i : ℕ) (x : Bool) → accept_order env rider i d ≡ ok (x, d') → (x ≡ false) × Saved d d'
  unfolding accept_order save_order
  accept_order-Saved rider i x h = elim (Option-cases (order i d)) [
    | inl absent ↦ absurd (ground arith)
    | inr (o, found) ↦ (
      ground arith,
      record {
        after = given_up o;
        rows = ground arith;
        undelivered = λ p. absurd (cc p);
        manned = λ m p. absurd (cc p);
      },
    )
  ]

module _ (d d' : Db) where
  pub accept_task-Saved :
      (profile : Option ℕ) (i : ℕ) → accept_task profile i d ≡ ok (tt, d') → Saved d d'
  unfolding accept_task save_order
  accept_task-Saved none i h =
      elim (Option-cases (first (λ o. o.id == i && is_broadcasting o.status) d.tables.orders)) [
        | inl absent ↦ absurd (ground arith)
        | inr (o, found) ↦ absurd (ground arith)
      ]
  accept_task-Saved (some r) i h =
      elim (Option-cases (first (λ o. o.id == i && is_broadcasting o.status) d.tables.orders)) [
        | inl absent ↦ absurd (ground arith)
        | inr (o, found) ↦ record {
          after = record o { status = rider_assigned; assigned_rider_id = some r };
          rows = ground arith;
          undelivered = λ p. absurd (cc p);
          manned = λ m p. refl;
        }
      ]

  pub confirm_pickup-Saved : (user i : ℕ) → confirm_pickup user i d ≡ ok (tt, d') → Saved d d'
  unfolding confirm_pickup check_rider save_order save_parcel
  confirm_pickup-Saved user i h = elim (Option-cases (order i d)) [
    | inl absent ↦ absurd (ground arith)
    | inr (o, found) ↦
        elim (Option-cases (find_profile o.assigned_rider_id d.tables.rider_profiles)) [
          | inl alone ↦ absurd (ground arith)
          | inr (r, rider) ↦ record {
            after = record o { status = out_for_delivery };
            rows = ground arith;
            undelivered = λ p. absurd (cc p);
            manned = λ m p. find_row-Manned i d.tables.orders m found (ground arith);
          }
        ]
  ]

  pub complete_order_fails :
      (profile : Option ℕ) (i : ℕ) (otp : String) (x : Unit {0})
      → complete_order profile i otp d ≢ ok (x, d')
  unfolding complete_order
  complete_order_fails none i otp x h = absurd (ground arith)
  complete_order_fails (some r) i otp x h =
      elim (Option-cases (first (λ o. o.id == i && key_is o.assigned_rider_id r) d.tables.orders)) [
        | inl absent ↦ absurd (ground arith)
        | inr (o, found) ↦ absurd (ground arith)
      ]

  pub transfer_order-Saved :
      (rider i : ℕ) (otp : Option String) → transfer_order rider i otp d ≡ ok (tt, d') → Saved d d'
  unfolding transfer_order save_order save_free_rider
  transfer_order-Saved rider i otp h = elim (Option-cases (order i d)) [
    | inl absent ↦ absurd (ground arith)
    | inr (o, found) ↦ elim (Option-cases (first (λ r. r.id == rider) d.tables.riders)) [
      | inl alone ↦ absurd (ground arith)
      | inr (r, there) ↦ record {
        after = record o {
          assigned_rider_id = none;
          status = broadcasting;
          transfer_count = o.transfer_count + 1;
        };
        rows = ground arith;
        undelivered = λ p. absurd (cc p);
        manned = λ m p. absurd (cc p);
      }
    ]
  ]

pub expand_round-Saved :
    (i : ℕ) (d : Db)
    → ((expand_round i d).1.tables.orders ≡ d.tables.orders) ⊎ Saved d (expand_round i d).1
unfolding expand_round save_order
expand_round-Saved i d = elim (Option-cases (order i d)) [
  | inl absent ↦ inl (ground arith)
  | inr (o, found) ↦ elim (Bool-cases (is_broadcasting o.status)) [
    | inr other ↦ inl (ground arith)
    | inl searching ↦ elim (Bool-cases (leb max_radius_km o.broadcast_radius)) [
      | inl wide ↦ inr (record {
        after = given_up o;
        rows = ground arith;
        undelivered = λ p. absurd (cc p);
        manned = λ m p. absurd (cc p);
      })
      | inr small ↦ inr (record {
        after = record o { broadcast_radius = o.broadcast_radius + 2 };
        rows = ground arith;
        undelivered = ground arith;
        manned = λ m p. absurd (ground arith);
      })
    ]
  ]
]
