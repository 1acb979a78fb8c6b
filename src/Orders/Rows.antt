-- ===== src/Orders/Rows.antt =====
-- The rows of orders, payments and riders.
use apna_mandla.Prelude.{
  ℕ, Bool, true, false, not, ◌||◌, Option, none, some, List, [], ◌∷◌, ◌^◌, ◌==◌, if◌then◌else◌,
  first,
}
use apna_mandla.Prelude.Int.{ℤ, pos, ◌*ℤ◌, ltb_ℤ}
use apna_mandla.Money.{Decimal}
use apna_mandla.Table.{find_row, put_row}
use apna_mandla.Schema.{
  Db, Order, OrderStatus, payment_pending, ready_for_pickup, broadcasting, rider_assigned,
  out_for_delivery, PaymentMode, prepaid, Payment, PaymentStatus, pay_initiated, pay_success, Shop,
  Parcel, ParcelStatus, RiderProfile, Rider,
}
use apna_mandla.Session.{M, ok}

abbrev pub order_ids : Order → ℕ
order_ids o = o.id

abbrev pub payment_ids : Payment → ℕ
payment_ids p = p.id

-- The row with an id, of a state.
abbrev pub order : ℕ → Db → Option Order
order i d = find_row order_ids i d.tables.orders

abbrev pub payment : ℕ → Db → Option Payment
payment i d = find_row payment_ids i d.tables.payments

abbrev pub is_payment_pending : OrderStatus → Bool
is_payment_pending payment_pending = true
is_payment_pending _ = false

abbrev pub is_ready_for_pickup : OrderStatus → Bool
is_ready_for_pickup ready_for_pickup = true
is_ready_for_pickup _ = false

abbrev pub is_broadcasting : OrderStatus → Bool
is_broadcasting broadcasting = true
is_broadcasting _ = false

abbrev pub is_rider_assigned : OrderStatus → Bool
is_rider_assigned rider_assigned = true
is_rider_assigned _ = false

abbrev pub is_out_for_delivery : OrderStatus → Bool
is_out_for_delivery out_for_delivery = true
is_out_for_delivery _ = false

abbrev pub is_prepaid : PaymentMode → Bool
is_prepaid prepaid = true
is_prepaid _ = false

abbrev pub is_pay_initiated : PaymentStatus → Bool
is_pay_initiated pay_initiated = true
is_pay_initiated _ = false

abbrev pub is_pay_success : PaymentStatus → Bool
is_pay_success pay_success = true
is_pay_success _ = false

-- A foreign key that may be NULL, and an id.
abbrev pub key_is : Option ℕ → ℕ → Bool
key_is none i = false
key_is (some k) i = k == i

unfoldable pub find_shop : Option ℕ → List Shop → Option Shop
find_shop key = first (λ s. key_is key s.id)

-- Two decimals are one number; the second has two places.
unfoldable pub same_number : Decimal → ℤ → Bool
same_number a b =
    let x = a.coeff *ℤ pos 100 in let y = b *ℤ pos (10 ^ a.places) in not (ltb_ℤ x y || ltb_ℤ y x)

unfoldable pub save_order : Order → M (Unit {0})
save_order o d =
    ok (tt, record d { tables = record d.tables { orders = put_row order_ids o d.tables.orders } })

unfoldable pub save_payment : Payment → M (Unit {0})
save_payment p d = ok (
  tt,
  record d { tables = record d.tables { payments = put_row payment_ids p d.tables.payments } },
)

-- `if order.parcel: order.parcel.status = status`
unfoldable pub set_parcel : ℕ → ParcelStatus → List Parcel → List Parcel
set_parcel order_id status [] = []
set_parcel order_id status (p ∷ ps) =
    let rest = set_parcel order_id status ps in
    if p.order_id == order_id then record p { status = status } ∷ rest else p ∷ rest

unfoldable pub save_parcel : ℕ → ParcelStatus → M (Unit {0})
save_parcel order_id status d = ok (
  tt,
  record d { tables = record d.tables { parcels = set_parcel order_id status d.tables.parcels } },
)

unfoldable pub find_profile : Option ℕ → List RiderProfile → Option RiderProfile
find_profile key = first (λ r. key_is key r.id)

-- The rider of a user is taken off the current order.
unfoldable pub free_rider : (Rider → Bool) → List Rider → List Rider
free_rider p [] = []
free_rider p (r ∷ rs) =
    let rest = free_rider p rs in
    if p r then record r { current_order_id = none } ∷ rs else r ∷ rest

unfoldable pub save_free_rider : (Rider → Bool) → M (Unit {0})
save_free_rider p d =
    ok (tt, record d { tables = record d.tables { riders = free_rider p d.tables.riders } })
