-- ===== src/Orders/Overrides.antt =====
-- The other routes that write orders: order_proofs.py, admin_order.py, dispatch.py and rider.py of
-- Backend/app/routes, and `update_order_status` of order.py there. Photos are left out, and so is
-- the check of the caller's role.
use apna_mandla.Prelude.{ℕ, Bool, not, ◌&&◌, ◌||◌, String, Option, some, ◌==◌, first}
use apna_mandla.Schema.{
  Order, Parcel, ParcelStatus, searching_for_rider, assigned, rider_assigned, out_for_delivery,
  cancelled, pay_refunded,
}
use apna_mandla.Table.{find_row, put_row}
use apna_mandla.Env.{Env}
use apna_mandla.Session.{
  M, ok, ◌>>=◌, ◌>>◌, pure, raise, raise_if, or_raise, if_found, gets, now, http_exception,
  runtime_error,
}
use apna_mandla.Orders.Rows.{
  order_ids, is_ready_for_pickup, is_broadcasting, is_rider_assigned, is_out_for_delivery, key_is,
  is_pay_success, find_profile, save_order, save_payment,
}
use apna_mandla.Orders.Delivery.{otp_is, new_otp}

-- `not order.assigned_rider or order.assigned_rider.user_id != current_user.id`
unfoldable pub own_order : Order → ℕ → M (Unit {0})
own_order order user_id = do
  found ← gets (λ d. find_profile order.assigned_rider_id d.tables.rider_profiles)
  rider ← or_raise found (http_exception 403)
  raise_if (not (rider.user_id == user_id)) (http_exception 403)

-- `complete_delivery` of order_proofs.py. `Order` has no `payment_method`, so after a right code the
-- call raises before it commits.
unfoldable pub complete_delivery : ℕ → ℕ → String → M (Unit {0})
complete_delivery user_id order_id otp = do
  found ← gets (λ d. find_row order_ids order_id d.tables.orders)
  order ← or_raise found (http_exception 404)
  own_order order user_id
  raise_if (not (otp_is order.delivery_otp otp)) (http_exception 400)
  raise runtime_error

-- `rider_complete_order` of rider.py, which is `complete_delivery` of delivery_service.py. It asks for
-- columns of `OTP` that the model in otp.py does not have, so it raises.
unfoldable pub rider_complete_order : ℕ → ℕ → M (Unit {0})
rider_complete_order rider_id order_id = do
  found ← gets (λ d. find_row order_ids order_id d.tables.orders)
  order ← or_raise found (http_exception 404)
  raise_if (not (key_is order.assigned_rider_id rider_id)) (http_exception 403)
  raise_if (not (is_out_for_delivery order.status)) (http_exception 400)
  raise runtime_error

module _ (env : Env) where
  -- `rider_pickup_proof` of order_proofs.py
  unfoldable pub rider_pickup_proof : ℕ → ℕ → M (Unit {0})
  rider_pickup_proof user_id order_id = do
    found ← gets (λ d. find_row order_ids order_id d.tables.orders)
    order ← or_raise found (http_exception 404)
    own_order order user_id
    raise_if (not (is_rider_assigned order.status)) (http_exception 400)
    otp ← new_otp env
    save_order (record order { status = out_for_delivery; delivery_otp = some otp })

  -- `force_cancel` of admin_order.py
  unfoldable pub force_cancel : ℕ → M (Unit {0})
  force_cancel order_id = do
    found ← gets (λ d. first (λ o. o.id == order_id && not o.is_archived) d.tables.orders)
    order ← or_raise found (http_exception 404)
    save_order (record order { status = cancelled })
    paid ←
        gets (λ d. first (λ p. p.order_id == order.id && is_pay_success p.status) d.tables.payments)
    if_found paid
        (λ p. do
          time ← now env
          save_payment (record p { status = pay_refunded; refunded_at = some time }))
        (pure tt)

-- `force_assign_rider` of admin_order.py looks for the status "READY", which is none of
-- `OrderStatus`.
unfoldable pub force_assign_rider : ℕ → ℕ → M (Unit {0})
force_assign_rider order_id rider_id = raise (http_exception 404)

-- `update_order_status` of order.py: a user has no `get_roles`.
unfoldable pub update_order_status : ℕ → M (Unit {0})
update_order_status order_id = do
  found ← gets (λ d. find_row order_ids order_id d.tables.orders)
  order ← or_raise found (http_exception 404)
  raise runtime_error

abbrev pub parcel_ids : Parcel → ℕ
parcel_ids p = p.id

abbrev is_searching : ParcelStatus → Bool
is_searching searching_for_rider = Bool.true
is_searching _ = Bool.false

unfoldable pub put_parcel : Parcel → M (Unit {0})
put_parcel p d =
    ok (
      tt,
      record d { tables = record d.tables { parcels = put_row parcel_ids p d.tables.parcels } },
    )

unfoldable pub accept_parcel_order : Option ℕ → ℕ → M (Unit {0})
accept_parcel_order rider_profile order_id = do
  found ← gets (λ d. find_row order_ids order_id d.tables.orders)
  if_found found
      (λ order. do
        profile ← or_raise rider_profile runtime_error
        save_order (record order { assigned_rider_id = some profile }))
      (pure tt)

pub data DeliveryType : Type 0 where
  an_order a_parcel other_type : DeliveryType

-- `accept_delivery` of dispatch.py. `begun` is whether `db.begin()` finds a transaction of the
-- session that has begun already, and raises.
unfoldable pub accept_delivery : Bool → Option ℕ → DeliveryType → ℕ → M (Unit {0})
accept_delivery begun rider_profile an_order delivery_id = do
  raise_if begun runtime_error
  found ← gets (λ d. find_row order_ids delivery_id d.tables.orders)
  order ← or_raise found (http_exception 404)
  raise_if (not (is_ready_for_pickup order.status || is_broadcasting order.status))
      (http_exception 404)
  profile ← or_raise rider_profile runtime_error
  save_order (record order { status = rider_assigned; assigned_rider_id = some profile })
accept_delivery begun rider_profile a_parcel delivery_id = do
  raise_if begun runtime_error
  found ← gets (λ d. find_row parcel_ids delivery_id d.tables.parcels)
  parcel ← or_raise found (http_exception 404)
  raise_if (not (is_searching parcel.status)) (http_exception 404)
  put_parcel (record parcel { status = assigned })
  accept_parcel_order rider_profile parcel.order_id
accept_delivery begun rider_profile other_type delivery_id = do
  raise_if begun runtime_error
  raise (http_exception 400)
