-- ===== src/Orders/Delivery.antt =====
-- The way of an order to its customer. The caller's shop and rider profile are arguments; `none` is
-- a caller who has none, for whom the source raises.
use apna_mandla.Prelude.{
  ℕ, ◌+◌, String, Bool, false, not, ◌&&◌, ◌||◌, Option, none, some, ◌==◌, if◌then◌else◌, first,
}
use apna_mandla.Prelude.Text.{str_eq}
use apna_mandla.Schema.{
  Order, broadcasting, rider_assigned, out_for_delivery, delivered, picked_up, parcel_delivered,
}
use apna_mandla.Env.{Env}
use apna_mandla.Session.{
  M, ok, ◌>>=◌, ◌>>◌, raise, raise_if, or_raise, gets, http_exception, runtime_error,
}
use apna_mandla.Withdrawal.{falsy}
use apna_mandla.Orders.Rows.{
  order_ids, is_broadcasting, is_rider_assigned, is_out_for_delivery, key_is, find_profile,
  save_order, save_parcel, save_free_rider,
}
use apna_mandla.Table.{find_row}

-- `order.delivery_otp != otp`
abbrev pub otp_is : Option String → String → Bool
otp_is none otp = false
otp_is (some code) otp = str_eq code otp

module _ (env : Env) where
  abbrev pub new_otp : M String
  new_otp d = ok (env.random_otp d.ticks, record d { ticks = d.ticks + 1 })

  -- `mark_ready` of order_flow.py
  unfoldable pub mark_ready : Option ℕ → ℕ → M (Unit {0})
  mark_ready owned_shop order_id = do
    shop_id ← or_raise owned_shop runtime_error
    found ← gets (λ d. first (λ o. o.id == order_id && key_is o.shop_id shop_id) d.tables.orders)
    order ← or_raise found (http_exception 404)
    otp ← new_otp
    save_order (record order { status = broadcasting; delivery_otp = some otp })

-- `accept_task` of order_flow.py
unfoldable pub accept_task : Option ℕ → ℕ → M (Unit {0})
accept_task rider_profile order_id = do
  found ← gets (λ d. first (λ o. o.id == order_id && is_broadcasting o.status) d.tables.orders)
  order ← or_raise found (http_exception 400)
  profile ← or_raise rider_profile runtime_error
  save_order (record order { status = rider_assigned; assigned_rider_id = some profile })

-- The profile of the order's rider, whose user must be the caller.
unfoldable pub check_rider : Order → ℕ → M (Unit {0})
check_rider order user_id = do
  found ← gets (λ d. find_profile order.assigned_rider_id d.tables.rider_profiles)
  rider ← or_raise found runtime_error
  raise_if (not (rider.user_id == user_id)) (http_exception 403)

-- `confirm_pickup` of delivery.py
unfoldable pub confirm_pickup : ℕ → ℕ → M (Unit {0})
confirm_pickup user_id order_id = do
  found ← gets (λ d. find_row order_ids order_id d.tables.orders)
  order ← or_raise found (http_exception 404)
  check_rider order user_id
  raise_if (not (is_rider_assigned order.status)) (http_exception 400)
  save_order (record order { status = out_for_delivery })
  save_parcel order.id picked_up

-- `confirm_delivery` of delivery.py
unfoldable pub confirm_delivery : ℕ → ℕ → String → M (Unit {0})
confirm_delivery user_id order_id otp = do
  found ← gets (λ d. find_row order_ids order_id d.tables.orders)
  order ← or_raise found (http_exception 404)
  check_rider order user_id
  raise_if (not (is_out_for_delivery order.status)) (http_exception 400)
  raise_if (not (otp_is order.delivery_otp otp)) (http_exception 400)
  save_order (record order { status = delivered })
  save_parcel order.id parcel_delivered
  save_free_rider (λ r. r.user_id == user_id)

-- `complete_order` of order_flow.py: `LedgerService.record_transaction` does not exist, so the
-- settlement raises and is answered 500.
unfoldable pub complete_order : Option ℕ → ℕ → String → M (Unit {0})
complete_order rider_profile order_id otp = do
  profile ← or_raise rider_profile runtime_error
  found ←
      gets
        (λ d. first (λ o. o.id == order_id && key_is o.assigned_rider_id profile) d.tables.orders)
  order ← or_raise found (http_exception 404)
  raise_if (not (otp_is order.delivery_otp otp)) (http_exception 400)
  raise (http_exception 500)

-- `transfer_order` of rider_transfer_service.py. After the pickup it asks for columns of `OTP` that
-- the model in otp.py does not have, so it raises.
unfoldable pub transfer_order : ℕ → ℕ → Option String → M (Unit {0})
transfer_order rider_id order_id otp_code = do
  found ← gets (λ d. find_row order_ids order_id d.tables.orders)
  order ← or_raise found (http_exception 404)
  raise_if (not (key_is order.assigned_rider_id rider_id)) (http_exception 403)
  raise_if (not (is_rider_assigned order.status || is_out_for_delivery order.status))
      (http_exception 400)
  its_rider ← gets (λ d. first (λ r. r.id == rider_id) d.tables.riders)
  rider ← or_raise its_rider (http_exception 404)
  if is_rider_assigned order.status && (order.transfer_count == 0)
      then save_order (record order {
        assigned_rider_id = none;
        status = broadcasting;
        transfer_count = order.transfer_count + 1;
      })
        >> save_free_rider (λ r. r.id == rider_id)
      else if is_out_for_delivery order.status
      then raise_if (falsy otp_code) (http_exception 400) >> raise runtime_error
      else raise (http_exception 400)
