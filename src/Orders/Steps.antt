-- ===== src/Orders/Steps.antt =====
-- The calls that write orders, and what each does to them.
use apna_mandla.Prelude.{ℕ, ◌≡◌, ◌⊎◌, String, Bool, Option, inl, inr}
use apna_mandla.Table.{Distinct}
use apna_mandla.Schema.{Db, Order}
use apna_mandla.Env.{Env}
use apna_mandla.Session.{ok}
use apna_mandla.Ledger.{Split}
use apna_mandla.Orders.{
  order_ids, mark_ready, accept_task, confirm_pickup, confirm_delivery, complete_order,
  transfer_order, start_broadcast, accept_order, expand_round, pay_for_order, payment_success,
  payment_failed, refund_payment, complete_delivery, rider_pickup_proof, rider_complete_order,
  force_cancel, force_assign_rider, update_order_status, DeliveryType, an_order, a_parcel,
  other_type, accept_delivery,
}
use apna_mandla.Orders.OverridesSaved.{
  Reassigned, complete_delivery_fails, force_assign_fails, rider_complete_fails,
  update_status_fails, accept_order_delivery-Saved, accept_parcel-Reassigned, accept_other_fails,
  rider_pickup_proof-Saved, force_cancel-Saved,
}
use apna_mandla.Orders.Saved.{
  Saved, Manned, mark_ready-Saved, accept_task-Saved, confirm_pickup-Saved, complete_order_fails,
  transfer_order-Saved, start_broadcast-Saved, accept_order-Saved, expand_round-Saved,
}
use apna_mandla.Orders.PaymentSaved.{
  pay_for_order-Saved, payment_success-Saved, payment_failed-Saved, refund_payment-Saved,
}

-- The ids of orders are distinct, and an order that is on its way has a rider.
pub record IsSound (d : Db) : Type 0 where
  pub distinct : Distinct order_ids d.tables.orders
  pub manned : Manned d.tables.orders

module _ (env : Env) where
  -- A call of the services or the routes on orders; `elsewhere` is any that leaves the orders alone.
  -- Not among them are `create_order` of order.py, which raises, and the routes of shop_order.py,
  -- which write texts that are no `OrderStatus`.
  pub data Step : Db → Db → Type 0 where
    pay_step :
        (u i : ℕ) (key : Option String) (x : Split) (d d' : Db)
        → pay_for_order env u i key d ≡ ok (x, d')
        → Step d d'
    success_step :
        (u p x : ℕ) (t : String) (d d' : Db) → payment_success env u p t d ≡ ok (x, d') → Step d d'
    failed_step :
        (u p x : ℕ) (reason : Option String) (d d' : Db)
        → payment_failed env u p reason d ≡ ok (x, d')
        → Step d d'
    refund_step : (p x : ℕ) (d d' : Db) → refund_payment env p d ≡ ok (x, d') → Step d d'
    ready_step :
        (shop : Option ℕ) (i : ℕ) (d d' : Db) → mark_ready env shop i d ≡ ok (tt, d') → Step d d'
    broadcast_step :
        (i : ℕ) (x : Order) (d d' : Db) → start_broadcast env i d ≡ ok (x, d') → Step d d'
    widen_step : (i : ℕ) (d : Db) → Step d (expand_round i d).1
    accept_step :
        (rider i : ℕ) (x : Bool) (d d' : Db) → accept_order env rider i d ≡ ok (x, d') → Step d d'
    task_step :
        (profile : Option ℕ) (i : ℕ) (d d' : Db) → accept_task profile i d ≡ ok (tt, d') → Step d d'
    pickup_step : (u i : ℕ) (d d' : Db) → confirm_pickup u i d ≡ ok (tt, d') → Step d d'
    deliver_step :
        (u i : ℕ) (otp : String) (d d' : Db) → confirm_delivery u i otp d ≡ ok (tt, d') → Step d d'
    complete_step :
        (profile : Option ℕ) (i : ℕ) (otp : String) (x : Unit {0}) (d d' : Db)
        → complete_order profile i otp d ≡ ok (x, d')
        → Step d d'
    transfer_step :
        (rider i : ℕ) (otp : Option String) (d d' : Db)
        → transfer_order rider i otp d ≡ ok (tt, d')
        → Step d d'
    proof_step : (u i : ℕ) (d d' : Db) → rider_pickup_proof env u i d ≡ ok (tt, d') → Step d d'
    proven_step :
        (u i : ℕ) (otp : String) (d d' : Db) → complete_delivery u i otp d ≡ ok (tt, d') → Step d d'
    rider_step :
        (rider i : ℕ) (d d' : Db) → rider_complete_order rider i d ≡ ok (tt, d') → Step d d'
    cancel_step : (i : ℕ) (d d' : Db) → force_cancel env i d ≡ ok (tt, d') → Step d d'
    assign_step : (i rider : ℕ) (d d' : Db) → force_assign_rider i rider d ≡ ok (tt, d') → Step d d'
    status_step : (i : ℕ) (d d' : Db) → update_order_status i d ≡ ok (tt, d') → Step d d'
    dispatch_step :
        (begun : Bool) (profile : Option ℕ) (type : DeliveryType) (i : ℕ) (d d' : Db)
        → accept_delivery begun profile type i d ≡ ok (tt, d')
        → Step d d'
    elsewhere : (d d' : Db) → d'.tables.orders ≡ d.tables.orders → Step d d'

  pub data Steps (start : Db) : Db → Type 0 where
    no_step : Steps start start
    one_more : {d d' : Db} → Steps start d → Step d d' → Steps start d'

-- What a call does: nothing to the orders, one change that delivers nothing, another rider for an
-- order, or a delivery.
pub data Effect (d d' : Db) : Type 0 where
  none_changed : d'.tables.orders ≡ d.tables.orders → Effect d d'
  one_saved : Saved d d' → Effect d d'
  one_reassigned : Reassigned d d' → Effect d d'
  one_delivered : (u i : ℕ) (otp : String) → confirm_delivery u i otp d ≡ ok (tt, d') → Effect d d'

Effect-of : {d d' : Db} → (d'.tables.orders ≡ d.tables.orders) ⊎ Saved d d' → Effect d d'
Effect-of (inl same) = none_changed same
Effect-of (inr saved) = one_saved saved

Effect-parcel : {d d' : Db} → (d'.tables.orders ≡ d.tables.orders) ⊎ Reassigned d d' → Effect d d'
Effect-parcel (inl same) = none_changed same
Effect-parcel (inr r) = one_reassigned r

module _ (env : Env) where
  pub effect : {d d' : Db} → Distinct order_ids d.tables.orders → Step env d d' → Effect d d'
  effect dis (pay_step u i key x d d' h) = one_saved (pay_for_order-Saved env d d' u i key x dis h)
  effect dis (success_step u p x t d d' h) = Effect-of (payment_success-Saved env d d' u p t x h)
  effect dis (failed_step u p x reason d d' h) =
      Effect-of (payment_failed-Saved env d d' u p reason x h)
  effect dis (refund_step p x d d' h) = one_saved (refund_payment-Saved env d d' p x h)
  effect dis (ready_step shop i d d' h) = one_saved (mark_ready-Saved env d d' shop i h)
  effect dis (broadcast_step i x d d' h) = one_saved (start_broadcast-Saved env d d' i x h)
  effect dis (widen_step i d) = Effect-of (expand_round-Saved i d)
  effect dis (accept_step rider i x d d' h) = one_saved (accept_order-Saved env d d' rider i x h).1
  effect dis (task_step profile i d d' h) = one_saved (accept_task-Saved d d' profile i h)
  effect dis (pickup_step u i d d' h) = one_saved (confirm_pickup-Saved d d' u i h)
  effect dis (deliver_step u i otp d d' h) = one_delivered u i otp h
  effect dis (complete_step profile i otp x d d' h) =
      absurd (complete_order_fails d d' profile i otp x h)
  effect dis (transfer_step rider i otp d d' h) =
      one_saved (transfer_order-Saved d d' rider i otp h)
  effect dis (proof_step u i d d' h) = one_saved (rider_pickup_proof-Saved env d d' u i h)
  effect dis (proven_step u i otp d d' h) = absurd (complete_delivery_fails d d' u i otp h)
  effect dis (rider_step rider i d d' h) = absurd (rider_complete_fails d d' rider i h)
  effect dis (cancel_step i d d' h) = one_saved (force_cancel-Saved env d d' i h)
  effect dis (assign_step i rider d d' h) = absurd (force_assign_fails d d' i rider h)
  effect dis (status_step i d d' h) = absurd (update_status_fails d d' i h)
  effect dis (dispatch_step begun profile an_order i d d' h) =
      one_saved (accept_order_delivery-Saved d d' begun profile i h)
  effect dis (dispatch_step begun profile a_parcel i d d' h) =
      Effect-parcel (accept_parcel-Reassigned d d' begun profile i h)
  effect dis (dispatch_step begun profile other_type i d d' h) =
      absurd (accept_other_fails d d' begun profile i h)
  effect dis (elsewhere d d' same) = none_changed same
