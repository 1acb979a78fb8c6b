-- ===== src/Orders/Broadcast.antt =====
-- The search for a rider: broadcast_service.py and rider_assignment_service.py of
-- Backend/app/services. A time is in microseconds.
use apna_mandla.Prelude.{
  ℕ, ◌+◌, ◌*◌, Bool, true, false, not, ◌&&◌, Option, none, some, ltb, leb, if◌then◌else◌, zero, suc,
  is_some,
}
use apna_mandla.Schema.{Db, Order, broadcasting, ready_for_pickup}
use apna_mandla.Env.{Env}
use apna_mandla.Session.{
  M, ok, err, ◌>>=◌, ◌>>◌, pure, raise, raise_if, or_raise, gets, now, http_exception,
  runtime_error,
}
use apna_mandla.Orders.Rows.{
  order_ids, is_broadcasting, is_ready_for_pickup, find_shop, find_profile, save_order,
}
use apna_mandla.Table.{find_row}

abbrev pub broadcast_window_seconds : ℕ
broadcast_window_seconds = 30

abbrev pub max_radius_km : ℕ
max_radius_km = 20

-- `order.broadcast_deadline and datetime.utcnow() > order.broadcast_deadline`
abbrev pub past : Option ℕ → ℕ → Bool
past none time = false
past (some deadline) time = ltb deadline time

abbrev pub given_up : Order → Order
given_up o = record o { status = ready_for_pickup; broadcast_deadline = none }

module _ (env : Env) where
  -- `start_broadcast` of broadcast_service.py
  unfoldable pub start_broadcast : ℕ → M Order
  start_broadcast order_id = do
    found ← gets (λ d. find_row order_ids order_id d.tables.orders)
    order ← or_raise found (http_exception 404)
    raise_if (not (is_ready_for_pickup order.status)) (http_exception 400)
    time ← now env
    let started = record order {
      status = broadcasting;
      broadcast_deadline = some (time + broadcast_window_seconds * 1_000_000);
    }
    save_order started
    pure started

  unfoldable pub expire_broadcast_if_needed : Order → M (Unit {0})
  expire_broadcast_if_needed order = do
    time ← now env
    if is_broadcasting order.status && past order.broadcast_deadline time
        then save_order (given_up order)
        else pure tt

  -- `accept_order` of rider_assignment_service.py. A broadcast that has expired is closed and
  -- committed before the answer 400, which is `false` here. `RiderProfile` has no `blacklisted`,
  -- so the call raises for a rider who is found.
  unfoldable pub accept_order : ℕ → ℕ → M Bool
  accept_order rider_id order_id = do
    found ← gets (λ d. find_row order_ids order_id d.tables.orders)
    order ← or_raise found (http_exception 404)
    time ← now env
    if is_broadcasting order.status && past order.broadcast_deadline time
        then save_order (given_up order) >> pure false
        else do
          raise_if (is_some order.assigned_rider_id) (http_exception 400)
          raise_if (not (is_broadcasting order.status)) (http_exception 400)
          profile ← gets (λ d. find_profile (some rider_id) d.tables.rider_profiles)
          rider ← or_raise profile (http_exception 404)
          raise runtime_error

-- `_notify_riders_in_radius`: a shop without a profile notifies nobody; `ShopProfile` has no
-- `latitude`, so the call raises for a shop that has one.
unfoldable pub notify_riders_in_radius : Order → M (Unit {0})
notify_riders_in_radius order = do
  found ← gets (λ d. find_shop order.shop_id d.tables.shops)
  shop ← or_raise found runtime_error
  raise_if shop.has_profile runtime_error

-- One round of `expand_radius_and_notify`, after its minute of sleep: whether the loop goes on, and
-- the committed state.
unfoldable pub expand_round : ℕ → Db → Bool × Db
expand_round order_id d = elim (find_row order_ids order_id d.tables.orders) [
  | none ↦ (false, d)
  | some order ↦
      if not (is_broadcasting order.status)
      then (false, d)
      else if leb max_radius_km order.broadcast_radius
      then (elim (save_order (given_up order) d) [ ok r ↦ (false, r.1) | err e ↦ (false, d) ])
      else let wider = record order { broadcast_radius = order.broadcast_radius + 2 } in
        elim (save_order wider d) [
          | err e ↦ (false, d)
          | ok r ↦ elim (notify_riders_in_radius wider r.1) [
            | ok _ ↦ (true, r.1)
            | err e ↦ (false, r.1)
          ]
        ]
]

-- The loop, with what others commit while it sleeps; `fuel` bounds the rounds.
unfoldable pub expand_radius_and_notify : (ℕ → Db → Db) → ℕ → ℕ → Db → Bool × Db
expand_radius_and_notify others zero order_id d = (true, d)
expand_radius_and_notify others (suc fuel) order_id d =
    let (goes_on, d') = expand_round order_id (others fuel d) in
    let rest = expand_radius_and_notify others fuel order_id d' in
    if goes_on then rest else (false, d')
