-- ===== src/Orders/Search.antt =====
-- The loop that widens the search for a rider, `expand_radius_and_notify` of
-- rider_assignment_service.py.
use apna_mandla.Prelude.{
  ℕ, ◌+◌, ◌*◌, ◌≤◌, ◌<◌, ◌≡◌, refl, true, false, Bool, some, arith, inl, inr, Option-cases,
  Bool-cases, ap, zero, suc,
}
use apna_mandla.Table.{updated}
use apna_mandla.Schema.{Db, Order, Shop, broadcasting}
use apna_mandla.Orders.{
  order, order_ids, find_shop, is_broadcasting, save_order, max_radius_km, expand_round,
  expand_radius_and_notify,
}

module _ (i : ℕ) (d d' : Db) where
  -- A round after which the loop goes on has widened the radius of the order by two kilometres.
  record Widened (o : Order) : Type 0 where
    found : order i d ≡ some o
    searching : is_broadcasting o.status ≡ true
    small : o.broadcast_radius < max_radius_km
    now_wider : order i d' ≡ some (record o { broadcast_radius = o.broadcast_radius + 2 })

  widened : expand_round i d ≡ (true, d') → (o : Order) × Widened o
  unfolding expand_round save_order
  widened h = elim (Option-cases (order i d)) [
    | inl absent ↦ absurd (ground arith)
    | inr (o, found) ↦ (
      o,
      let wider = record o { broadcast_radius = o.broadcast_radius + 2 } in
          record {
            found = found;
            searching = ground arith;
            small = ground arith;
            now_wider =
                (updated order_ids i o wider d.tables.orders d'.tables.orders found refl
                  (ground arith)).now_found;
          },
    )
  ]

-- Others may commit what they like while the loop sleeps, but a search that is on was on before,
-- with no larger radius.
abbrev pub Steady : ℕ → (ℕ → Db → Db) → Type 0
Steady i others =
    (n : ℕ) (d : Db) (o : Order)
    → order i (others n d) ≡ some o
    → is_broadcasting o.status ≡ true
    → (b : Order) × (order i d ≡ some b) × (b.broadcast_radius ≤ o.broadcast_radius)

pair_eta : {p : Bool × Db} → p.0 ≡ true → p ≡ (true, p.1)
pair_eta {p} h = ap (λ b. (b, p.1)) h

module _ (i : ℕ) (others : ℕ → Db → Db) (steady : Steady i others) where
  reaches :
      (f : ℕ) (d : Db)
      → ((o : Order) → order i d ≡ some o → max_radius_km ≤ o.broadcast_radius + 2 * f)
      → (expand_radius_and_notify others (suc f) i d).0 ≡ false
  unfolding expand_radius_and_notify
  reaches zero d far = elim (Bool-cases (expand_round i (others 0 d)).0) [
    | inr stops ↦ ground arith
    | inl goes ↦
        let (o, w) = widened i (others 0 d) (expand_round i (others 0 d)).1 (pair_eta goes) in
        let (b, before, grew) = steady 0 d o w.found w.searching in
        let low = far b before in absurd (small_radius w.small grew low)
  ]
    where
      small_radius : {a b : ℕ} → a < 20 → b ≤ a → 20 ≤ b + 2 * 0 → ⊥
      small_radius p q r = omega arith
  reaches (suc f) d far = elim (Bool-cases (expand_round i (others (suc f) d)).0) [
    | inr stops ↦ ground arith
    | inl goes ↦
        let d' = (expand_round i (others (suc f) d)).1 in
        let (o, w) = widened i (others (suc f) d) d' (pair_eta goes) in
        let (b, before, grew) = steady (suc f) d o w.found w.searching in
        let low = far b before in
        ground (arith, reaches f d' (λ x h. wide_radius o b x grew low (cc (w.now_wider, h))))
  ]
    where
      wide_radius :
          (o b x : Order)
          → b.broadcast_radius ≤ o.broadcast_radius
          → 20 ≤ b.broadcast_radius + 2 * suc f
          → some x ≡ some (record o { broadcast_radius = o.broadcast_radius + 2 })
          → 20 ≤ x.broadcast_radius + 2 * f
      wide_radius o b x p q r = ground arith

from_two : {r : ℕ} → 2 ≤ r → 20 ≤ r + 2 * 9
from_two p = omega arith

-- The loop that widens the search for a rider ends within ten rounds, if the radius of the order
-- is two kilometres at least and what others commit between the rounds neither starts the search
-- nor lowers its radius.
pub expand_radius_and_notify-stops :
    (i : ℕ) (others : ℕ → Db → Db) (d : Db)
    → Steady i others
    → ((o : Order) → order i d ≡ some o → 2 ≤ o.broadcast_radius)
    → (expand_radius_and_notify others 10 i d).0 ≡ false
expand_radius_and_notify-stops i others d steady wide =
    reaches i others steady 9 d (λ o h. from_two (wide o h))

-- An order that is searched for, of a shop with a profile.
pub record Searched (i : ℕ) (d : Db) (o : Order) (s : Shop) : Type 0 where
  pub found : order i d ≡ some o
  pub searching : o.status ≡ broadcasting
  pub shop : find_shop o.shop_id d.tables.shops ≡ some s
  pub profile : s.has_profile ≡ true
