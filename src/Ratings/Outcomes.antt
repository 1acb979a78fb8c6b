-- ===== src/Ratings/Outcomes.antt =====
-- What a rating needs and changes: `create_rating` of Backend/app/services/rating_service.py.
use apna_mandla.Prelude.{
  ℕ, ◌+◌, ◌≡◌, ◌≢◌, refl, Bool, true, ◌&&◌, none, some, List, [], ◌∷◌, arith, inl, inr, ◌==◌,
  Option-cases, Bool-cases, first, ap, is_some, ◌++◌, ==_refl, sym, ◌∙◌,
}
use apna_mandla.Prelude.Int.{ℤ, pos, ◌≤ℤ◌}
use apna_mandla.Table.{find_row}
use apna_mandla.Schema.{
  Db, Order, Shop, delivered, Rating, TargetType, target_shop, target_rider, target_customer,
}
use apna_mandla.Session.{ok, Result-cases}
use apna_mandla.Orders.{order_ids, find_shop, key_is}
use apna_mandla.Ratings.{
  same_type, same_subject, check_target, check_item, insert_rating, create_rating,
}

-- Who may rate what of an order.
pub data May (d : Db) (o : Order) (actor target : ℕ) : TargetType → Type 0 where
  its_shop :
      actor ≡ o.customer_id → key_is o.shop_id target ≡ true → May d o actor target target_shop
  item_shop :
      actor ≡ o.customer_id
      → is_some (first (λ i. i.order_id == o.id && key_is i.shop_id target) d.tables.order_items)
        ≡ true
      → May d o actor target target_shop
  its_rider :
      actor ≡ o.customer_id
      → key_is o.assigned_rider_id target ≡ true
      → May d o actor target target_rider
  its_customer :
      (s : Shop)
      → find_shop o.shop_id d.tables.shops ≡ some s
      → actor ≡ s.user_id
      → target ≡ o.customer_id
      → May d o actor target target_customer

check_target-May :
    (d : Db) (o : Order) (actor target : ℕ) (t : TargetType) (d' : Db)
    → check_target o actor t target d ≡ ok (tt, d')
    → (d' ≡ d) × May d o actor target t
unfolding check_target check_item
check_target-May d o actor target target_shop d' h = elim (Bool-cases (key_is o.shop_id target)) [
  | inl own ↦ (ground arith, its_shop (ground arith) own)
  | inr other ↦ (ground arith, item_shop (ground arith) (ground arith))
]
check_target-May d o actor target target_rider d' h =
    (ground arith, its_rider (ground arith) (ground arith))
check_target-May d o actor target target_customer d' h =
    elim (Option-cases (find_shop o.shop_id d.tables.shops)) [
      | inl no_shop ↦ absurd (ground arith)
      | inr (s, shop) ↦ (ground arith, its_customer s shop (ground arith) (ground arith))
    ]

-- Ratings are from one to five, and no user rates two targets of one kind for one order.
unfoldable pub Fair : List Rating → Type 0
Fair [] = Unit
Fair (r ∷ rs) =
    (pos 1 ≤ℤ r.rating)
    × (r.rating ≤ℤ pos 5)
    × (first (same_subject r.order_id r.user_id r.target_type) rs ≡ none)
    × Fair rs

-- What a call that returned has found and changed.
pub record Rated (order_id actor : ℕ) (value : ℤ) (t : TargetType) (target : ℕ) (r : Rating)
    (d d' : Db) : Type 0 where
  pub its_order : Order
  pub found : find_row order_ids order_id d.tables.orders ≡ some its_order
  pub after_delivery : its_order.status ≡ delivered
  pub may : May d its_order actor target t
  pub at_least : pos 1 ≤ℤ value
  pub at_most : value ≤ℤ pos 5
  pub first_one : first (same_subject order_id actor t) d.tables.ratings ≡ none
  pub row : r ≡ record {
    id = d.tables.next_rating_id;
    order_id = order_id;
    user_id = actor;
    target_id = target;
    target_type = t;
    rating = value;
  }
  pub after : d' ≡ record d {
    tables = record d.tables {
      ratings = r ∷ d.tables.ratings;
      next_rating_id = d.tables.next_rating_id + 1;
    };
  }

module _ (order_id actor : ℕ) (value : ℤ) (t : TargetType) (target : ℕ) (d : Db) (r : Rating)
    (d' : Db) where
  -- A rating that is created is from one to five, of an order that was delivered, by somebody who
  -- may rate the target: the order's customer its shop, a shop of one of its items or its rider,
  -- or the shop's owner its customer; it is the user's first one for this order and kind of
  -- target, and is the only change of the state.
  pub create_rating_lem :
      create_rating order_id actor value t target d ≡ ok (r, d')
      → Rated order_id actor value t target r d d'
  unfolding create_rating insert_rating
  create_rating_lem h = elim (Option-cases (find_row order_ids order_id d.tables.orders)) [
    | inl absent ↦ absurd (ground arith)
    | inr (o, found) ↦ elim (Result-cases (check_target o actor t target d)) [
      | inl (x, failed) ↦ absurd (ground arith)
      | inr (_, e, passed) ↦
          let (same, may) = check_target-May d o actor target t e passed in
          elim (Option-cases (first (same_subject order_id actor t) d.tables.ratings)) [
            | inr (clash, there) ↦ absurd (ground (arith, same))
            | inl fresh ↦ record {
              its_order = o;
              found = found;
              after_delivery = ground (arith, same);
              may = may;
              at_least = ground (arith, same);
              at_most = ground (arith, same);
              first_one = fresh;
              row = ground (arith, same);
              after = ground (arith, same);
            }
          ]
    ]
  ]

  pub create_rating-Fair :
      Fair d.tables.ratings
      → create_rating order_id actor value t target d ≡ ok (r, d')
      → Fair d'.tables.ratings
  unfolding Fair
  create_rating-Fair fair h =
      let w = create_rating_lem h in
      let rows : d'.tables.ratings ≡ r ∷ d.tables.ratings = ap (λ x. x.tables.ratings) w.after in
      rw (rows, w.row) (w.at_least, w.at_most, w.first_one, fair)

same_type_refl : (t : TargetType) → same_type t t ≡ true
same_type_refl target_shop = refl
same_type_refl target_rider = refl
same_type_refl target_customer = refl

first-behind :
    (p : Rating → Bool) (newer : List Rating) (r : Rating) (older : List Rating)
    → p r ≡ true
    → first p (newer ++ (r ∷ older)) ≢ none
first-behind p [] r older passes h = absurd (ground arith)
first-behind p (x ∷ xs) r older passes h = ground (arith, first-behind p xs r older passes)

-- After a rating was created, and whatever ratings were added since, no other one by the same user
-- for the same order and kind of target is created, whatever its value and target.
pub create_rating_once :
    (order_id actor : ℕ) (value other : ℤ) (t : TargetType) (target target' : ℕ)
    (d d' later d'' : Db) (r q : Rating) (newer : List Rating)
    → create_rating order_id actor value t target d ≡ ok (r, d')
    → later.tables.ratings ≡ newer ++ d'.tables.ratings
    → create_rating order_id actor other t target' later ≢ ok (q, d'')
create_rating_once order_id actor value other t target target' d d' later d'' r q newer h since
      again =
    let w = create_rating_lem order_id actor value t target d r d' h in
    let v = create_rating_lem order_id actor other t target' later q d'' again in
    let rows : d'.tables.ratings ≡ r ∷ d.tables.ratings = ap (λ x. x.tables.ratings) w.after in
    let own : same_subject order_id actor t r ≡ true =
      rw w.row (ground (arith, ==_refl order_id, ==_refl actor, same_type_refl t)) in
    let all : later.tables.ratings ≡ newer ++ (r ∷ d.tables.ratings) =
      since ∙ ap (λ x. newer ++ x) rows in
    first-behind (same_subject order_id actor t) newer r d.tables.ratings own
      (ap (first (same_subject order_id actor t)) (sym all) ∙ v.first_one)
