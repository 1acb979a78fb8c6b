-- ===== src/Ratings.antt =====
-- Ratings: Backend/app/services/rating_service.py. Ids are not negative.
pub mod Outcomes
pub mod Totals
use apna_mandla.Prelude.{
  ℕ, ◌+◌, Bool, true, false, not, ◌&&◌, Option, none, some, List, [], ◌∷◌, ◌==◌, if◌then◌else◌,
  first, keep_if, is_some,
}
use apna_mandla.Prelude.Int.{ℤ, pos, ◌+ℤ◌, ◌*ℤ◌, leb_ℤ, eqb_ℤ}
use apna_mandla.Money.{Decimal}
use apna_mandla.Table.{find_row}
use apna_mandla.Schema.{
  Db, Order, OrderStatus, delivered, Shop, Rating, OrderItem, TargetType, target_shop, target_rider,
  target_customer,
}
use apna_mandla.Session.{
  M, ok, ◌>>=◌, ◌>>◌, pure, raise, raise_if, or_raise, if_found, gets, http_exception,
  integrity_error,
}
use apna_mandla.Orders.{order_ids, find_shop, key_is}

abbrev pub is_delivered : OrderStatus → Bool
is_delivered delivered = true
is_delivered _ = false

abbrev pub same_type : TargetType → TargetType → Bool
same_type target_shop target_shop = true
same_type target_rider target_rider = true
same_type target_customer target_customer = true
same_type _ _ = false

abbrev pub one_to_five : ℤ → Bool
one_to_five v = leb_ℤ (pos 1) v && leb_ℤ v (pos 5)

-- The columns of the constraint `unique_order_rating_per_type`.
abbrev pub same_subject : ℕ → ℕ → TargetType → Rating → Bool
same_subject order_id user_id target_type r =
    r.order_id == order_id && (r.user_id == user_id && same_type r.target_type target_type)

-- A shop that is not the order's own must have one of its items.
unfoldable pub check_item : ℕ → ℕ → M (Unit {0})
check_item order_id shop_id = do
  item ←
      gets
        (λ d. first (λ i. i.order_id == order_id && key_is i.shop_id shop_id) d.tables.order_items)
  raise_if (not (is_some item)) (http_exception 400)

-- May the actor rate this target of the order?
unfoldable pub check_target : Order → ℕ → TargetType → ℕ → M (Unit {0})
check_target order actor target_shop target_id = do
  raise_if (not (actor == order.customer_id)) (http_exception 403)
  if key_is order.shop_id target_id then pure tt else check_item order.id target_id
check_target order actor target_rider target_id = do
  raise_if (not (actor == order.customer_id)) (http_exception 403)
  raise_if (not (is_some order.assigned_rider_id)) (http_exception 400)
  raise_if (not (key_is order.assigned_rider_id target_id)) (http_exception 400)
check_target order actor target_customer target_id = do
  shop ← gets (λ d. find_shop order.shop_id d.tables.shops)
  raise_if (not (elim shop [ none ↦ Bool.false | some s ↦ actor == s.user_id ]))
      (http_exception 403)
  raise_if (not (order.customer_id == target_id)) (http_exception 400)

-- `db.add(new_rating); db.commit()` under the constraints of the table.
unfoldable pub insert_rating : ℕ → ℕ → ℕ → TargetType → ℤ → M Rating
insert_rating order_id user_id target_id target_type value = do
  clash ← gets (λ d. first (same_subject order_id user_id target_type) d.tables.ratings)
  raise_if (is_some clash) integrity_error
  raise_if (not (one_to_five value)) integrity_error
  λ d.
      let row : Rating = record {
        id = d.tables.next_rating_id;
        order_id = order_id;
        user_id = user_id;
        target_id = target_id;
        target_type = target_type;
        rating = value;
      } in
      ok (
        row,
        record d {
          tables = record d.tables {
            ratings = row ∷ d.tables.ratings;
            next_rating_id = d.tables.next_rating_id + 1;
          };
        },
      )

unfoldable pub create_rating : ℕ → ℕ → ℤ → TargetType → ℕ → M Rating
create_rating order_id actor rating_value target_type target_id = do
  raise_if (not (one_to_five rating_value)) (http_exception 400)
  found ← gets (λ d. find_row order_ids order_id d.tables.orders)
  order ← or_raise found (http_exception 404)
  raise_if (not (is_delivered order.status)) (http_exception 400)
  check_target order actor target_type target_id
  existing ← gets (λ d.
      first (λ r. same_subject order_id actor target_type r && r.target_id == target_id)
        d.tables.ratings)
  raise_if (is_some existing) (http_exception 400)
  insert_rating order_id actor target_id target_type rating_value

-- A group of `GROUP BY rating`: a rating and how many rows have it.
unfoldable pub add_to_groups : ℤ → List (ℤ × ℕ) → List (ℤ × ℕ)
add_to_groups v [] = (v, 1) ∷ []
add_to_groups v ((w, n) ∷ gs) =
    let rest = add_to_groups v gs in if eqb_ℤ v w then (w, n + 1) ∷ gs else (w, n) ∷ rest

unfoldable pub group_by_rating : List Rating → List (ℤ × ℕ)
group_by_rating [] = []
group_by_rating (r ∷ rs) = add_to_groups r.rating (group_by_rating rs)

-- `dist[str(score)] = count`
unfoldable pub set_count : ℤ → ℕ → List (ℤ × ℕ) → List (ℤ × ℕ)
set_count v n [] = (v, n) ∷ []
set_count v n ((w, m) ∷ ds) =
    let rest = set_count v n ds in if eqb_ℤ v w then (w, n) ∷ ds else (w, m) ∷ rest

pub record Summary : Type 0 where
  pub total_count : ℕ
  pub total_sum : ℤ
  pub distribution : List (ℤ × ℕ)

unfoldable pub summarise : List (ℤ × ℕ) → Summary → Summary
summarise [] s = s
summarise ((score, count) ∷ results) s = summarise results (record {
  total_count = s.total_count + count;
  total_sum = s.total_sum +ℤ score *ℤ pos count;
  distribution = set_count score count s.distribution;
})

abbrev pub no_ratings : Summary
no_ratings = record {
  total_count = 0;
  total_sum = pos 0;
  distribution = (pos 1, 0) ∷ (pos 2, 0) ∷ (pos 3, 0) ∷ (pos 4, 0) ∷ (pos 5, 0) ∷ [];
}

-- The average is the quotient of the sum by the count, as the float division rounds it.
unfoldable pub get_rating_summary : ℕ → TargetType → List Rating → Summary
get_rating_summary target_id target_type rows =
    summarise
      (group_by_rating
        (keep_if (λ r. r.target_id == target_id && same_type r.target_type target_type) rows))
      no_ratings
