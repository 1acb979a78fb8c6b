-- ===== src/Ratings/Totals.antt =====
-- The summary of ratings against a count of the rows: `get_rating_summary` of
-- Backend/app/services/rating_service.py.
use apna_mandla.Prelude.{
  ℕ, suc, ◌+◌, ◌*◌, ◌≡◌, refl, true, Option, none, some, List, [], ◌∷◌, arith, inl, inr, ◌==◌,
  Bool-cases, if◌then◌else◌, keep_if, length, ◌&&◌, ap, ◌∙◌, get_or,
}
use apna_mandla.Prelude.Int.{
  ℤ, pos, negsuc, ◌+ℤ◌, ◌*ℤ◌, eqb_ℤ, int_laws, +ℤ_parts, eq_of_parts, pos_part, neg_part,
}
use apna_mandla.Schema.{Rating, TargetType}
use apna_mandla.Ratings.{
  add_to_groups, group_by_rating, set_count, summarise, no_ratings, get_rating_summary, Summary,
  same_type,
}

eqb→eq : (a b : ℤ) → eqb_ℤ a b ≡ true → a ≡ b
eqb→eq a b h = eq_of_parts a b (ground arith)

eqb_refl : (a : ℤ) → eqb_ℤ a a ≡ true
eqb_refl a = ground arith

-- How many of the rows have a rating, and the sum of the ratings.
unfoldable pub count : ℤ → List Rating → ℕ
count v [] = 0
count v (r ∷ rs) = if eqb_ℤ r.rating v then count v rs + 1 else count v rs

unfoldable pub sum : List Rating → ℤ
sum [] = pos 0
sum (r ∷ rs) = r.rating +ℤ sum rs

unfoldable pub get : ℤ → List (ℤ × ℕ) → Option ℕ
get v [] = none
get v ((w, n) ∷ gs) = let rest = get v gs in if eqb_ℤ v w then some n else rest

get-add :
    (u v : ℤ) (gs : List (ℤ × ℕ))
    → get u (add_to_groups v gs) ≡ (if eqb_ℤ u v then some (get_or (get u gs) 0 + 1) else get u gs)
unfolding get add_to_groups
get-add u v [] = ground arith
get-add u v ((w, n) ∷ gs) = ground (arith, get-add u v gs)

get-set :
    (u v : ℤ) (n : ℕ) (ds : List (ℤ × ℕ))
    → get u (set_count v n ds) ≡ (if eqb_ℤ u v then some n else get u ds)
unfolding get set_count
get-set u v n [] = ground arith
get-set u v n ((w, m) ∷ ds) = ground (arith, get-set u v n ds)

get-group :
    (v : ℤ) (rows : List Rating)
    → get v (group_by_rating rows) ≡ (if count v rows == 0 then none else some (count v rows))
unfolding get group_by_rating count
get-group v [] = refl
get-group v (r ∷ rs) = get-add v r.rating (group_by_rating rs) ∙ ground (arith, get-group v rs)

-- No rating has two groups.
Keys : List (ℤ × ℕ) → Type 0
Keys [] = Unit
Keys ((w, n) ∷ gs) = (get w gs ≡ none) × Keys gs

add-Keys : (v : ℤ) (gs : List (ℤ × ℕ)) → Keys gs → Keys (add_to_groups v gs)
unfolding Keys add_to_groups get
add-Keys v [] keys = (refl, tt)
add-Keys v ((w, n) ∷ gs) (new, keys) = elim (Bool-cases (eqb_ℤ v w)) [
  | inl same ↦ rw same (new, keys)
  | inr other ↦ rw other (get-add w v gs ∙ ground (arith, new), add-Keys v gs keys)
]

group-Keys : (rows : List Rating) → Keys (group_by_rating rows)
unfolding Keys group_by_rating
group-Keys [] = tt
group-Keys (r ∷ rs) = add-Keys r.rating (group_by_rating rs) (group-Keys rs)

summarise-get :
    (v : ℤ) (gs : List (ℤ × ℕ)) (s : Summary)
    → Keys gs
    → get v (summarise gs s).distribution
      ≡ (elim (get v gs) [ none ↦ get v s.distribution | some n ↦ some n ])
unfolding Keys summarise get
summarise-get v [] s keys = refl
summarise-get v ((w, n) ∷ gs) s (new, keys) = elim (Bool-cases (eqb_ℤ v w)) [
  | inl same ↦
      let none_left : get v gs ≡ none = ap (λ x. get x gs) (eqb→eq v w same) ∙ new in
      summarise-get v gs _ keys ∙ ground (arith, none_left, get-set v w n s.distribution)
  | inr other ↦ summarise-get v gs _ keys ∙ ground (arith, get-set v w n s.distribution)
]

weight : List (ℤ × ℕ) → ℕ
weight [] = 0
weight ((w, n) ∷ gs) = n + weight gs

worth : List (ℤ × ℕ) → ℤ
worth [] = pos 0
worth ((w, n) ∷ gs) = w *ℤ pos n +ℤ worth gs

times_pos : (p n : ℕ) → pos p *ℤ pos n ≡ pos (p * n)
unfolding ◌*ℤ◌
times_pos p n = ground arith

times_negsuc : (p n : ℕ) → pos_part (negsuc p *ℤ pos n) + suc p * n ≡ neg_part (negsuc p *ℤ pos n)
unfolding ◌*ℤ◌
times_negsuc p n = ground arith

times_suc : (a n : ℕ) → a * (n + 1) ≡ a + a * n
times_suc a n = grind arith

one_more : (w : ℤ) (n : ℕ) → w *ℤ pos (n + 1) ≡ w +ℤ w *ℤ pos n
one_more (pos p) n = rw (times_pos p (n + 1), times_pos p n, times_suc p n) (omega int_laws)
one_more (negsuc p) n =
    omega
      (arith, +ℤ_parts, eq_of_parts, times_negsuc p (n + 1), times_negsuc p n, times_suc (suc p) n)

times_zero : (w : ℤ) → w *ℤ pos 0 ≡ pos 0
unfolding ◌*ℤ◌
times_zero (pos p) = ground arith
times_zero (negsuc p) = ground arith

weight-add : (v : ℤ) (gs : List (ℤ × ℕ)) → weight (add_to_groups v gs) ≡ weight gs + 1
unfolding weight add_to_groups
weight-add v [] = omega arith
weight-add v ((w, n) ∷ gs) = ground (arith, weight-add v gs)

worth-add : (v : ℤ) (gs : List (ℤ × ℕ)) → worth (add_to_groups v gs) ≡ v +ℤ worth gs
unfolding worth add_to_groups
worth-add v [] = rw (one_more v 0, times_zero v) (omega int_laws)
worth-add v ((w, n) ∷ gs) = elim (Bool-cases (eqb_ℤ v w)) [
  | inl same ↦ rw (same, eqb→eq v w same, one_more w n) (omega int_laws)
  | inr other ↦ rw (other, worth-add v gs) (omega int_laws)
]

group-weight : (rows : List Rating) → weight (group_by_rating rows) ≡ length rows
unfolding group_by_rating weight
group-weight [] = refl
group-weight (r ∷ rs) = weight-add r.rating (group_by_rating rs) ∙ omega (arith, group-weight rs)

group-worth : (rows : List Rating) → worth (group_by_rating rows) ≡ sum rows
unfolding group_by_rating worth sum
group-worth [] = refl
group-worth (r ∷ rs) =
    worth-add r.rating (group_by_rating rs) ∙ ap (λ x. r.rating +ℤ x) (group-worth rs)

summarise-count :
    (gs : List (ℤ × ℕ)) (s : Summary) → (summarise gs s).total_count ≡ s.total_count + weight gs
unfolding summarise weight
summarise-count [] s = omega arith
summarise-count ((w, n) ∷ gs) s = summarise-count gs _ ∙ omega arith

summarise-sum :
    (gs : List (ℤ × ℕ)) (s : Summary) → (summarise gs s).total_sum ≡ s.total_sum +ℤ worth gs
unfolding summarise worth
summarise-sum [] s = omega int_laws
summarise-sum ((w, n) ∷ gs) s = summarise-sum gs _ ∙ omega int_laws

zero_add : (a : ℤ) → pos 0 +ℤ a ≡ a
zero_add a = omega int_laws

none_yet : (v : ℤ) → get_or (get v no_ratings.distribution) 0 ≡ 0
unfolding get
none_yet v = ground arith

abbrev pub of_target : ℕ → TargetType → List Rating → List Rating
of_target target_id target_type =
    keep_if (λ r. r.target_id == target_id && same_type r.target_type target_type)

-- The summary of a target counts its ratings and adds them up, and its distribution has for every
-- number how many ratings have that value.
pub get_rating_summary_lem :
    (target_id : ℕ) (target_type : TargetType) (rows : List Rating) (v : ℤ)
    → (let s : Summary = get_rating_summary target_id target_type rows in
        (s.total_count ≡ length (of_target target_id target_type rows))
        × (s.total_sum ≡ sum (of_target target_id target_type rows))
        × (get_or (get v s.distribution) 0 ≡ count v (of_target target_id target_type rows)))
unfolding get_rating_summary
get_rating_summary_lem target_id target_type rows v =
    let hits = of_target target_id target_type rows in
    let groups = group_by_rating hits in
    (
      summarise-count groups no_ratings ∙ omega (arith, group-weight hits),
      summarise-sum groups no_ratings ∙ zero_add _ ∙ group-worth hits,
      ground (
        arith,
        summarise-get v groups no_ratings (group-Keys hits),
        get-group v hits,
        none_yet v,
      ),
    )
