-- ===== src/Stores/Dict.antt =====
-- A Python dict with text keys: pairs in which a key stands once.
use apna_mandla.Prelude.{
  ◌≡◌, String, Bool, true, false, Option, none, some, List, [], ◌∷◌, if◌then◌else◌, arith, keep_if,
  Bool-cases, inl, inr, ap,
}
use apna_mandla.Prelude.Text.{str_eq, eq_iff, eq_refl}

module _ {A : Type 0} where
  -- `d.get(key)`
  unfoldable pub dict_get : String → List (String × A) → Option A
  dict_get k [] = none
  dict_get k ((x, a) ∷ ds) = let rest = dict_get k ds in if str_eq x k then some a else rest

  -- `d.pop(key, None)`
  unfoldable pub dict_pop : String → List (String × A) → List (String × A)
  dict_pop k [] = []
  dict_pop k ((x, a) ∷ ds) = let rest = dict_pop k ds in if str_eq x k then ds else (x, a) ∷ rest

  -- `d[key] = a`
  unfoldable pub dict_set : String → A → List (String × A) → List (String × A)
  dict_set k a [] = (k, a) ∷ []
  dict_set k a ((x, b) ∷ ds) =
      let rest = dict_set k a ds in if str_eq x k then (k, a) ∷ ds else (x, b) ∷ rest

  unfoldable pub Unique : List (String × A) → Type 0
  Unique [] = Unit
  Unique ((x, a) ∷ ds) = (dict_get x ds ≡ none) × Unique ds

  pub dict_get-set :
      (k : String) (a : A) (ds : List (String × A)) → dict_get k (dict_set k a ds) ≡ some a
  unfolding dict_get dict_set
  dict_get-set k a [] = ground (arith, eq_refl k)
  dict_get-set k a ((x, b) ∷ ds) = ground (arith, eq_refl k, dict_get-set k a ds)

  pub dict_get-set_other :
      (j k : String) (a : A) (ds : List (String × A))
      → str_eq k j ≡ false
      → dict_get j (dict_set k a ds) ≡ dict_get j ds
  unfolding dict_get dict_set
  dict_get-set_other j k a [] ne = ground arith
  dict_get-set_other j k a ((x, b) ∷ ds) ne = elim (Bool-cases (str_eq x k)) [
    | inr other ↦ ground (arith, dict_get-set_other j k a ds ne)
    | inl same ↦ let name : x ≡ k = (eq_iff x k).0 same in ground (arith, ap (λ y. str_eq y j) name)
  ]

  -- Entries that pass a test are found where the others are dropped.
  pub dict_get-keep_if :
      (k : String) (a : A) (p : (String × A) → Bool) (ds : List (String × A))
      → dict_get k ds ≡ some a
      → ((x : String) → p (x, a) ≡ true)
      → dict_get k (keep_if p ds) ≡ some a
  unfolding dict_get
  dict_get-keep_if k a p [] h all = absurd (cc h)
  dict_get-keep_if k a p ((x, b) ∷ ds) h all = elim (Bool-cases (str_eq x k)) [
    | inl same ↦ ground (arith, all x)
    | inr other ↦ ground (arith, dict_get-keep_if k a p ds (ground arith) all)
  ]

  pub dict_get-pop_other :
      (j k : String) (ds : List (String × A))
      → str_eq k j ≡ false
      → dict_get j (dict_pop k ds) ≡ dict_get j ds
  unfolding dict_get dict_pop
  dict_get-pop_other j k [] ne = ground arith
  dict_get-pop_other j k ((x, b) ∷ ds) ne = elim (Bool-cases (str_eq x k)) [
    | inr other ↦ ground (arith, dict_get-pop_other j k ds ne)
    | inl same ↦ let name : x ≡ k = (eq_iff x k).0 same in ground (arith, ap (λ y. str_eq y j) name)
  ]
