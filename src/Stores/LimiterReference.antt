-- ===== src/Stores/LimiterReference.antt =====
-- The limiter of requests against one that forgets nothing.
use apna_mandla.Prelude.{
  ℕ, ◌≤◌, ◌≡◌, refl, String, Bool, true, false, List, [], ◌∷◌, ◌++◌, arith, leb, if◌then◌else◌,
  keep_if, length, get_or, Bool-cases, inl, inr, ◌∙◌, ap, sym,
}
use apna_mandla.Stores.Dict.{dict_get, dict_set, dict_get-set}
use apna_mandla.Stores.{RateLimiter, recent, check_memory}

-- The answers to one client's requests at these times.
unfoldable pub answers : RateLimiter → String → List ℕ → List (String × List ℕ) → List Bool
answers limiter key [] store = []
answers limiter key (now ∷ ts) store =
    let r = check_memory limiter key now store in r.0 ∷ answers limiter key ts r.1

-- A request is let through if fewer than `times` of all those let through before are recent.
unfoldable pub reference : RateLimiter → List ℕ → List ℕ → List Bool
reference limiter [] history = []
reference limiter (now ∷ ts) history =
    let seen = length (keep_if (recent limiter now) history) in
    let refused = reference limiter ts history in
    let passed = reference limiter ts (history ++ (now ∷ [])) in
    if leb limiter.times seen then false ∷ refused else true ∷ passed

-- Times that do not decrease, from one on.
abbrev pub Ordered : ℕ → List ℕ → Type 0
Ordered last [] = Unit
Ordered last (now ∷ ts) = (last ≤ now) × Ordered now ts

keep_if-recent :
    (l : RateLimiter) (last now : ℕ) (h : List ℕ)
    → last ≤ now
    → keep_if (recent l now) (keep_if (recent l last) h) ≡ keep_if (recent l now) h
keep_if-recent l last now [] le = refl
keep_if-recent l last now (t ∷ h) le = ground (arith, keep_if-recent l last now h le)

keep_if-append :
    (p : ℕ → Bool) (h : List ℕ) (t : ℕ)
    → p t ≡ true
    → keep_if p (h ++ (t ∷ [])) ≡ keep_if p h ++ (t ∷ [])
keep_if-append p [] t hit = ground arith
keep_if-append p (x ∷ h) t hit = ground (arith, keep_if-append p h t hit)

same_answers :
    (l : RateLimiter) (key : String) (ts : List ℕ) (last : ℕ) (store : List (String × List ℕ))
    (history : List ℕ)
    → 1 ≤ l.seconds
    → Ordered last ts
    → get_or (dict_get key store) [] ≡ keep_if (recent l last) history
    → answers l key ts store ≡ reference l ts history
unfolding answers reference check_memory
same_answers l key [] last store history s o same = refl
same_answers l key (now ∷ ts) last store history s (le, o) same =
    let kept = keep_if (recent l now) (get_or (dict_get key store) []) in
    let all : kept ≡ keep_if (recent l now) history =
      ap (keep_if (recent l now)) same ∙ keep_if-recent l last now history le in
    elim (Bool-cases (leb l.times (length kept))) [
      | inl full ↦
          let store' = dict_set key kept store in
          let step : check_memory l key now store ≡ (false, store') = ground arith in
          let rest =
            same_answers l key ts now store' history s o
              (ap (λ x. get_or x []) (dict_get-set key kept store) ∙ all) in
          ground (arith, step, ap length all, rest)
      | inr free ↦
          let store' = dict_set key (kept ++ (now ∷ [])) store in
          let step : check_memory l key now store ≡ (true, store') = ground arith in
          let rest = same_answers l key ts now store' (history ++ (now ∷ [])) s o (
            ap (λ x. get_or x []) (dict_get-set key (kept ++ (now ∷ [])) store)
            ∙ ap (λ x. x ++ (now ∷ [])) all
            ∙ sym (keep_if-append (recent l now) history now (ground arith))) in
          ground (arith, step, ap length all, rest)
    ]

-- For a window that is not empty and times that do not decrease, the limiter that forgets old
-- requests answers as one that remembers all those it let through, and lets a request through just
-- if fewer than `times` of them lie in the window.
pub answers-reference :
    (l : RateLimiter) (key : String) (ts : List ℕ)
    → 1 ≤ l.seconds
    → Ordered 0 ts
    → answers l key ts [] ≡ reference l ts []
unfolding dict_get
answers-reference l key ts s o = same_answers l key ts 0 [] [] s o refl
