-- ===== src/Prelude/Lists.antt =====
-- List functions over the native numbers, and the first row that passes a test.
use Prim.Native.Nat.{ℕ, suc}
use mathlib.Core.Bool.{Bool}
use mathlib.Core.Option.{Option, none, some}
use mathlib.Core.List.{List, [], ◌∷◌}
use apna_mandla.Prelude.Tests.{if◌then◌else◌}

abbrev pub length {ℓ} : {A : Type ℓ} → List A → ℕ
length [] = 0
length (x ∷ xs) = suc (length xs)

-- `.filter(p).first()`
abbrev pub first {ℓ} : {A : Type ℓ} → (A → Bool) → List A → Option A
first p [] = none
first p (x ∷ xs) = if p x then some x else first p xs

abbrev pub keep_if {ℓ} : {A : Type ℓ} → (A → Bool) → List A → List A
keep_if p [] = []
keep_if p (x ∷ xs) = if p x then x ∷ keep_if p xs else keep_if p xs

abbrev pub All {ℓ κ} : {A : Type ℓ} → (A → Type κ) → List A → Type κ
All P [] = Unit
All P (x ∷ xs) = P x × All P xs
