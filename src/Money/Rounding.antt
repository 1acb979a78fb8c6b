-- ===== src/Money/Rounding.antt =====
-- Rounding to paise: `_round` of Backend/app/services/ledger_service.py.
use native.Mathlib.Nat.{div-add-mod, mod-lt}
use apna_mandla.Prelude.{ℕ, ◌+◌, ◌*◌, ◌≤◌, ◌<◌, ◌≡◌, arith}
use apna_mandla.Prelude.Int.{ℤ, pos, negsuc}
use apna_mandla.Money.{half_up, round, of_paise}

pub half_up_nearest :
    (num den : ℕ)
    → 0 < den
    → (2 * (half_up num den * den) ≤ 2 * num + den)
      × (2 * num + den < 2 * (half_up num den * den) + 2 * den)
unfolding half_up
half_up_nearest num den h =
    let x = 2 * num + den in
    let y = 2 * den in
    let split = div-add-mod x y in let rest = mod-lt x {m = y} (omega arith) in omega arith

-- A smaller amount never rounds to more.
pub half_up_mono : (a b den : ℕ) → 0 < den → a ≤ b → half_up a den ≤ half_up b den
half_up_mono a b den h le = grind (arith, half_up_nearest a den h, half_up_nearest b den h)

-- An amount that is in paise already is not changed by rounding it again.
pub round-of_paise : (a : ℤ) → round (of_paise a) ≡ a
unfolding round
round-of_paise (pos n) = ground arith
round-of_paise (negsuc n) = ground arith
