-- ===== src/Money.antt =====
-- Decimal amounts and their rounding to paise: `_round` of app/services/ledger_service.py and
-- `_daily_rate` of app/services/udhar_service.py (Backend/).
-- A decimal is a signed coefficient and a number of places; stored money is a ℤ of paise.
pub mod Rounding
use apna_mandla.Prelude.{ℕ, ◌+◌, ◌*◌, ◌/◌, ◌^◌, ◌-◌, zero, suc}
use apna_mandla.Prelude.Int.{ℤ, pos, negsuc, ◌+ℤ◌, ◌-ℤ◌, ◌*ℤ◌, ltb_ℤ}

-- coeff / 10 ^ places
pub record Decimal : Type 0 where
  pub coeff : ℤ
  pub places : ℕ

-- num / den to the nearest whole number, a half upwards.
unfoldable pub half_up : ℕ → ℕ → ℕ
half_up num den = (2 * num + den) / (2 * den)

-- The sign is kept apart, so a half goes away from zero.
unfoldable pub signed_half_up : ℤ → ℕ → ℤ
unfolding half_up
signed_half_up (pos n) den = pos (half_up n den)
signed_half_up (negsuc n) den = pos 0 -ℤ pos (half_up (suc n) den)

-- `d.quantize(Decimal("0.01"), rounding=ROUND_HALF_UP)`, in paise.
unfoldable pub round : Decimal → ℤ
unfolding signed_half_up ◌*ℤ◌ ◌-ℤ◌
round d = signed_half_up (d.coeff *ℤ pos 100) (10 ^ d.places)

-- A stored amount, which has two places.
abbrev pub of_paise : ℤ → Decimal
of_paise a = record { coeff = a; places = 2 }

-- `total * pct / Decimal("100")` for a stored amount.
abbrev pub percent_of : ℤ → Decimal → Decimal
percent_of total pct = record { coeff = total *ℤ pct.coeff; places = pct.places + 4 }

-- `(annual / 365).quantize(Decimal("0.000001"))`: the rate is stored with four places, and the
-- result has six.
unfoldable pub daily_rate : ℤ → ℤ
unfolding signed_half_up ◌*ℤ◌ ◌-ℤ◌
daily_rate annual = signed_half_up (annual *ℤ pos 100) 365

-- `balance * daily_rate`, a product of two places and six.
abbrev pub interest_on : ℤ → ℤ → Decimal
interest_on balance rate = record { coeff = balance *ℤ rate; places = 8 }
