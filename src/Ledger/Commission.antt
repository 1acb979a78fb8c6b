-- ===== src/Ledger/Commission.antt =====
-- The split of an order's payment in `WalletService.process_order_payment`.
use apna_mandla.Prelude.{ℕ, ◌*◌, ◌≤◌, ◌≡◌, arith}
use apna_mandla.Prelude.Int.{pos, ◌+ℤ◌, ◌≤ℤ◌, int_laws}
use apna_mandla.Money.{Decimal, half_up, round, percent_of}
use apna_mandla.Money.Rounding.{half_up_mono, round-of_paise}
use apna_mandla.Ledger.Operations.{split_of}

-- A percentage with two places.
abbrev pub percent : ℕ → Decimal
percent hundredths = record { coeff = pos hundredths; places = 2 }

half_up-exact : (n : ℕ) → half_up (n * 1_000_000) 1_000_000 ≡ n
unfolding half_up
half_up-exact n = omega arith

fee_eq : (n h : ℕ) → round (percent_of (pos n) (percent h)) ≡ pos (half_up (n * h * 100) 1_000_000)
unfolding round
fee_eq n h = ground arith

times_le : (n h : ℕ) → h ≤ 10_000 → n * h * 100 ≤ n * 1_000_000
times_le n h le = grind arith

fee_le : (n h : ℕ) → h ≤ 10_000 → half_up (n * h * 100) 1_000_000 ≤ n
fee_le n h le = omega (
  arith,
  half_up_mono (n * h * 100) (n * 1_000_000) 1_000_000 (omega arith) (times_le n h le),
  half_up-exact n,
)

pub split_of_shares :
    (n h : ℕ)
    → h ≤ 10_000
    → let s = split_of (pos n) (percent h) in
      (pos 0 ≤ℤ s.commission)
      × (s.commission ≤ℤ pos n)
      × (pos 0 ≤ℤ s.net)
      × (s.net +ℤ s.commission ≡ pos n)
unfolding split_of
split_of_shares n h le =
    rw (fee_eq n h, round-of_paise)
      (omega arith, omega (arith, fee_le n h le), omega (int_laws, fee_le n h le), omega int_laws)
