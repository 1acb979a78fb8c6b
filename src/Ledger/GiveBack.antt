-- ===== src/Ledger/GiveBack.antt =====
-- Three postings of one call, as the sums they move.
use apna_mandla.Prelude.{
  ℕ, ◌≡◌, ◌≢◌, refl, arith, if◌then◌else◌, inl, inr, ◌∙◌, ◌==◌, Bool-cases, ==→eq, ne→==_false, sym,
}
use apna_mandla.Prelude.Int.{ℤ, pos, ◌+ℤ◌, ◌-ℤ◌, int_laws}
use apna_mandla.Schema.{Db}
use apna_mandla.Env.{Env}
use apna_mandla.Ledger.Effects.{balance_of}
use apna_mandla.Ledger.Shifts.{Shift}

-- Three shares given to three users and taken back.
pub record Chain (env : Env) (a b c : ℕ) (x y z : ℤ) (d d' : Db) : Type 0 where
  pub one : Db
  pub two : Db
  pub first_shift : Shift env a x d one
  pub second_shift : Shift env b y one two
  pub third_shift : Shift env c z two d'

abbrev pub add_to : ℕ → ℤ → ℕ → ℤ → ℤ
add_to u x v b = if u == v then b +ℤ x else b

pub Chain-balance :
    {env : Env} {a b c : ℕ} {x y z : ℤ} {d d' : Db} (t : Chain env a b c x y z d d') (v : ℕ)
    → balance_of v d'.books ≡ add_to c z v (add_to b y v (add_to a x v (balance_of v d.books)))
Chain-balance t v =
    ground (arith, t.first_shift.balances v, t.second_shift.balances v, t.third_shift.balances v)

pub given_back :
    (c s p v : ℕ) (t n f b : ℤ)
    → c ≢ s
    → c ≢ p
    → s ≢ p
    → add_to c t v (
        add_to p
          (pos 0 -ℤ f)
          v
          (add_to s (pos 0 -ℤ n) v (add_to p f v (add_to s n v (add_to c (pos 0 -ℤ t) v b)))))
      ≡ b
given_back c s p v t n f b cs cp sp = elim (Bool-cases (c == v)) [
  | inl hit ↦
      let own = ==→eq c v hit in
      rw (hit, ne→==_false s v (λ q. cs (own ∙ sym q)), ne→==_false p v (λ q. cp (own ∙ sym q)))
        (omega int_laws)
  | inr not_c ↦ elim (Bool-cases (s == v)) [
    | inl hit ↦ rw (not_c, hit, ne→==_false p v (λ q. sp (==→eq s v hit ∙ sym q))) (omega int_laws)
    | inr not_s ↦ elim (Bool-cases (p == v)) [
      | inl hit ↦ rw (not_c, not_s, hit) (omega int_laws)
      | inr not_p ↦ rw (not_c, not_s, not_p) refl
    ]
  ]
]
