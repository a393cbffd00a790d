-- ===== src/Model/Align/PowerOfTwo.antt =====
-- What `u64::is_power_of_two` tests.
use damon_rs.Common.{
  ℕ, zero, suc, ◌^◌, ◌<◌, ◌≡◌, ◌↔◌, inl, inr, true, ◌==◌, Bool-cases, arith, ℕ_discrete,
}
use damon_rs.Model.Align.{power_below, is_power_of_two}

-- A power of two that a `u64` holds.
abbrev pub IsPowerOfTwo : ℕ → Type 0
IsPowerOfTwo n = (k : ℕ) × (k < 64) × (n ≡ 2 ^ k)

power_below_sound : (k n : ℕ) → power_below k n ≡ true → (j : ℕ) × (j < k) × (n ≡ 2 ^ j)
unfolding power_below
power_below_sound zero n h = cc
power_below_sound (suc k) n h = elim (Bool-cases (n == 2 ^ k)) [
  | inl e ↦ (k, omega arith, ground arith)
  | inr e ↦ let (j, l, p) = power_below_sound k n (ground arith) in (j, omega arith, p)
]

power_below_complete : (k n j : ℕ) → j < k → n ≡ 2 ^ j → power_below k n ≡ true
unfolding power_below
power_below_complete zero n j l e = elim l [ ]
power_below_complete (suc k) n j l e = elim (ℕ_discrete j k) [
  | yes p ↦ let q : n ≡ 2 ^ k = rw (← p) e in ground arith
  | no p ↦ let q = power_below_complete k n j (omega arith) e in ground arith
]

-- The test accepts exactly the powers of two below 2 ^ 64.
pub is_power_of_two-IsPowerOfTwo : (n : ℕ) → (is_power_of_two n ≡ true) ↔ IsPowerOfTwo n
unfolding is_power_of_two
is_power_of_two-IsPowerOfTwo n =
    (λ h. power_below_sound 64 n h, λ p. power_below_complete 64 n p.0 p.1 p.2)
