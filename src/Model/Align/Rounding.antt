-- ===== src/Model/Align/Rounding.antt =====
-- The aligned bounds: the multiples of the alignment next to a region's bounds.
use damon_rs.Common.{ℕ, ◌+◌, ◌-◌, ◌*◌, ◌/◌, ◌%◌, ◌≤◌, ◌<◌, ◌≡◌, ◌≢◌, ◌↔◌, arith, u64_max, ◌∙◌, ap}
use native.Mathlib.Nat.{div-add-mod', mul-mod_left, lt_of_mul-lt-mul_right, mod-lt}
use damon_rs.Error.{ok}
use damon_rs.Model.Align.{aligned_start, aligned_end}

-- The least multiple of `a` that is no less than `n`.
abbrev pub IsRoundedUp : ℕ → ℕ → ℕ → Type 0
IsRoundedUp a n m = (n ≤ m) × (m < n + a) × (m % a ≡ 0)

multiple-mod : (a n k : ℕ) → n ≡ k * a → n % a ≡ 0
multiple-mod a n k e = ap (λ x. x % a) e ∙ mul-mod_left k a

multiple_unique : (a x y : ℕ) → x % a ≡ 0 → y % a ≡ 0 → x < y + a → y < x + a → x ≡ y
multiple_unique a x y hx hy l r =
    let le =
      lt_of_mul-lt-mul_right a {m = x / a} {n = y / a + 1}
        (omega (arith, div-add-mod' x a, div-add-mod' y a)) in
    let ge =
      lt_of_mul-lt-mul_right a {m = y / a} {n = x / a + 1}
        (omega (arith, div-add-mod' x a, div-add-mod' y a)) in
    let e : x / a ≡ y / a = omega arith in
    omega (arith, div-add-mod' x a, div-add-mod' y a, ap (λ q. q * a) e)

pub IsRoundedUp-unique : (a n x y : ℕ) → IsRoundedUp a n x → IsRoundedUp a n y → x ≡ y
IsRoundedUp-unique a n x y h k = multiple_unique a x y h.2 k.2 (omega arith) (omega arith)

pub aligned_start_bounds :
    (a n : ℕ)
    → 0 < a
    → (aligned_start a n ≤ n) × (n < aligned_start a n + a) × (aligned_start a n % a ≡ 0)
unfolding aligned_start
aligned_start_bounds a n h = (
  omega arith,
  omega (arith, mod-lt n h),
  multiple-mod a (n - n % a) (n / a) (omega (arith, div-add-mod' n a)),
)

round_up : (a n : ℕ) → 0 < a → n % a ≢ 0 → IsRoundedUp a n (n + (a - n % a))
round_up a n h r = (
  omega arith,
  omega (arith, mod-lt n h),
  multiple-mod a (n + (a - n % a)) (n / a + 1) (omega (arith, div-add-mod' n a, mod-lt n h)),
)

-- For a positive alignment and a value in u64, the rounding gives a result exactly where the
-- least multiple of the alignment no less than the value fits u64, and gives that multiple.
pub aligned_end-IsRoundedUp :
    (a n m : ℕ)
    → 0 < a
    → n ≤ u64_max
    → (aligned_end a n ≡ ok m) ↔ (IsRoundedUp a n m × (m ≤ u64_max))
unfolding aligned_end
aligned_end-IsRoundedUp a n m h b =
    let up = round_up a n h in
    (
      λ e. ground (arith, up),
      λ e. ground (arith, up, multiple_unique a (n + (a - n % a)) m, multiple_unique a n m),
    )
