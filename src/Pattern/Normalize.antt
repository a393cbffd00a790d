-- ===== src/Pattern/Normalize.antt =====
-- What the kernel-width normalization of an access pattern means.
use damon_rs.Common.{◌≡◌, ◌⊎◌, ◌↔◌, true, arith, u32_max, u64_max}
use damon_rs.Pattern.{AccessPattern, equivalent_after_kernel_normalization, normalize_kernel_width}

-- The two patterns differ at most in a maximal size that a 32-bit kernel narrowed.
abbrev pub IsNarrowed : AccessPattern → AccessPattern → Type 0
IsNarrowed a b =
    (a.size.min ≡ b.size.min)
    × ((a.size.max ≡ b.size.max) ⊎ ((a.size.max ≡ u64_max) × (b.size.max ≡ u32_max)))
    × (a.accesses ≡ b.accesses)
    × (a.age ≡ b.age)

pub equivalent-IsNarrowed :
    (a b : AccessPattern) → (equivalent_after_kernel_normalization a b ≡ true) ↔ IsNarrowed a b
unfolding equivalent_after_kernel_normalization
equivalent-IsNarrowed a b = (λ h. ground arith, λ h. ground arith)

-- Normalizing a requested pattern by an observed one reaches the observed pattern exactly where
-- the two are equivalent.
pub normalize_kernel_width-eq :
    (a b : AccessPattern)
    → (normalize_kernel_width a b ≡ b) ↔ (equivalent_after_kernel_normalization a b ≡ true)
unfolding normalize_kernel_width
normalize_kernel_width-eq a b = (λ h. ground arith, λ h. ground arith)

pub normalize_kernel_width_idem :
    (a b : AccessPattern)
    → normalize_kernel_width (normalize_kernel_width a b) b ≡ normalize_kernel_width a b
unfolding normalize_kernel_width
normalize_kernel_width_idem a b = ground arith
