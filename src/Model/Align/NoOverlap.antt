-- ===== src/Model/Align/NoOverlap.antt =====
-- The regions as the kernel widens them to its alignment, and the check of them.
use damon_rs.Common.{
  ℕ, ◌≤◌, ◌<◌, ◌≡◌, ◌↔◌, refl, Option, none, some, List, [], ◌∷◌, All, Pairwise, arith, u64_max,
  subst, false,
}
use damon_rs.Error.{ok}
use damon_rs.Error.Checks.{Passes, each-Passes, >>=-ok, All-map}
use damon_rs.Model.Region.{InitialRegionConfig}
use damon_rs.Model.Target.{TargetConfig, overlaps}
use damon_rs.Model.Target.Order.{NonEmpty}
use damon_rs.Model.Align.{
  aligned_start, aligned_end, validate_aligned_regions, validate_kernel_aligned_initial_regions,
}
use damon_rs.Model.Align.Rounding.{
  IsRoundedUp, IsRoundedUp-unique, aligned_start_bounds, aligned_end-IsRoundedUp,
}

-- The end rounds up within `u64`.
abbrev pub Fits : ℕ → InitialRegionConfig → Type 0
Fits a r = (m : ℕ) × IsRoundedUp a r.end m × (m ≤ u64_max)

-- The widened first region ends before the widened second one starts.
abbrev pub AlignedBefore : ℕ → InitialRegionConfig → InitialRegionConfig → Type 0
AlignedBefore a x y = (m : ℕ) → IsRoundedUp a x.end m → m ≤ aligned_start a y.start

abbrev pub IsSeparated : ℕ → List InitialRegionConfig → Type 0
IsSeparated a rs = All (Fits a) rs × Pairwise (AlignedBefore a) rs

-- What the source's types and `TargetConfig::validate` give.
abbrev pub InRange : InitialRegionConfig → Type 0
InRange r = NonEmpty r × (r.end ≤ u64_max)

abbrev After : ℕ → Option ℕ → InitialRegionConfig → Type 0
After a none r = Unit
After a (some e) r = e ≤ aligned_start a r.start

overlaps-After :
    (a : ℕ) (p : Option ℕ) (r : InitialRegionConfig)
    → (overlaps p (aligned_start a r.start) ≡ false) ↔ After a p r
overlaps-After a none r = (λ h. tt, λ h. refl)
overlaps-After a (some e) r = (λ h. ground arith, λ h. ground arith)

module _ (a : ℕ) (pos : 0 < a) where
  step :
      (p : Option ℕ) (r : InitialRegionConfig) (rs : List InitialRegionConfig) (m : ℕ)
      → aligned_end a r.end ≡ ok m
      → Passes (validate_aligned_regions a p (r ∷ rs))
        ↔ (After a p r × Passes (validate_aligned_regions a (some m) rs))
  unfolding validate_aligned_regions
  step p r rs m e =
      let o = overlaps-After a p r in (λ h. ground (arith, o.0), λ h. ground (arith, o.1 h.0))

  end_of :
      (p : Option ℕ) (r : InitialRegionConfig) (rs : List InitialRegionConfig)
      → Passes (validate_aligned_regions a p (r ∷ rs))
      → (m : ℕ) × (aligned_end a r.end ≡ ok m)
  unfolding validate_aligned_regions
  end_of p r rs h = let (m, e, _) = >>=-ok (aligned_end a r.end) _ h in (m, e)

  After-head :
      (p : Option ℕ) (r : InitialRegionConfig) (m : ℕ) (rs : List InitialRegionConfig)
      → NonEmpty r
      → r.end ≤ m
      → After a p r
      → All (After a (some m)) rs
      → All (After a p) rs
  After-head none r m [] n u o h = tt
  After-head none r m (y ∷ rs) n u o h = (tt, After-head none r m rs n u o h.1)
  After-head (some e) r m [] n u o h = tt
  After-head (some e) r m (y ∷ rs) n u o h =
      (omega (arith, aligned_start_bounds a r.start pos), After-head (some e) r m rs n u o h.1)

  sound :
      (p : Option ℕ) (rs : List InitialRegionConfig)
      → All InRange rs
      → Passes (validate_aligned_regions a p rs)
      → All (After a p) rs × IsSeparated a rs
  sound p [] i h = (tt, (tt, tt))
  sound p (r ∷ rs) i h =
      let (m, e) = end_of p r rs h in
      let (o, t) = (step p r rs m e).0 h in
      let (up, fits) = (aligned_end-IsRoundedUp a r.end m pos i.0.1).0 e in
      let (b, s) = sound (some m) rs i.1 t in
      (
        (o, After-head p r m rs i.0.0 up.0 o b),
        (
          ((m, up, fits), s.0),
          (
            All-map
                (λ y le k up'.
                  subst (λ x. x ≤ aligned_start a y.start) (IsRoundedUp-unique a r.end m k up up')
                    le)
                rs b,
            s.1,
          ),
        ),
      )

  complete :
      (p : Option ℕ) (rs : List InitialRegionConfig)
      → All InRange rs
      → All (After a p) rs
      → IsSeparated a rs
      → Passes (validate_aligned_regions a p rs)
  unfolding validate_aligned_regions
  complete p [] i o s = refl
  complete p (r ∷ rs) i o s =
      let (m, up, fits) = s.0.0 in
      (step p r rs m ((aligned_end-IsRoundedUp a r.end m pos i.0.1).1 (up, fits))).1
        (o.0, complete (some m) rs i.1 (All-map (λ y f. f m up) rs s.1.0) (s.0.1, s.1.1))

  After-none : (rs : List InitialRegionConfig) → All (After a none) rs
  After-none [] = tt
  After-none (r ∷ rs) = (tt, After-none rs)

  regions-IsSeparated :
      (rs : List InitialRegionConfig)
      → All InRange rs
      → Passes (validate_aligned_regions a none rs) ↔ IsSeparated a rs
  regions-IsSeparated rs i = (λ h. (sound none rs i h).1, λ s. complete none rs i (After-none rs) s)

  targets-IsSeparated :
      (ts : List TargetConfig)
      → All (λ t. All InRange t.initial_regions) ts
      → All (λ t. Passes (validate_aligned_regions a none t.initial_regions)) ts
        ↔ All (λ t. IsSeparated a t.initial_regions) ts
  targets-IsSeparated [] i = (λ h. tt, λ h. tt)
  targets-IsSeparated (t ∷ ts) i =
      let head = regions-IsSeparated t.initial_regions i.0 in
      let rest = targets-IsSeparated ts i.1 in
      (λ h. (head.0 h.0, rest.0 h.1), λ h. (head.1 h.0, rest.1 h.1))

-- For a positive alignment and non-empty regions whose ends fit u64, the check passes exactly
-- where every region of every target, its end rounded up, stays in u64, and no widened region
-- reaches into a later one of its target.
pub validate_kernel_aligned-IsSeparated :
    (a : ℕ) (ts : List TargetConfig)
    → 0 < a
    → All (λ t. All InRange t.initial_regions) ts
    → Passes (validate_kernel_aligned_initial_regions ts (some a))
      ↔ All (λ t. IsSeparated a t.initial_regions) ts
unfolding validate_kernel_aligned_initial_regions
validate_kernel_aligned-IsSeparated a ts pos i =
    let loop = each-Passes (λ t. validate_aligned_regions a none t.initial_regions) ts in
    let spec = targets-IsSeparated a pos ts i in (λ h. spec.0 (loop.0 h), λ h. loop.1 (spec.1 h))
