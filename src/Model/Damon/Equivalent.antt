-- ===== src/Model/Damon/Equivalent.antt =====
-- What the comparison of a staged hierarchy with the one read back means.
use damon_rs.Common.{ite, ap, ◌≡◌, ◌⊎◌, inl, inr, ◌↔◌, refl, true, false, List, [], ◌∷◌, arith}
use damon_rs.Pattern.Normalize.{IsNarrowed, equivalent-IsNarrowed, normalize_kernel_width-eq}
use damon_rs.Model.Placement.{canonicalize_filter_placements}
use damon_rs.Model.Scheme.{SchemeConfig}
use damon_rs.Model.Context.{ContextConfig}
use damon_rs.Model.Damon.{
  KdamondConfig, DamonConfig, DamonConfig-discrete, zip_mut, normalize_scheme, normalize_context,
  normalize_kdamond, normalize, equivalent_after_kernel_normalization,
}

-- The lists have the same length, and `R` holds at each index.
abbrev pub Zip {ℓ} : {A : Type ℓ} → (A → A → Type 0) → List A → List A → Type 0
Zip R [] [] = Unit
Zip R (x ∷ xs) (y ∷ ys) = R x y × Zip R xs ys
Zip R _ _ = ⊥

zip_mut-Zip {ℓ} :
    {A : Type ℓ} {f : A → A → A} {R : A → A → Type 0}
    → ((x y : A) → (f x y ≡ y) ↔ R x y)
    → (xs ys : List A) → (zip_mut f xs ys ≡ ys) ↔ Zip R xs ys
zip_mut-Zip e [] [] = (λ h. tt, λ h. refl)
zip_mut-Zip e [] (y ∷ ys) = (λ h. cc, λ h. elim h [ ])
zip_mut-Zip e (x ∷ xs) [] = (λ h. cc, λ h. elim h [ ])
zip_mut-Zip e (x ∷ xs) (y ∷ ys) =
    let rest = zip_mut-Zip e xs ys in
    (λ h. ((e x y).0 (ground arith), rest.0 (ground arith)), λ h. cc ((e x y).1 h.0, rest.1 h.1))

-- The schemes agree, but for a maximal size that the kernel narrowed, and for the directories of
-- the filters, which are the ones the observed hierarchy has.
pub record MatchesScheme (a b : SchemeConfig) : Type 0 where
  pub action : a.action ≡ b.action
  pub access_pattern : IsNarrowed a.access_pattern b.access_pattern
  pub apply_interval : a.apply_interval ≡ b.apply_interval
  pub target_node : a.target_node ≡ b.target_node
  pub quota : a.quota ≡ b.quota
  pub watermarks : a.watermarks ≡ b.watermarks
  pub filters : canonicalize_filter_placements a.filters b.filters ≡ b.filters
  pub destinations : a.destinations ≡ b.destinations
  pub application_snapshot_limit : a.application_snapshot_limit ≡ b.application_snapshot_limit

scheme_iff : (a b : SchemeConfig) → (normalize_scheme a b ≡ b) ↔ MatchesScheme a b
unfolding normalize_scheme
scheme_iff a b =
    let eq = normalize_kernel_width-eq a.access_pattern b.access_pattern in
    let narrowed = equivalent-IsNarrowed a.access_pattern b.access_pattern in
    (
      λ h. record {
        action = ap (λ (s : SchemeConfig). s.action) h;
        access_pattern = narrowed.0 (eq.0 (ap (λ (s : SchemeConfig). s.access_pattern) h));
        apply_interval = ap (λ (s : SchemeConfig). s.apply_interval) h;
        target_node = ap (λ (s : SchemeConfig). s.target_node) h;
        quota = ap (λ (s : SchemeConfig). s.quota) h;
        watermarks = ap (λ (s : SchemeConfig). s.watermarks) h;
        filters = ap (λ (s : SchemeConfig). s.filters) h;
        destinations = ap (λ (s : SchemeConfig). s.destinations) h;
        application_snapshot_limit = ap (λ (s : SchemeConfig). s.application_snapshot_limit) h;
      },
      λ m. ground (
        arith,
        m.action,
        eq.1 (narrowed.1 m.access_pattern),
        m.apply_interval,
        m.target_node,
        m.quota,
        m.watermarks,
        m.filters,
        m.destinations,
        m.application_snapshot_limit,
      ),
    )

-- The contexts have the same values, and matching schemes.
pub record MatchesContext (a b : ContextConfig) : Type 0 where
  pub values : record a { schemes = b.schemes } ≡ b
  pub schemes : Zip MatchesScheme a.schemes b.schemes

context_iff : (a b : ContextConfig) → (normalize_context a b ≡ b) ↔ MatchesContext a b
unfolding normalize_context
context_iff a b =
    let schemes = zip_mut-Zip scheme_iff a.schemes b.schemes in
    (
      λ h.
          let same = ap (λ (c : ContextConfig). c.schemes) h in
          record {
            values = ap (λ (c : ContextConfig). record c { schemes = b.schemes }) h;
            schemes = schemes.0 same;
          },
      λ m. rw (schemes.1 m.schemes) m.values,
    )

pub record MatchesKdamond (a b : KdamondConfig) : Type 0 where
  pub refresh_interval : a.refresh_interval ≡ b.refresh_interval
  pub contexts : Zip MatchesContext a.contexts b.contexts

kdamond_iff : (a b : KdamondConfig) → (normalize_kdamond a b ≡ b) ↔ MatchesKdamond a b
unfolding normalize_kdamond
kdamond_iff a b =
    let contexts = zip_mut-Zip context_iff a.contexts b.contexts in
    (
      λ h. record {
        refresh_interval = ap (λ (k : KdamondConfig). k.refresh_interval) h;
        contexts = contexts.0 (ap (λ (k : KdamondConfig). k.contexts) h);
      },
      λ m. ground (arith, m.refresh_interval, contexts.1 m.contexts),
    )

abbrev pub Matches : DamonConfig → DamonConfig → Type 0
Matches a b = Zip MatchesKdamond a.kdamonds b.kdamonds

normalize_iff : (a b : DamonConfig) → (normalize a b ≡ b) ↔ Matches a b
unfolding normalize
normalize_iff a b =
    let kdamonds = zip_mut-Zip kdamond_iff a.kdamonds b.kdamonds in
    (λ h. kdamonds.0 (ap (λ (d : DamonConfig). d.kdamonds) h), λ m. ground (arith, kdamonds.1 m))

either_iff :
    {P Q : Type 0} (d : Dec P) (e : Dec Q) → (ite d true (ite e true false) ≡ true) ↔ (P ⊎ Q)
either_iff (yes p) e = (λ h. inl p, λ h. ground arith)
either_iff (no n) (yes q) = (λ h. inr q, λ h. ground arith)
either_iff (no n) (no m) = (λ h. ground arith, λ h. ground arith)

-- The comparison of a hierarchy with an observed one accepts exactly an equal one, and one with
-- the same shape and values but for size maxima that a 32-bit kernel narrowed and for filters
-- whose canonical placement is the observed one.
pub equivalent-Matches :
    (a b : DamonConfig)
    → (equivalent_after_kernel_normalization a b ≡ true) ↔ ((a ≡ b) ⊎ Matches a b)
unfolding equivalent_after_kernel_normalization
equivalent-Matches a b =
    let either = either_iff (DamonConfig-discrete a b) (DamonConfig-discrete (normalize a b) b) in
    let matches = normalize_iff a b in
    (
      λ h. elim (either.0 h) [ inl e ↦ inl e | inr n ↦ inr (matches.0 n) ],
      λ v. either.1 (elim v [ inl e ↦ inl e | inr m ↦ inr (matches.1 m) ]),
    )
