-- ===== src/Model/Context/Probes.antt =====
-- The weighted probes of a running context, and the counters that hold their hits.
use damon_rs.Common.{
  ◌<◌, ◌/◌, max, min, dec_le, ℕ, ◌+◌, ◌*◌, ◌≤◌, ◌≡◌, subst, ◌⊎◌, inl, inr, ◌↔◌, refl, true, List,
  [], ◌∷◌, All, all, arith, ltb, ◌==◌, fit, u8_max, u32_max, Bool-cases,
}
use native.Mathlib.Nat.{div-mul-le_self, lt-div-mul-add, div-eq_of_lt-le, div-eq_of_lt}
use damon_rs.Error.{ok, invalid_if, ok_or}
use damon_rs.Error.Checks.{Passes, >>-Passes, >>=-ok}
use damon_rs.Config.MonitoringIntervals.{MonitoringIntervals}
use damon_rs.Model.Probe.{ProbeConfig}
use damon_rs.Model.Context.{sum_hits, maximum_hits, validate_hits, validate_weighted_probes}

abbrev pub total_hits : ℕ → List ProbeConfig → ℕ
total_hits hits [] = 0
total_hits hits (p ∷ ps) = p.weight * hits + total_hits hits ps

pub sum_hits-total_hits :
    (hits t n : ℕ) (ps : List ProbeConfig)
    → t ≤ u32_max
    → (sum_hits hits t ps ≡ ok n) ↔ ((n ≡ t + total_hits hits ps) × (n ≤ u32_max))
unfolding sum_hits
sum_hits-total_hits hits t n [] b = (λ h. ground arith, λ h. ground arith)
sum_hits-total_hits hits t n (p ∷ ps) b =
    let rest = sum_hits-total_hits hits (t + p.weight * hits) n ps in
    (
      λ h. ground (arith, λ (q : t + p.weight * hits ≤ u32_max). (rest q).0),
      λ h. ground (arith, λ (q : t + p.weight * hits ≤ u32_max). (rest q).1),
    )

-- The hits that a region can collect in an aggregation interval of `a` microseconds with a sample
-- each `d`: as many samples as end within the interval, and one at least.
pub record IsHitCount (d a hits : ℕ) : Type 0 where
  pub some_sample : 0 < hits
  pub within : (hits * d ≤ a) ⊎ (hits ≡ 1)
  pub most : a < (hits + 1) * d

-- Either the weights are not used, or a hit count fits a byte and the weighted sum of full counts
-- fits `u32`. A sampling interval of zero counts as one microsecond.
abbrev pub FitsHits : MonitoringIntervals → List ProbeConfig → Type 0
FitsHits i ps =
    All (λ (p : ProbeConfig). p.weight ≡ 0) ps
    ⊎ ((hits : ℕ) × IsHitCount (max i.sample_us 1) i.aggregation_us hits
        × (hits ≤ 255)
        × (total_hits hits ps ≤ u32_max))

quotient-IsHitCount : (d a : ℕ) → 0 < d → IsHitCount d a (max (a / d) 1)
quotient-IsHitCount d a pos =
    let low : a / d * d ≤ a = div-mul-le_self a d in
    let high : a < a / d * d + d = lt-div-mul-add pos in
    elim (dec_le 1 (a / d)) [
      | yes y ↦
          let same : a / d ≡ max (a / d) 1 = omega (arith, y) in
          subst (IsHitCount d a) same
            (record { some_sample = y; within = inl low; most = omega (arith, high) })
      | no n ↦
          let none_whole : a / d ≡ 0 = omega (arith, n) in
          let same : 1 ≡ max (a / d) 1 = omega (arith, n) in
          let short : a < 0 * d + d = subst (λ q. a < q * d + d) none_whole high in
          subst (IsHitCount d a) same
            (record { some_sample = omega arith; within = inr refl; most = omega (arith, short) })
    ]

IsHitCount-quotient : (d a hits : ℕ) → 0 < d → IsHitCount d a hits → hits ≡ max (a / d) 1
IsHitCount-quotient d a hits pos h = elim h.within [
  | inl low ↦ let q : a / d ≡ hits = div-eq_of_lt-le d low h.most in omega (arith, q, h.some_sample)
  | inr single ↦
      let short : a < (1 + 1) * d = subst (λ n. a < (n + 1) * d) single h.most in
      elim (dec_le d a) [
        | yes y ↦
            let q : a / d ≡ 1 = div-eq_of_lt-le d (omega (arith, y)) short in
            omega (arith, q, single)
        | no n ↦ let q : a / d ≡ 0 = div-eq_of_lt (omega (arith, n)) in omega (arith, q, single)
      ]
]

-- What the code computes, before the bound of `u32`.
maximum_hits_lem :
    (i : MonitoringIntervals)
    → maximum_hits i ≡ min (max (i.aggregation_us / max i.sample_us 1) 1) u32_max
unfolding maximum_hits
maximum_hits_lem i = ground arith

no_weight :
    (ps : List ProbeConfig)
    → (all (λ (p : ProbeConfig). p.weight == 0) ps ≡ true)
      ↔ All (λ (p : ProbeConfig). p.weight ≡ 0) ps
no_weight [] = (λ h. tt, λ h. refl)
no_weight (p ∷ ps) =
    let rest = no_weight ps in
    (λ h. (ground arith, rest.0 (ground arith)), λ h. ground (arith, rest.1 h.1))

sum_returns :
    (hits : ℕ) (ps : List ProbeConfig)
    → Passes (validate_hits hits ps)
    → (n : ℕ) × (sum_hits hits 0 ps ≡ ok n)
unfolding validate_hits
sum_returns hits ps h =
    let both =
      >>-Passes
        (invalid_if (ltb u8_max hits) "weighted monitoring probes"
          "samples per aggregation interval must fit an 8-bit hit count")
        _ in
    let (k, fits, rest) = >>=-ok (ok_or (fit u32_max hits) _) _ (both.0 h).1 in
    let (n, e, _) = >>=-ok (sum_hits k 0 ps) _ rest in
    let same : k ≡ hits = ground arith in (n, subst (λ k. sum_hits k 0 ps ≡ ok n) same e)

hits_iff :
    (hits : ℕ) (ps : List ProbeConfig)
    → Passes (validate_hits hits ps) ↔ ((hits ≤ u8_max) × (total_hits hits ps ≤ u32_max))
unfolding validate_hits
hits_iff hits ps = (
  λ h.
      let (n, e) = sum_returns hits ps h in
      ground (arith, (sum_hits-total_hits hits 0 n ps (omega arith)).0 e),
  λ v. ground (
    arith,
    (sum_hits-total_hits hits 0 (total_hits hits ps) ps (omega arith)).1 (omega arith, v.1),
  ),
)

no_weight_total :
    (hits : ℕ) (ps : List ProbeConfig)
    → All (λ (p : ProbeConfig). p.weight ≡ 0) ps
    → total_hits hits ps ≡ 0
no_weight_total hits [] h = refl
no_weight_total hits (p ∷ ps) h = rw (h.0) (omega (arith, no_weight_total hits ps h.1))

-- The count of hits that the code has, where it fits a byte, is the one that the intervals give.
counts_iff :
    (i : MonitoringIntervals) (ps : List ProbeConfig)
    → ((maximum_hits i ≤ u8_max) × (total_hits (maximum_hits i) ps ≤ u32_max)) ↔ (
        (hits : ℕ) × IsHitCount (max i.sample_us 1) i.aggregation_us hits
        × (hits ≤ 255)
        × (total_hits hits ps ≤ u32_max))
counts_iff i ps =
    let d = max i.sample_us 1 in
    let q = max (i.aggregation_us / d) 1 in
    let code = maximum_hits_lem i in
    (
      λ h.
          let same : maximum_hits i ≡ q = omega (arith, code, h.0) in
          (
            q,
            quotient-IsHitCount d i.aggregation_us (omega arith),
            omega (arith, same, h.0),
            subst (λ n. total_hits n ps ≤ u32_max) same h.1,
          ),
      λ v.
          let is_quotient = IsHitCount-quotient d i.aggregation_us v.0 (omega arith) v.1 in
          let same : v.0 ≡ maximum_hits i = omega (arith, code, is_quotient, v.2) in
          (omega (arith, same, v.2), subst (λ n. total_hits n ps ≤ u32_max) same v.3),
    )

-- The check accepts exactly probes with no weight, or those for which the number of whole
-- sampling intervals in an aggregation interval, one at least, is at most 255, and the sum over
-- all probes of this number times the weight fits u32. A sampling interval of zero counts as one
-- microsecond.
pub validate_weighted_probes-FitsHits :
    (i : MonitoringIntervals) (ps : List ProbeConfig)
    → Passes (validate_weighted_probes i ps) ↔ FitsHits i ps
unfolding validate_weighted_probes
validate_weighted_probes-FitsHits i ps =
    let used = no_weight ps in
    let hits = hits_iff (maximum_hits i) ps in
    let counts = counts_iff i ps in
    elim (Bool-cases (all (λ (p : ProbeConfig). p.weight == 0) ps)) [
      | inl e ↦ (λ h. inl (used.0 e), λ v. rw (e, validate_weighted_probes) refl)
      | inr e ↦ (
        λ h. inr (counts.0 (hits.0 (rw (e, validate_weighted_probes) at h))),
        λ v.
            rw (e, validate_weighted_probes)
              (hits.1 (elim v [ inl z ↦ cc (used.1 z, e) | inr k ↦ counts.1 k ])),
      )
    ]
