-- ===== src/Monitor/Workflow/Longest.antt =====
-- How long a snapshot may take: the longest effective apply interval.
use damon_rs.Common.{
  ◌*◌, ◌≢◌, dec_le, ℕ, ◌≤◌, ◌≡◌, ◌⊎◌, inl, inr, refl, arith, List, [], ◌∷◌, ◌++◌, All, map,
}
use damon_rs.Error.Checks.{All-map}
use damon_rs.Config.Duration.{Duration}
use damon_rs.Model.Scheme.{SchemeConfig}
use damon_rs.Model.Context.{ContextConfig}
use damon_rs.Model.Damon.{KdamondConfig, DamonConfig}
use damon_rs.Monitor.Workflow.Query.{
  effective_interval, intervals_of_contexts, intervals_of, longest,
  maximum_effective_apply_interval,
}

-- `P` holds of some element.
abbrev pub Some {ℓ} : {A : Type ℓ} → (A → Type 0) → List A → Type 0
Some P [] = ⊥
Some P (x ∷ xs) = P x ⊎ Some P xs

Some-map {ℓ} :
    {A : Type ℓ} {P Q : A → Type 0} → ((a : A) → P a → Q a) → (xs : List A) → Some P xs → Some Q xs
Some-map f [] h = h
Some-map f (x ∷ xs) (inl p) = inl (f x p)
Some-map f (x ∷ xs) (inr h) = inr (Some-map f xs h)

-- Each scheme, with the context it stands in.
abbrev pub AllSchemes : (ContextConfig → SchemeConfig → Type 0) → DamonConfig → Type 0
AllSchemes P config =
    All (λ (k : KdamondConfig). All (λ (c : ContextConfig). All (P c) c.schemes) k.contexts)
      config.kdamonds

abbrev pub SomeScheme : (ContextConfig → SchemeConfig → Type 0) → DamonConfig → Type 0
SomeScheme P config =
    Some (λ (k : KdamondConfig). Some (λ (c : ContextConfig). Some (P c) c.schemes) k.contexts)
      config.kdamonds

All-split {ℓ} :
    {A : Type ℓ} (P : A → Type 0) (xs ys : List A) → All P (xs ++ ys) → All P xs × All P ys
All-split P [] ys h = (tt, h)
All-split P (x ∷ xs) ys h = let rest = All-split P xs ys h.1 in ((h.0, rest.0), rest.1)

All-of-map {ℓ κ} :
    {A : Type ℓ} {B : Type κ} (P : B → Type 0) (f : A → B) (xs : List A)
    → All P (map f xs)
    → All (λ x. P (f x)) xs
All-of-map P f [] h = tt
All-of-map P f (x ∷ xs) h = (h.0, All-of-map P f xs h.1)

Some-split {ℓ} :
    {A : Type ℓ} (P : A → Type 0) (xs ys : List A) → Some P (xs ++ ys) → Some P xs ⊎ Some P ys
Some-split P [] ys h = inr h
Some-split P (x ∷ xs) ys (inl p) = inl (inl p)
Some-split P (x ∷ xs) ys (inr h) = elim (Some-split P xs ys h) [
  | inl r ↦ inl (inr r)
  | inr r ↦ inr r
]

Some-of-map {ℓ κ} :
    {A : Type ℓ} {B : Type κ} (P : B → Type 0) (f : A → B) (xs : List A)
    → Some P (map f xs)
    → Some (λ x. P (f x)) xs
Some-of-map P f [] h = h
Some-of-map P f (x ∷ xs) (inl p) = inl p
Some-of-map P f (x ∷ xs) (inr h) = inr (Some-of-map P f xs h)

longest-le : (ds : List Duration) (m : ℕ) → longest ds ≤ m → All (λ d. d ≤ m) ds
longest-le [] m h = tt
longest-le (d ∷ ds) m h = (omega arith, longest-le ds m (omega arith))

longest-Some :
    (ds : List Duration) (m : ℕ) → longest ds ≡ m → (m ≡ 0) ⊎ Some (λ (d : Duration). d ≡ m) ds
longest-Some [] m h = inl (omega (arith, h))
longest-Some (d ∷ ds) m h = elim (dec_le (longest ds) d) [
  | yes p ↦ inr (inl (omega arith))
  | no n ↦ elim (longest-Some ds m (omega arith)) [ inl z ↦ inl z | inr s ↦ inr (inr s) ]
]

module _ (P : Duration → Type 0) where
  All-contexts :
      (cs : List ContextConfig)
      → All P (intervals_of_contexts cs)
      → All (λ (c : ContextConfig). All (λ s. P (effective_interval c s)) c.schemes) cs
  All-contexts [] h = tt
  All-contexts (c ∷ cs) h =
      let both = All-split P (map (effective_interval c) c.schemes) (intervals_of_contexts cs) h in
      (All-of-map P (effective_interval c) c.schemes both.0, All-contexts cs both.1)

  Some-contexts :
      (cs : List ContextConfig)
      → Some P (intervals_of_contexts cs)
      → Some (λ (c : ContextConfig). Some (λ s. P (effective_interval c s)) c.schemes) cs
  Some-contexts [] h = h
  Some-contexts (c ∷ cs) h =
      elim (Some-split P (map (effective_interval c) c.schemes) (intervals_of_contexts cs) h) [
        | inl r ↦ inl (Some-of-map P (effective_interval c) c.schemes r)
        | inr r ↦ inr (Some-contexts cs r)
      ]

  All-schemes :
      (ks : List KdamondConfig)
      → All P (intervals_of ks)
      → AllSchemes (λ c s. P (effective_interval c s)) (record { kdamonds = ks })
  All-schemes [] h = tt
  All-schemes (k ∷ ks) h =
      let both = All-split P (intervals_of_contexts k.contexts) (intervals_of ks) h in
      (All-contexts k.contexts both.0, All-schemes ks both.1)

  Some-schemes :
      (ks : List KdamondConfig)
      → Some P (intervals_of ks)
      → SomeScheme (λ c s. P (effective_interval c s)) (record { kdamonds = ks })
  Some-schemes [] h = h
  Some-schemes (k ∷ ks) h =
      elim (Some-split P (intervals_of_contexts k.contexts) (intervals_of ks) h) [
        | inl r ↦ inl (Some-contexts k.contexts r)
        | inr r ↦ inr (Some-schemes ks r)
      ]

-- At most, and exactly, this number of nanoseconds is the scheme's: its own interval, or for zero
-- the aggregation interval of the context, in microseconds.
abbrev pub Within : Duration → ContextConfig → SchemeConfig → Type 0
Within m c s =
    (s.apply_interval ≡ 0 → c.intervals.aggregation_us * 1000 ≤ m)
    × (s.apply_interval ≢ 0 → s.apply_interval ≤ m)

abbrev pub Attains : Duration → ContextConfig → SchemeConfig → Type 0
Attains m c s =
    ((s.apply_interval ≡ 0) × (c.intervals.aggregation_us * 1000 ≡ m))
    ⊎ ((s.apply_interval ≢ 0) × (s.apply_interval ≡ m))

within :
    (m : Duration) (c : ContextConfig) (s : SchemeConfig)
    → effective_interval c s ≤ m
    → Within m c s
within m c s h = ground (arith, h)

attains :
    (m : Duration) (c : ContextConfig) (s : SchemeConfig)
    → effective_interval c s ≡ m
    → Attains m c s
attains m c s h = ground (arith, h)

module _ (P Q : ContextConfig → SchemeConfig → Type 0)
    (f : (c : ContextConfig) (s : SchemeConfig) → P c s → Q c s) where
  AllSchemes-map : (config : DamonConfig) → AllSchemes P config → AllSchemes Q config
  AllSchemes-map config =
      All-map
        (λ (k : KdamondConfig). All-map (λ (c : ContextConfig). All-map (f c) c.schemes) k.contexts)
        config.kdamonds

  SomeScheme-map : (config : DamonConfig) → SomeScheme P config → SomeScheme Q config
  SomeScheme-map config =
      Some-map
        (λ (k : KdamondConfig).
          Some-map (λ (c : ContextConfig). Some-map (f c) c.schemes) k.contexts)
        config.kdamonds

-- In nanoseconds, the maximum is at least the apply interval of each scheme whose own is not
-- zero, and at least the aggregation interval of the context of each scheme whose own is zero. It
-- is zero, or equals one of these.
pub maximum_effective_apply_interval-IsLongest :
    (config : DamonConfig)
    → AllSchemes (Within (maximum_effective_apply_interval config)) config
      × ((maximum_effective_apply_interval config ≡ 0)
          ⊎ SomeScheme (Attains (maximum_effective_apply_interval config)) config)
unfolding maximum_effective_apply_interval
maximum_effective_apply_interval-IsLongest config =
    let ds = intervals_of config.kdamonds in
    let m = longest ds in
    (
      AllSchemes-map (λ c s. effective_interval c s ≤ m) (Within m) (within m) config
          (All-schemes (λ d. d ≤ m) config.kdamonds (longest-le ds m (omega arith))),
      elim (longest-Some ds m refl) [
        | inl z ↦ inl z
        | inr s ↦ inr (
            SomeScheme-map (λ c s. effective_interval c s ≡ m) (Attains m) (attains m) config
              (Some-schemes (λ d. d ≡ m) config.kdamonds s))
      ],
    )
