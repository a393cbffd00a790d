-- ===== src/Model/Placement/Buckets.antt =====
-- The directories of a split hierarchy, in the order in which they are read back, and the
-- canonical order of the filters.
use mathlib.Core.List.{append_assoc, append-nil}
use damon_rs.Common.{
  ℕ, ◌≤◌, ◌<◌, ◌≡◌, refl, ap, ◌⊎◌, inl, inr, subst, ◌∙◌, Bool, true, false, Option, none, some,
  List, [], ◌∷◌, ◌++◌, map, if◌then◌else◌, All, arith,
}
use damon_rs.Abi.SchemeFilterType.{handled_by_operations}
use damon_rs.Model.Layer.{FilterPlacement, adaptive, unified, core, operations, placement_eq}
use damon_rs.Model.Filter.{FilterConfig}
use damon_rs.Model.Placement.{
  split_placement, place, key, insert, sort_by_key, observed_split, canonicalize_filter_placements,
  Layers, push_layer, push_layers, split_layers,
}

-- A filter read back from a directory has that directory's placement.
abbrev pub with_placement : FilterPlacement → FilterConfig → FilterConfig
with_placement p f = record f { placement = p }

abbrev pub read_from : FilterPlacement → List FilterConfig → List FilterConfig
read_from p = map (with_placement p)

-- The order of `Scheme::configuration`.
abbrev pub read_back : Layers → List FilterConfig
read_back l =
    read_from core l.core_layer
    ++ (read_from operations l.operations_layer ++ read_from unified l.unified_layer)

unfoldable pub select : FilterPlacement → List FilterConfig → List FilterConfig
select p [] = []
select p (f ∷ fs) =
    if placement_eq (split_placement f.placement (handled_by_operations f.filter_type)) p
    then f ∷ select p fs
    else select p fs

insert-front :
    (f : FilterConfig) (gs : List FilterConfig) → All (λ g. key f ≤ key g) gs → insert f gs ≡ f ∷ gs
unfolding insert
insert-front f [] h = refl
insert-front f (g ∷ gs) h = ground arith

rank : FilterPlacement → ℕ
rank p = elim p [ adaptive ↦ 3 | unified ↦ 2 | core ↦ 0 | operations ↦ 1 ]

insert-past :
    (f : FilterConfig) (p : FilterPlacement) (gs hs : List FilterConfig)
    → rank p < key f
    → insert f (read_from p gs ++ hs) ≡ read_from p gs ++ insert f hs
unfolding insert rank key
insert-past f p [] hs h = refl
insert-past f p (g ∷ gs) hs h = ground (arith, insert-past f p gs hs h)

All-read_from :
    (n : ℕ) (p : FilterPlacement) (fs : List FilterConfig) (gs : List FilterConfig)
    → n ≤ rank p
    → All (λ g. n ≤ key g) gs
    → All (λ g. n ≤ key g) (read_from p fs ++ gs)
unfolding rank key
All-read_from n p [] gs h k = k
All-read_from n p (f ∷ fs) gs h k = (h, All-read_from n p fs gs h k)

selected : List FilterConfig → List FilterConfig
selected fs =
    read_from core (select core fs)
    ++ (read_from operations (select operations fs) ++ read_from unified (select unified fs))

-- Inserting a placed filter into the three buckets puts it at the front of its own.
module _ (f : FilterConfig) (c o u : List FilterConfig) where
  Unified : (n : ℕ) → n ≤ 2 → All (λ g. n ≤ key g) (read_from unified u)
  unfolding rank
  Unified n h =
      subst (All (λ g. n ≤ key g)) (append-nil (read_from unified u))
        (All-read_from n unified u [] h tt)

  insert-core :
      insert
        (with_placement core f)
        (read_from core c ++ (read_from operations o ++ read_from unified u))
      ≡ read_from core (f ∷ c) ++ (read_from operations o ++ read_from unified u)
  unfolding key
  insert-core = insert-front (with_placement core f) _ (
      All-read_from 0 core c _ (omega arith)
        (All-read_from 0 operations o _ (omega arith) (Unified 0 (omega arith))))

  insert-operations :
      insert
        (with_placement operations f)
        (read_from core c ++ (read_from operations o ++ read_from unified u))
      ≡ read_from core c ++ (read_from operations (f ∷ o) ++ read_from unified u)
  unfolding key rank
  insert-operations =
      insert-past (with_placement operations f) core c _ (omega arith)
      ∙ ap (λ l. read_from core c ++ l)
          (insert-front (with_placement operations f) _
            (All-read_from 1 operations o _ (omega arith) (Unified 1 (omega arith))))

  insert-unified :
      insert
        (with_placement unified f)
        (read_from core c ++ (read_from operations o ++ read_from unified u))
      ≡ read_from core c ++ (read_from operations o ++ read_from unified (f ∷ u))
  unfolding key rank
  insert-unified =
      insert-past (with_placement unified f) core c _ (omega arith)
      ∙ ap (λ l. read_from core c ++ l)
          (insert-past (with_placement unified f) operations o _ (omega arith)
            ∙ ap (λ l. read_from operations o ++ l)
                (insert-front (with_placement unified f) _ (Unified 2 (omega arith))))

split_cases :
    (p : FilterPlacement) (h : Option Bool)
    → (split_placement p h ≡ core)
      ⊎ ((split_placement p h ≡ operations) ⊎ (split_placement p h ≡ unified))
unfolding split_placement
split_cases p h = ground arith

sort-selected : (fs : List FilterConfig) → sort_by_key (map (place true) fs) ≡ selected fs
unfolding sort_by_key selected select place
sort-selected [] = refl
sort-selected (f ∷ fs) =
    let c = select core fs in
    let o = select operations fs in
    let u = select unified fs in
    elim (split_cases f.placement (handled_by_operations f.filter_type)) [
      | inl e ↦ rw (sort-selected fs, e) (insert-core f c o u)
      | inr (inl e) ↦ rw (sort-selected fs, e) (insert-operations f c o u)
      | inr (inr e) ↦ rw (sort-selected fs, e) (insert-unified f c o u)
    ]

-- One more filter in front of the filters that each layer will get.
extend : Layers → List FilterConfig → List FilterConfig → List FilterConfig → Layers
extend l c o u = record {
  core_layer = l.core_layer ++ c;
  operations_layer = l.operations_layer ++ o;
  unified_layer = l.unified_layer ++ u;
}

extend-push_layer :
    (l : Layers) (p : FilterPlacement) (h : Option Bool) (f : FilterConfig)
    (c o u : List FilterConfig)
    → extend (push_layer l p h f) c o u
      ≡ extend l
          (if placement_eq (split_placement p h) core then f ∷ c else c)
          (if placement_eq (split_placement p h) operations then f ∷ o else o)
          (if placement_eq (split_placement p h) unified then f ∷ u else u)
unfolding extend push_layer split_placement
extend-push_layer l core h f c o u = simp append_assoc
extend-push_layer l operations h f c o u = simp append_assoc
extend-push_layer l unified h f c o u = simp append_assoc
extend-push_layer l adaptive none f c o u = simp append_assoc
extend-push_layer l adaptive (some true) f c o u = simp append_assoc
extend-push_layer l adaptive (some false) f c o u = simp append_assoc

push_layers-select :
    (l : Layers) (fs : List FilterConfig)
    → push_layers l fs ≡ extend l (select core fs) (select operations fs) (select unified fs)
unfolding push_layers select extend
push_layers-select l [] = simp append-nil
push_layers-select l (f ∷ fs) =
    push_layers-select (push_layer l f.placement (handled_by_operations f.filter_type) f) fs
    ∙ extend-push_layer l f.placement (handled_by_operations f.filter_type) f (select core fs)
        (select operations fs) (select unified fs)

pub split_layers-select :
    (fs : List FilterConfig)
    → split_layers fs ≡ record {
      core_layer = select core fs;
      operations_layer = select operations fs;
      unified_layer = select unified fs;
    }
unfolding split_layers extend
split_layers-select fs = push_layers-select _ fs

-- Where the observed filters have a split placement, the canonical form of a filter list, by its
-- stable sort, is what staging it into the three directories and reading them back gives.
pub canonicalize-read_back :
    (filters observed : List FilterConfig)
    → observed_split observed ≡ true
    → canonicalize_filter_placements filters observed ≡ read_back (split_layers filters)
unfolding canonicalize_filter_placements split_layers selected extend
canonicalize-read_back filters observed h = rw (h, push_layers-select, sort-selected filters)
