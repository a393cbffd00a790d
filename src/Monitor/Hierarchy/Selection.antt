-- ===== src/Monitor/Hierarchy/Selection.antt =====
-- `validate_selected_indices` of src/monitor/hierarchy.rs: the kdamonds that an update selects.
use damon_rs.Common.{
  ℕ, zero, suc, ◌<◌, ◌≡◌, ◌≢◌, ◌↔◌, refl, Bool, true, false, not, List, [], ◌∷◌, All, Pairwise,
  length, get_elem?, set_elem, leb, ◌==◌, arith, if◌then◌else◌, unwrap_or, ap, sym, ◌∙◌,
}
use damon_rs.Error.{Result, ok, err, ◌>>=◌, ◌>>◌, invalid_if, index_out_of_bounds, done}
use damon_rs.Error.Checks.{>>=-ok, >>-ok, ok_value}

-- The `false` of `vec![false; managed_count]`
unfoldable pub unseen : ℕ → List Bool
unseen zero = []
unseen (suc n) = false ∷ unseen n

abbrev pub is_seen : List Bool → ℕ → Bool
is_seen seen index = unwrap_or (get_elem? seen index) false

-- The loop over the requested indexes; its `selected` is what it returns.
unfoldable pub select_each : ℕ → List Bool → List ℕ → Result (List ℕ)
select_each managed_count seen [] = ok []
select_each managed_count seen (index ∷ requested) = do
  if leb managed_count index then err (index_out_of_bounds "kdamond" index managed_count) else done
  invalid_if (is_seen seen index) "selected kdamond indexes" "must not contain duplicates"
  selected ← select_each managed_count (set_elem seen index true) requested
  ok (index ∷ selected)

unfoldable pub validate_selected_indices : List ℕ → ℕ → ℕ → Result (List ℕ)
unfolding select_each unseen
validate_selected_indices requested managed_count requested_count = do
  invalid_if (not (requested_count == managed_count)) "managed hierarchy kdamond count"
      "must match the owned hierarchy"
  select_each managed_count (unseen managed_count) requested

seen-set :
    (seen : List Bool) (i j : ℕ)
    → i < length seen
    → (is_seen (set_elem seen i true) j ≡ false) ↔ ((i ≢ j) × (is_seen seen j ≡ false))
seen-set [] i j b = absurd (ground arith)
seen-set (s ∷ seen) zero zero b = (λ h. cc h, λ h. absurd (h.0 refl))
seen-set (s ∷ seen) zero (suc j) b = (λ h. (λ e. omega (arith, e), h), λ h. h.1)
seen-set (s ∷ seen) (suc i) zero b = (λ h. (λ e. omega (arith, e), h), λ h. h.1)
seen-set (s ∷ seen) (suc i) (suc j) b =
    let rest = seen-set seen i j (omega arith) in
    (
      λ h. (λ e. (rest.0 h).0 (omega (arith, e)), (rest.0 h).1),
      λ h. rest.1 (λ e. h.0 (ap suc e), h.1),
    )

length-set : (seen : List Bool) (i : ℕ) → length (set_elem seen i true) ≡ length seen
length-set [] i = refl
length-set (s ∷ seen) zero = refl
length-set (s ∷ seen) (suc i) = omega (arith, length-set seen i)

all-seen-set :
    (seen : List Bool) (i : ℕ) (is : List ℕ)
    → i < length seen
    → All (λ j. is_seen (set_elem seen i true) j ≡ false) is
      ↔ (All (λ j. i ≢ j) is × All (λ j. is_seen seen j ≡ false) is)
all-seen-set seen i [] b = (λ h. (tt, tt), λ h. tt)
all-seen-set seen i (j ∷ is) b =
    let here = seen-set seen i j b in
    let rest = all-seen-set seen i is b in
    (
      λ h. (((here.0 h.0).0, (rest.0 h.1).0), ((here.0 h.0).1, (rest.0 h.1).1)),
      λ h. (here.1 (h.0.0, h.1.0), rest.1 (h.0.1, h.1.1)),
    )

-- Indexes below the count, not seen yet and distinct.
pub record CanSelect (managed_count : ℕ) (seen : List Bool) (is : List ℕ) : Type 0 where
  pub bounded : All (λ i. i < managed_count) is
  pub fresh : All (λ i. is_seen seen i ≡ false) is
  pub distinct : Pairwise (λ (i j : ℕ). i ≢ j) is

pub select_each-CanSelect :
    (m : ℕ) (seen : List Bool) (is js : List ℕ)
    → length seen ≡ m
    → (select_each m seen is ≡ ok js) ↔ ((js ≡ is) × CanSelect m seen is)
unfolding select_each
select_each-CanSelect m seen [] js e = (
  λ h. (sym (ok_value h), record { bounded = tt; fresh = tt; distinct = tt }),
  λ h. ap ok (sym h.0),
)
select_each-CanSelect m seen (i ∷ is) js e =
    let seen' = set_elem seen i true in
    let same : length seen' ≡ m = length-set seen i ∙ e in
    (
      λ h.
          let (a, h1) =
            >>-ok (if leb m i then err (index_out_of_bounds "kdamond" i m) else done) _ h in
          let (b, h2) =
            >>-ok
              (invalid_if (is_seen seen i) "selected kdamond indexes" "must not contain duplicates")
              _ h1 in
          let (ks, s, h3) = >>=-ok (select_each m seen' is) _ h2 in
          let (k, c) = (select_each-CanSelect m seen' is ks same).0 s in
          let below : i < m = ground arith in
          let split = (all-seen-set seen i is (omega (arith, e, below))).0 c.fresh in
          (
            sym (ok_value h3) ∙ ap (λ r. i ∷ r) k,
            record {
              bounded = (below, c.bounded);
              fresh = (ground arith, split.1);
              distinct = (split.0, c.distinct);
            },
          ),
      λ v.
          let c = v.1 in
          let fresh =
            (all-seen-set seen i is (omega (arith, e, c.bounded.0))).1 (c.distinct.0, c.fresh.1) in
          let rest =
            (select_each-CanSelect m seen' is is same).1
              (refl, record { bounded = c.bounded.1; fresh = fresh; distinct = c.distinct.1 }) in
          ground (arith, c.bounded.0, c.fresh.0, rest, v.0),
    )

length-unseen : (n : ℕ) → length (unseen n) ≡ n
unfolding unseen
length-unseen zero = refl
length-unseen (suc n) = omega (arith, length-unseen n)

unseen_one : (n i : ℕ) → is_seen (unseen n) i ≡ false
unfolding unseen
unseen_one zero i = refl
unseen_one (suc n) zero = refl
unseen_one (suc n) (suc i) = unseen_one n i

unseen_fresh : (n : ℕ) (is : List ℕ) → All (λ i. is_seen (unseen n) i ≡ false) is
unseen_fresh n [] = tt
unseen_fresh n (i ∷ is) = (unseen_one n i, unseen_fresh n is)

-- The selection succeeds, with the indexes in the order of the request, exactly where the
-- requested configuration has as many kdamonds as are managed and the indexes are distinct and
-- below this count.
pub validate_selected_indices-IsSelection :
    (requested selected : List ℕ) (managed_count requested_count : ℕ)
    → (validate_selected_indices requested managed_count requested_count ≡ ok selected) ↔ (
        (selected ≡ requested)
        × (requested_count ≡ managed_count)
        × All (λ i. i < managed_count) requested
        × Pairwise (λ (i j : ℕ). i ≢ j) requested)
unfolding validate_selected_indices
validate_selected_indices-IsSelection requested selected m r =
    let each = select_each-CanSelect m (unseen m) requested selected (length-unseen m) in
    (
      λ h.
          let (a, h1) =
            >>-ok
              (invalid_if (not (r == m)) "managed hierarchy kdamond count"
                "must match the owned hierarchy")
              _ h in
          let v = each.0 h1 in (v.0, ground arith, v.1.bounded, v.1.distinct),
      λ v.
          let run =
            each.1
              (v.0, record { bounded = v.2; fresh = unseen_fresh m requested; distinct = v.3 }) in
          ground (arith, v.1, run),
    )
