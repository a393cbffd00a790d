-- ===== src/Sysfs/Ownership/Order.antt =====
-- The standard library's functions on slices that src/sysfs/ownership.rs uses, and what a sort
-- keeps and orders.
use damon_rs.Common.{
  ℕ, ◌≤◌, ◌≡◌, ◌↔◌, ◌⊎◌, inl, inr, Bool, true, false, Option, none, some, List, [], ◌∷◌, arith,
  Bool-cases, All, Pairwise, if◌then◌else◌,
}
use damon_rs.Sysfs.Paths.{Name, FilePath, name_eq, path_eq}

module _ {A : Type 0} where
  -- `sort_unstable_by`, where keys differ
  unfoldable pub insert_by : (A → A → Bool) → A → List A → List A
  insert_by less x [] = x ∷ []
  insert_by less x (y ∷ ys) =
      let later = insert_by less x ys in if less y x then y ∷ later else x ∷ y ∷ ys

  unfoldable pub sort_by : (A → A → Bool) → List A → List A
  unfolding insert_by
  sort_by less [] = []
  sort_by less (x ∷ xs) = insert_by less x (sort_by less xs)

  unfoldable pub filter_by : (A → Bool) → List A → List A
  filter_by keep [] = []
  filter_by keep (x ∷ xs) = let rest = filter_by keep xs in if keep x then x ∷ rest else rest

  -- `partition_point` and the rest of the slice
  unfoldable pub drop_while : (A → Bool) → List A → List A
  drop_while test [] = []
  drop_while test (x ∷ xs) = let rest = drop_while test xs in if test x then rest else x ∷ xs

  unfoldable pub take_while : (A → Bool) → List A → List A
  take_while test [] = []
  take_while test (x ∷ xs) = let rest = take_while test xs in if test x then x ∷ rest else []

unfoldable pub dedup : List FilePath → List FilePath
dedup [] = []
dedup (p ∷ []) = p ∷ []
dedup (p ∷ q ∷ paths) = let rest = dedup (q ∷ paths) in if path_eq p q then rest else p ∷ rest

-- `file_name` and `parent`
unfoldable pub last : FilePath → Option Name
last [] = none
last (p ∷ []) = some p
last (p ∷ q ∷ path) = last (q ∷ path)

unfoldable pub parent : FilePath → FilePath
parent [] = []
parent (p ∷ []) = []
parent (p ∷ q ∷ path) = p ∷ parent (q ∷ path)

strip_from : FilePath → FilePath → FilePath → FilePath
strip_from whole [] path = path
strip_from whole (r ∷ root) [] = whole
strip_from whole (r ∷ root) (p ∷ path) =
    let rest = strip_from whole root path in if name_eq r p then rest else whole

-- `path.strip_prefix(root).unwrap_or(path)`
unfoldable pub strip_prefix : FilePath → FilePath → FilePath
unfolding strip_from
strip_prefix root path = strip_from path root path

module _ {A : Type 0} where
  abbrev pub Has : A → List A → Type 0
  Has x [] = ⊥
  Has x (y ∷ ys) = (x ≡ y) ⊎ Has x ys

  pub Has-insert_by :
      (less : A → A → Bool) (x : A) (ys : List A) (z : A)
      → Has z (insert_by less x ys) ↔ ((z ≡ x) ⊎ Has z ys)
  unfolding insert_by
  Has-insert_by less x [] z = (λ h. h, λ h. h)
  Has-insert_by less x (y ∷ ys) z =
      let ih = Has-insert_by less x ys z in (λ h. ground (arith, ih), λ h. ground (arith, ih))

  pub Has-sort_by : (less : A → A → Bool) (xs : List A) (z : A) → Has z (sort_by less xs) ↔ Has z xs
  unfolding sort_by
  Has-sort_by less [] z = (λ h. h, λ h. h)
  Has-sort_by less (x ∷ xs) z =
      let ih = Has-sort_by less xs z in
      let step = Has-insert_by less x (sort_by less xs) z in
      (λ h. ground (arith, ih, step), λ h. ground (arith, ih, step))

  -- A sort by an order that refines a measure orders the measures.
  module _ (less : A → A → Bool) (measure : A → ℕ)
      (below : (a b : A) → less a b ≡ true → measure a ≤ measure b)
      (above : (a b : A) → less a b ≡ false → measure b ≤ measure a) where
    abbrev Below : A → A → Type 0
    Below a b = measure a ≤ measure b

    All-Below :
        (a b : A) (xs : List A) → measure a ≤ measure b → All (Below b) xs → All (Below a) xs
    All-Below a b [] h k = tt
    All-Below a b (x ∷ xs) h k = (omega (arith, k.0), All-Below a b xs h k.1)

    All-insert_by :
        (a x : A) (ys : List A)
        → measure a ≤ measure x
        → All (Below a) ys
        → All (Below a) (insert_by less x ys)
    unfolding insert_by
    All-insert_by a x [] h k = (h, tt)
    All-insert_by a x (y ∷ ys) h k = elim (Bool-cases (less y x)) [
      | inl e ↦ rw e (k.0, All-insert_by a x ys h k.1)
      | inr e ↦ rw e (h, k)
    ]

    Pairwise-insert_by :
        (x : A) (ys : List A) → Pairwise Below ys → Pairwise Below (insert_by less x ys)
    unfolding insert_by
    Pairwise-insert_by x [] h = (tt, tt)
    Pairwise-insert_by x (y ∷ ys) h = elim (Bool-cases (less y x)) [
      | inl e ↦ rw e (All-insert_by y x ys (below y x e) h.0, Pairwise-insert_by x ys h.1)
      | inr e ↦ rw e ((above y x e, All-Below x y ys (above y x e) h.0), h)
    ]

    pub Pairwise-sort_by : (xs : List A) → Pairwise Below (sort_by less xs)
    unfolding sort_by
    Pairwise-sort_by [] = tt
    Pairwise-sort_by (x ∷ xs) = Pairwise-insert_by x (sort_by less xs) (Pairwise-sort_by xs)
