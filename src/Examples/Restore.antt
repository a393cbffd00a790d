-- ===== src/Examples/Restore.antt =====
-- The restoration of a directory that its count rebuilds, on a kernel that refuses some values.
use damon_rs.Common.{
  ℕ, ◌≤◌, ◌<◌, ◌≡◌, ◌≢◌, ◌⊎◌, inl, inr, refl, ap, sym, ◌∙◌, subst, Bool, true, false, ◌&&◌, Option,
  none, some, List, [], ◌∷◌, arith, length, Bool-cases, if◌then◌else◌, codes, negsuc,
}
use damon_rs.Error.{Result, ok, err, not_running}
use damon_rs.Sysfs.{Sysfs}
use damon_rs.Sysfs.Paths.{FilePath, name_eq, path_eq, path_eq_iff, is_found, name_eq_iff}
use damon_rs.Sysfs.Ownership.{ConfigurationEntry, restore_except, is_reconstruction_count, depth}
use damon_rs.Sysfs.Ownership.Order.{Has, strip_prefix, last}
use damon_rs.Sysfs.Ownership.Restore.{restore_except-Restores}
use damon_rs.Sysfs.Ownership.Restore.Calm.{IsCalm, Distinct, Appears, Holds, EndsWith}

-- A count, and a file of the one directory that it may build.
record Kernel : Type 0 where
  count : List ℕ
  leaf : List ℕ

abbrev count_path : FilePath
count_path = codes "contexts" ∷ codes "nr_contexts" ∷ []

abbrev leaf_path : FilePath
leaf_path = codes "contexts" ∷ codes "0" ∷ codes "operations" ∷ []

abbrev content : FilePath → Kernel → Option (List ℕ)
content p w =
    if path_eq p count_path
    then some w.count
    else if path_eq p leaf_path && name_eq w.count (codes "1")
    then some w.leaf
    else none

-- Writing the count builds the directory anew; the leaf takes two values only.
abbrev kernel : Sysfs Kernel
kernel = record {
  display = λ p. "path";
  display_value = λ n. "number";
  read_trimmed = λ p w. (ok "off", w);
  read_usize = λ p w. (ok 1, w);
  read_i32 = λ p w. (ok (negsuc 0), w);
  writable_files = λ p w. (ok (count_path ∷ []), w);
  read_text = λ p w. (ok [], w);
  read_configuration_value_equals =
      λ p v w. elim (content p w) [ some c ↦ (ok (name_eq c v), w) | none ↦ (ok false, w) ];
  write_bytes = λ p v w.
      if path_eq p count_path
      then (ok tt, record { count = v; leaf = codes "vaddr" })
      else if path_eq p leaf_path && (name_eq w.count (codes "1") && name_eq v (codes "paddr"))
      then (ok tt, record w { leaf = v })
      else (err not_running, w);
  sleep = λ n w. w;
}

abbrev count_entry : ConfigurationEntry
count_entry = record { path = count_path; value = codes "1" }

abbrev leaf_entry : ConfigurationEntry
leaf_entry = record { path = leaf_path; value = codes "paddr" }

abbrev entries : List ConfigurationEntry
entries = leaf_entry ∷ count_entry ∷ []

each_entry :
    (P : ConfigurationEntry → Type 0)
    → P leaf_entry
    → P count_entry
    → (e : ConfigurationEntry) → Has e entries
    → P e
each_entry P l c e (inl a) = subst P (sym a) l
each_entry P l c e (inr (inl a)) = subst P (sym a) c
each_entry P l c e (inr (inr k)) = absurd k

leaf_count : path_eq leaf_path count_path ≡ false
unfolding path_eq name_eq
leaf_count = refl

count_count : path_eq count_path count_path ≡ true
unfolding path_eq name_eq
count_count = refl

leaf_leaf : path_eq leaf_path leaf_path ≡ true
unfolding path_eq name_eq
leaf_leaf = refl

paddr_itself : name_eq (codes "paddr") (codes "paddr") ≡ true
unfolding name_eq
paddr_itself = refl

path_apart : (p q : FilePath) → p ≢ q → path_eq p q ≡ false
path_apart p q n = elim (Bool-cases (path_eq p q)) [
  | inl e ↦ absurd (n ((path_eq_iff p q).0 e))
  | inr e ↦ e
]

content_count : (w : Kernel) → content count_path w ≡ some w.count
content_count w = rw count_count refl

content_leaf :
    (w : Kernel) → content leaf_path w ≡ (if name_eq w.count (codes "1") then some w.leaf else none)
content_leaf w = rw (leaf_count, leaf_leaf) refl

content_other : (q : FilePath) (w : Kernel) → q ≢ count_path → q ≢ leaf_path → content q w ≡ none
content_other q w n m = rw (path_apart q count_path n, path_apart q leaf_path m) refl

found :
    (o : Option (List ℕ)) (v c : List ℕ) (w w' : Kernel) (b : Bool)
    → o ≡ some c
    → (elim o as (λ _. Result Bool × Kernel) [
      | some d ↦ (ok (name_eq d v), w)
      | none ↦ (ok false, w)
    ])
      ≡ (ok b, w')
    → (b ≡ name_eq c v) × (w' ≡ w)
found none v c w w' b h k = cc h
found (some d) v c w w' b h k = (ground arith, ground arith)

-- What the kernel promises of one entry.
abbrev Stores : ConfigurationEntry → Type 0
Stores e =
    (c : List ℕ) (w w' : Kernel)
    → content e.path w ≡ some c
    → kernel.write_bytes e.path e.value w ≡ (ok tt, w')
    → (content e.path w' ≡ some e.value)
      × ((q : FilePath)
          → q ≢ e.path
          → (length (strip_prefix [] q) ≤ length (strip_prefix [] e.path))
            ⊎ (is_reconstruction_count e.path ≡ false)
          → content q w' ≡ content q w)

count_is : is_reconstruction_count count_path ≡ true
unfolding is_reconstruction_count name_eq last
count_is = refl

not_shallow : (q : FilePath) → length q ≤ 2 → q ≢ leaf_path
not_shallow q b e = let three = ap length e in absurd (omega (arith, three, b))

landed :
    (r : Result (Unit {0}) × Kernel) (built w' : Kernel)
    → r ≡ (ok tt, built)
    → r ≡ (ok tt, w')
    → built ≡ w'
landed r built w' h k = ap (λ (x : Result (Unit {0}) × Kernel). x.1) (sym h ∙ k)

rebuilt : Kernel
rebuilt = record { count = codes "1"; leaf = codes "vaddr" }

count-Stores : Stores count_entry
unfolding rebuilt strip_prefix
count-Stores c w w' h k =
    let same =
      landed (kernel.write_bytes count_path (codes "1") w) rebuilt w' (rw count_count refl) k in
    subst
      (λ (x : Kernel).
        (content count_path x ≡ some (codes "1"))
        × ((q : FilePath)
            → q ≢ count_path
            → (length (strip_prefix [] q) ≤ length (strip_prefix [] count_path))
              ⊎ (is_reconstruction_count count_path ≡ false)
            → content q x ≡ content q w))
      same
      (
        content_count rebuilt,
        λ q n d. elim d [
          | inl shallow ↦
              let m = not_shallow q (omega (arith, shallow)) in
              content_other q rebuilt n m ∙ sym (content_other q w n m)
          | inr plain ↦ cc (plain, count_is)
        ],
      )

leaf-Stores : Stores leaf_entry
leaf-Stores c w w' h k = elim (Bool-cases (name_eq w.count (codes "1"))) [
  | inr gone ↦
      let none_there : content leaf_path w ≡ none = content_leaf w ∙ rw gone refl in
      cc (h, none_there)
  | inl there ↦
      let put : Kernel = record w { leaf = codes "paddr" } in
      let same =
        landed (kernel.write_bytes leaf_path (codes "paddr") w) put w'
          (rw (leaf_count, leaf_leaf, there, paddr_itself) refl) k in
      subst
        (λ (x : Kernel).
          (content leaf_path x ≡ some (codes "paddr"))
          × ((q : FilePath)
              → q ≢ leaf_path
              → (length (strip_prefix [] q) ≤ length (strip_prefix [] leaf_path))
                ⊎ (is_reconstruction_count leaf_path ≡ false)
              → content q x ≡ content q w))
        same (content_leaf put ∙ rw there refl, λ q n d. rw (path_apart q leaf_path n) refl)
]

kernel-IsCalm : IsCalm kernel content [] entries
kernel-IsCalm = record {
  compares = λ e c w w' b m h k. found (content e.path w) e.value c w w' b h k;
  writes = λ e c w w' m h k. each_entry Stores leaf-Stores count-Stores e m c w w' h k;
}

entries-Distinct : Distinct entries
entries-Distinct a b h k same =
    each_entry (λ (x : ConfigurationEntry). x.path ≡ b.path → x ≡ b)
      (each_entry (λ (y : ConfigurationEntry). leaf_path ≡ y.path → leaf_entry ≡ y) (λ e. refl)
        (λ e. cc ((path_eq_iff leaf_path count_path).1 e, leaf_count)) b k)
      (each_entry (λ (y : ConfigurationEntry). count_path ≡ y.path → count_entry ≡ y)
        (λ e. cc ((path_eq_iff leaf_path count_path).1 (sym e), leaf_count)) (λ e. refl) b k)
      a h same

some_value : {a b : List ℕ} → some a ≡ some b → a ≡ b
some_value h = cc

entries-Appears : Appears content [] [] entries
unfolding is_found depth strip_prefix
entries-Appears e w m shallow =
    each_entry
      (λ (x : ConfigurationEntry).
        ((p : ConfigurationEntry) → Has p entries → depth [] p < depth [] x → Holds content [] w p)
        → (c : List ℕ) × (content x.path w ≡ some c))
      (λ held. elim (held count_entry (inr (inl refl)) (omega arith)) [
        | inl ignored ↦ absurd (ground arith)
        | inr one ↦
            let same = some_value (sym (content_count w) ∙ one) in
            (w.leaf, content_leaf w ∙ rw ((name_eq_iff w.count (codes "1")).1 same) refl)
      ])
      (λ held. (w.count, content_count w)) e m shallow

restore_except-Restores_example :
    EndsWith kernel entries tt
      (λ w'. (e : ConfigurationEntry) → Has e entries → Holds content [] w' e)
      (restore_except kernel
        (record { root = []; fingerprint = entries })
        []
        (record { count = codes "0"; leaf = codes "fvaddr" }))
restore_except-Restores_example =
    restore_except-Restores kernel content (record { root = []; fingerprint = entries }) []
      (record { count = codes "0"; leaf = codes "fvaddr" }) kernel-IsCalm entries-Distinct
      entries-Appears
