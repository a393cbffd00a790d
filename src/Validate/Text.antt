-- ===== src/Validate/Text.antt =====
-- What the text checks accept.
use damon_rs.Common.{
  ℕ, ◌≤◌, ◌≡◌, ◌≢◌, ◌↔◌, refl, Bool, false, Option, none, some, String, List, [], ◌∷◌, codes, any,
  is_empty, All, arith,
}
use damon_rs.Error.{Result}
use damon_rs.Error.Checks.{Passes}
use damon_rs.Validate.{
  if_some, kernel_index_max, validate_count, is_blank, validate_token, is_separator,
  validate_sysfs_string, validate_required_path,
}

-- One non-empty word with no NUL and no ASCII white space.
pub record IsToken (s : String) : Type 0 where
  pub some_code : codes s ≢ []
  pub no_blank : All (λ c. (c ≢ 0) × (c ≢ 9) × (c ≢ 10) × (c ≢ 12) × (c ≢ 13) × (c ≢ 32)) (codes s)

-- One line with no NUL.
abbrev pub IsLine : String → Type 0
IsLine s = All (λ c. (c ≢ 10) × (c ≢ 13) × (c ≢ 0)) (codes s)

-- A path that is there and is one non-empty line.
abbrev pub IsPath : Option String → Type 0
IsPath none = ⊥
IsPath (some s) = (codes s ≢ []) × IsLine s

any-false :
    {P : ℕ → Type 0} (p : ℕ → Bool)
    → ((c : ℕ) → (p c ≡ false) ↔ P c)
    → (cs : List ℕ) → (any p cs ≡ false) ↔ All P cs
any-false p e [] = (λ h. tt, λ h. refl)
any-false {P} p e (c ∷ cs) = (
  λ h. ((e c).0 (ground arith), (any-false {P = P} p e cs).0 (ground arith)),
  λ h. ground (arith, (e c).1 h.0, (any-false {P = P} p e cs).1 h.1),
)

pub validate_count-le : (f : String) (n : ℕ) → Passes (validate_count f n) ↔ (n ≤ kernel_index_max)
unfolding validate_count
validate_count-le f n = (λ h. ground arith, λ h. ground arith)

blank_iff :
    (c : ℕ) → (is_blank c ≡ false) ↔ ((c ≢ 0) × (c ≢ 9) × (c ≢ 10) × (c ≢ 12) × (c ≢ 13) × (c ≢ 32))
unfolding is_blank
blank_iff c = (λ h. ground arith, λ h. ground arith)

separator_iff : (c : ℕ) → (is_separator c ≡ false) ↔ ((c ≢ 10) × (c ≢ 13) × (c ≢ 0))
unfolding is_separator
separator_iff c = (λ h. ground arith, λ h. ground arith)

is_empty-false : (cs : List ℕ) → (is_empty cs ≡ false) ↔ (cs ≢ [])
is_empty-false [] = (λ h. cc, λ h. absurd (h refl))
is_empty-false (c ∷ cs) = (λ h e. cc, λ h. refl)

pub validate_token-IsToken : (f s : String) → Passes (validate_token f s) ↔ IsToken s
unfolding validate_token
validate_token-IsToken f s =
    let empty = is_empty-false (codes s) in
    let blank = any-false is_blank blank_iff (codes s) in
    (
      λ h. record { some_code = empty.0 (ground arith); no_blank = blank.0 (ground arith) },
      λ h. ground (arith, empty.1 h.some_code, blank.1 h.no_blank),
    )

pub validate_sysfs_string-IsLine : (f s : String) → Passes (validate_sysfs_string f s) ↔ IsLine s
unfolding validate_sysfs_string
validate_sysfs_string-IsLine f s =
    let line = any-false is_separator separator_iff (codes s) in
    (λ h. line.0 (ground arith), λ h. ground (arith, line.1 h))

pub validate_required_path-IsPath :
    (f : String) (o : Option String) → Passes (validate_required_path f o) ↔ IsPath o
unfolding validate_required_path
validate_required_path-IsPath f none = (λ h. cc, λ h. absurd h)
validate_required_path-IsPath f (some s) =
    let empty = is_empty-false (codes s) in
    let line = validate_sysfs_string-IsLine f s in
    (
      λ h. (empty.0 (ground arith), line.0 (ground arith)),
      λ h. ground (arith, empty.1 h.0, line.1 h.1),
    )

abbrev pub Each {ℓ} : {A : Type ℓ} → Option A → (A → Type 0) → Type 0
Each none P = Unit
Each (some a) P = P a

pub if_some-Each {ℓ} :
    {A : Type ℓ} (check : A → Result (Unit {0})) (P : A → Type 0)
    → ((a : A) → Passes (check a) ↔ P a)
    → (o : Option A) → Passes (if_some o check) ↔ Each o P
if_some-Each check P e none = (λ h. tt, λ h. refl)
if_some-Each check P e (some a) = e a

pub path-Each : (o : Option String) → IsPath o → Each o IsLine
path-Each none h = tt
path-Each (some s) h = h.1
