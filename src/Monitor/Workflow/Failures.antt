-- ===== src/Monitor/Workflow/Failures.antt =====
-- src/monitor/workflow.rs: the errors of staging that mean an operation or a filter the kernel does
-- not have.
use damon_rs.Common.{
  ◌↔◌, ◌++◌, sym, ◌∙◌, inl, inr, Bool-cases, arith, Bool, ◌≡◌, refl, ap, false, List, [], ◌∷◌, ◌==◌,
  if◌then◌else◌, codes, ◌&&◌, ◌||◌, any, true,
}
use damon_rs.Error.{
  Error, IoErrorKind, other, io, rollback, unsupported_operation, unsupported_feature,
}
use damon_rs.Abi.Operation.{Operation}
use damon_rs.Monitor.Persistent.Texts.{Component, normal, components}
use damon_rs.Sysfs.Paths.{Name, name_eq, name_eq_iff}

-- `classify_operation_staging_error`; `file_name` is the last component of a path's text.
abbrev last_component : List Component → Bool
last_component [] = false
last_component (normal n ∷ []) = name_eq n (codes "operations")
last_component (c ∷ []) = false
last_component (c ∷ d ∷ cs) = last_component (d ∷ cs)

-- `raw_os_error() == Some(22)`
abbrev is_invalid_argument : IoErrorKind → Bool
is_invalid_argument (other n) = n == 22
is_invalid_argument _ = false

unfoldable pub classify_operation_staging_error : Error → Operation → Error
unfolding components name_eq
classify_operation_staging_error (io call path kind) operation =
    if is_invalid_argument kind
    then if last_component (components (codes path))
      then unsupported_operation operation
      else io call path kind
    else io call path kind
classify_operation_staging_error (rollback failed restoration) operation =
    rollback (classify_operation_staging_error failed operation) restoration
classify_operation_staging_error error operation = error

-- `contains` of the standard library, on the bytes of a name.
abbrev pub is_prefix : Name → Name → Bool
is_prefix [] name = true
is_prefix (x ∷ xs) [] = false
is_prefix (x ∷ xs) (y ∷ ys) = x == y && is_prefix xs ys

abbrev pub contains : Name → Name → Bool
contains name [] = is_prefix name []
contains name (x ∷ xs) = is_prefix name (x ∷ xs) || contains name xs

-- A root, `.` or `..` contains no word.
abbrev mentions_filter : Component → Bool
mentions_filter (normal n) = contains (codes "filter") n
mentions_filter _ = false

unfoldable pub target_filter_is_unsupported : Error → Bool
unfolding components
target_filter_is_unsupported (unsupported_feature feature) = true
target_filter_is_unsupported (io call path kind) =
    is_invalid_argument kind && any mentions_filter (components (codes path))
target_filter_is_unsupported _ = false

-- The error that rollbacks wrap, and the errors of the restorations, outermost first.
abbrev pub root : Error → Error
root (rollback failed restoration) = root failed
root error = error

abbrev pub restorations : Error → List Error
restorations (rollback failed restoration) = restoration ∷ restorations failed
restorations error = []

-- A system call failed with the error number 22, EINVAL, on a path whose last component is
-- `operations`.
abbrev pub IsRefused : Error → Type 0
IsRefused (io call path kind) =
    (kind ≡ other 22)
    × ((before : List Component) × (components (codes path)
          ≡ before ++ normal (codes "operations") ∷ []))
IsRefused _ = ⊥

is_invalid_argument_iff :
    (kind : IoErrorKind) → (is_invalid_argument kind ≡ true) ↔ (kind ≡ other 22)
is_invalid_argument_iff kind = (λ h. ground arith, λ h. ground arith)

skip_first :
    (c d : Component) (cs : List Component) → last_component (c ∷ d ∷ cs) ≡ last_component (d ∷ cs)
skip_first _ d cs = refl

ends_with_operations :
    (cs : List Component)
    → last_component cs ≡ true
    → (before : List Component) × (cs ≡ before ++ normal (codes "operations") ∷ [])
ends_with_operations [] h = absurd (ground arith)
ends_with_operations (normal n ∷ []) h =
    ([], ap (λ m. normal m ∷ []) ((name_eq_iff n (codes "operations")).0 h))
ends_with_operations (c ∷ []) h = absurd (ground arith)
ends_with_operations (c ∷ d ∷ cs) h =
    let rest = ends_with_operations (d ∷ cs) (sym (skip_first c d cs) ∙ h) in
    (c ∷ rest.0, ap (λ l. c ∷ l) rest.1)

last_component-operations :
    (before : List Component) → last_component (before ++ normal (codes "operations") ∷ []) ≡ true
unfolding name_eq
last_component-operations [] = refl
last_component-operations (b ∷ []) =
    skip_first b (normal (codes "operations")) [] ∙ last_component-operations []
last_component-operations (b ∷ c ∷ before) =
    skip_first b c (before ++ normal (codes "operations") ∷ [])
    ∙ last_component-operations (c ∷ before)

classify-same :
    (error : Error) (operation : Operation)
    → ¬ IsRefused (root error)
    → classify_operation_staging_error error operation ≡ error
unfolding classify_operation_staging_error
classify-same (rollback failed restoration) operation h =
    ap (λ e. rollback e restoration) (classify-same failed operation h)
classify-same (io call path kind) operation h = elim (Bool-cases (is_invalid_argument kind)) [
  | inr n ↦ rw n refl
  | inl number ↦ elim (Bool-cases (last_component (components (codes path)))) [
    | inr n ↦ rw (number, n) refl
    | inl name ↦ absurd (
        h (
          (is_invalid_argument_iff kind).0 number,
          ends_with_operations (components (codes path)) name,
        ))
  ]
]
classify-same _ operation h = refl

root-classify :
    (error : Error) (operation : Operation)
    → IsRefused (root error)
    → root (classify_operation_staging_error error operation) ≡ unsupported_operation operation
unfolding classify_operation_staging_error
root-classify (rollback failed restoration) operation h = root-classify failed operation h
root-classify (io call path kind) operation h =
    let number = (is_invalid_argument_iff kind).1 h.0 in
    let name = ap last_component h.1.1 ∙ last_component-operations h.1.0 in rw (number, name) refl
root-classify _ operation h = absurd h

restorations-classify :
    (error : Error) (operation : Operation)
    → restorations (classify_operation_staging_error error operation) ≡ restorations error
unfolding classify_operation_staging_error
restorations-classify (rollback failed restoration) operation =
    ap (λ r. restoration ∷ r) (restorations-classify failed operation)
restorations-classify (io call path kind) operation = ground arith
restorations-classify _ operation = refl

-- Where the innermost error, under any rollbacks, is a failed system call with the error number
-- 22, EINVAL, on a path that ends in the component operations, it becomes the unsupported
-- operation. Any other error stays whole. The errors of the restorations stay in all cases.
pub classify-IsRefused :
    (error : Error) (operation : Operation)
    → (IsRefused (root error)
        → root (classify_operation_staging_error error operation) ≡ unsupported_operation operation)
      × (¬ IsRefused (root error) → classify_operation_staging_error error operation ≡ error)
      × (restorations (classify_operation_staging_error error operation) ≡ restorations error)
classify-IsRefused error operation = (
  root-classify error operation,
  classify-same error operation,
  restorations-classify error operation,
)
