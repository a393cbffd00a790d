-- ===== src/Monitor/Persistent.antt =====
-- `PersistentReceipt` of src/monitor/persistent.rs: its data and its validation. A path is the list
-- of its bytes, and a text the list of its bytes in UTF-8; `usize` has 64 bits.
pub mod Texts
pub mod Codec
use damon_rs.Common.{
  ℕ, zero, suc, Bool, true, false, not, ◌&&◌, ◌||◌, Option, none, some, List, [], ◌∷◌, ◌++◌, any,
  all, length, ltb, leb, ◌==◌, if◌then◌else◌, u64_max, parse_unsigned, codes,
}
use damon_rs.Error.{Result, ok, err, ◌>>=◌, ◌>>◌, ok_or, invalid_receipt}
use damon_rs.Config.Pid.{Pid}
use damon_rs.Sysfs.Ownership.Order.{sort_by}
use Texts.{Component, normal, components, is_normal, is_absolute, parts_eq, parts_lt, trim}

pub record WritableConfigurationValue : Type 0 where
  pub path : List ℕ
  pub value : List ℕ

pub record PersistentKdamondIdentity : Type 0 where
  pub index : ℕ
  pub pid : Pid

pub record PersistentReceipt : Type 0 where
  pub admin_path : List ℕ
  pub lock_path : List ℕ
  pub boot_id : List ℕ
  pub writable_values : List WritableConfigurationValue
  pub volatile_paths : List (List ℕ)
  pub kdamond_count : ℕ
  pub identities : List PersistentKdamondIdentity

-- `if test { return Err(Error::InvalidReceipt { reason }); }`
abbrev pub refuse_if : Bool → Result (Unit {0}) → Result (Unit {0})
refuse_if true refusal = refusal
refuse_if false refusal = ok tt

unfoldable pub path_contains_nul : List ℕ → Bool
path_contains_nul path = any (λ b. b == 0) path

unfoldable pub validate_relative_path : List ℕ → Result (Unit {0})
unfolding path_contains_nul
validate_relative_path path =
    refuse_if
      (length path == 0
        || is_absolute path
        || path_contains_nul path
        || not (all is_normal (components path)))
      (err (invalid_receipt "contains a non-relative configuration path"))

is_hex_digit : ℕ → Bool
is_hex_digit b = (leb 48 b && leb b 57) || (leb 65 b && leb b 70) || (leb 97 b && leb b 102)

-- The bytes from an index.
boot_id_from : ℕ → List ℕ → Bool
unfolding is_hex_digit
boot_id_from i [] = true
boot_id_from i (b ∷ bs) =
    (if i == 8 || i == 13 || i == 18 || i == 23 then b == 45 else is_hex_digit b)
    && boot_id_from (suc i) bs

unfoldable pub validate_boot_id : List ℕ → Result (Unit {0})
unfolding boot_id_from
validate_boot_id value =
    refuse_if (not ((length value == 36) && boot_id_from 0 value))
      (err (invalid_receipt "contains an invalid Linux boot identifier"))

-- `windows(2).any(left >= right)`, on the components
unfoldable pub out_of_order : List (List Component) → Bool
out_of_order [] = false
out_of_order (p ∷ []) = false
out_of_order (p ∷ q ∷ paths) = not (parts_lt p q) || out_of_order (q ∷ paths)

-- `binary_search_by` of a path in the ordered values
unfoldable pub find_value :
    List Component → List WritableConfigurationValue → Option WritableConfigurationValue
find_value path [] = none
find_value path (v ∷ values) =
    let rest = find_value path values in if parts_eq (components v.path) path then some v else rest

abbrev is_number : Component → Bool
is_number (normal n) = elim (parse_unsigned u64_max n) [ none ↦ false | some i ↦ true ]
is_number _ = false

abbrev is_number_below : ℕ → Component → Bool
is_number_below count (normal n) = elim (parse_unsigned u64_max n) [
  | none ↦ false
  | some i ↦ ltb i count
]
is_number_below count _ = false

-- The components of the intervals' directory, where a path is that of a context's `aggrs`.
unfoldable pub tuned_intervals_path : List Component → ℕ → Option (List Component)
tuned_intervals_path (a ∷ i ∷ c ∷ j ∷ d ∷ e ∷ f ∷ g ∷ []) count =
    if parts_eq (a ∷ []) (normal (codes "kdamonds") ∷ [])
      && is_number_below count i
      && parts_eq (c ∷ []) (normal (codes "contexts") ∷ [])
      && is_number j
      && parts_eq (d ∷ e ∷ f ∷ g ∷ []) (
          normal (codes "monitoring_attrs")
          ∷ normal (codes "intervals")
          ∷ normal (codes "intervals_goal")
          ∷ normal (codes "aggrs")
          ∷ [])
    then some (a ∷ i ∷ c ∷ j ∷ d ∷ e ∷ [])
    else none
tuned_intervals_path _ count = none

-- The paths of one value, the `aggrs` of a context.
tuned_paths :
    List WritableConfigurationValue → List Component → List ℕ → Result (List (List Component))
tuned_paths values intervals value = do
  count ←
      ok_or (parse_unsigned u64_max (trim value))
        (invalid_receipt "contains an invalid interval-goal aggregation count")
  let aggregation = intervals ++ normal (codes "aggr_us") ∷ []
  let sampling = intervals ++ normal (codes "sample_us") ∷ []
  if count == 0 then ok [] else (do
    first ←
        ok_or (find_value aggregation values)
          (invalid_receipt "omits an auto-tuned writable interval")
    second ←
        ok_or (find_value sampling values) (invalid_receipt "omits an auto-tuned writable interval")
    ok (aggregation ∷ sampling ∷ []))

collect_tuned :
    List WritableConfigurationValue
    → ℕ
    → List WritableConfigurationValue
    → Result (List (List Component))
unfolding tuned_paths
collect_tuned values count [] = ok []
collect_tuned values count (v ∷ vs) =
    let rest = collect_tuned values count vs in
    elim (tuned_intervals_path (components v.path) count) [
      | none ↦ rest
      | some intervals ↦
          tuned_paths values intervals v.value >>= λ here. rest >>= λ later. ok (here ++ later)
    ]

unfoldable pub dedup_parts : List (List Component) → List (List Component)
dedup_parts [] = []
dedup_parts (p ∷ []) = p ∷ []
dedup_parts (p ∷ q ∷ paths) =
    let rest = dedup_parts (q ∷ paths) in if parts_eq p q then rest else p ∷ rest

unfoldable pub expected_volatile_paths :
    List WritableConfigurationValue → ℕ → Result (List (List Component))
unfolding collect_tuned
expected_volatile_paths values count = do
  paths ← collect_tuned values count values
  ok (dedup_parts (sort_by parts_lt paths))

unfoldable pub all_parts_eq : List (List ℕ) → List (List Component) → Bool
all_parts_eq [] [] = true
all_parts_eq [] (q ∷ qs) = false
all_parts_eq (p ∷ ps) [] = false
all_parts_eq (p ∷ ps) (q ∷ qs) = parts_eq (components p) q && all_parts_eq ps qs

abbrev value_parts : List WritableConfigurationValue → List (List Component)
value_parts [] = []
value_parts (v ∷ vs) = components v.path ∷ value_parts vs

abbrev path_parts : List (List ℕ) → List (List Component)
path_parts [] = []
path_parts (p ∷ ps) = components p ∷ path_parts ps

unfoldable pub validate_receipt_configuration :
    List WritableConfigurationValue → List (List ℕ) → ℕ → Result (Unit {0})
unfolding expected_volatile_paths
validate_receipt_configuration values volatile count = do
  refuse_if (out_of_order (value_parts values))
      (err (invalid_receipt "writable configuration paths are not distinct and ordered"))
  refuse_if (out_of_order (path_parts volatile))
      (err (invalid_receipt "volatile configuration paths are not distinct and ordered"))
  entry ←
      ok_or (find_value (normal (codes "kdamonds") ∷ normal (codes "nr_kdamonds") ∷ []) values)
        (invalid_receipt "does not contain the kdamond count")
  recorded ←
      ok_or (parse_unsigned u64_max (trim entry.value))
        (invalid_receipt "contains an invalid writable kdamond count")
  refuse_if (not (recorded == count)) (err (invalid_receipt "contains inconsistent kdamond counts"))
  expected ← expected_volatile_paths values count
  refuse_if (not (all_parts_eq volatile expected))
      (err (invalid_receipt "contains inconsistent auto-tuned interval paths"))
