-- ===== src/Examples/Receipt.antt =====
-- A receipt of one running kdamond, and one of thirty kdamonds of which one is recorded as running.
use damon_rs.Common.{ℕ, ◌≡◌, refl, List, [], ◌∷◌, arith, codes, parse_unsigned}
use damon_rs.Error.{Result, ok, err, invalid_receipt}
use damon_rs.Sysfs.Paths.{name_eq, name_lt}
use damon_rs.Sysfs.Ownership.Order.{sort_by}
use damon_rs.Monitor.Persistent.{
  PersistentReceipt, path_contains_nul, validate_relative_path, validate_boot_id, out_of_order,
  find_value, tuned_intervals_path, expected_volatile_paths, dedup_parts, all_parts_eq,
  validate_receipt_configuration,
}
use damon_rs.Monitor.Persistent.Texts.{
  is_absolute, components, is_normal, parts_eq, parts_lt, is_utf8, trim,
}
use damon_rs.Monitor.Persistent.Codec.{le_bytes, to_bytes, from_bytes}
use damon_rs.Monitor.Persistent.Codec.Whole.{
  IsReceipt, from_bytes-to_bytes, from_bytes-to_bytes_refused,
}

abbrev receipt_of : List ℕ → ℕ → PersistentReceipt
receipt_of text count = record {
  admin_path = codes "/sys";
  lock_path = codes "/run/lock";
  boot_id = codes "01234567-89ab-cdef-0123-456789abcdef";
  writable_values = record { path = codes "kdamonds/nr_kdamonds"; value = text } ∷ [];
  volatile_paths = [];
  kdamond_count = count;
  identities = record { index = 0; pid = record { raw = 7 } } ∷ [];
}

abbrev one_running : PersistentReceipt
one_running = receipt_of (codes "1") 1

abbrev thirty_staged : PersistentReceipt
thirty_staged = receipt_of (codes "30") 30

abbrev bytes_of : Result (List ℕ) → List ℕ
bytes_of (ok bytes) = bytes
bytes_of (err e) = []

one_running-IsReceipt : IsReceipt one_running
unfolding is_absolute path_contains_nul is_utf8 validate_boot_id validate_relative_path components
    is_normal validate_receipt_configuration out_of_order find_value parts_eq parts_lt trim
    parse_unsigned expected_volatile_paths tuned_intervals_path dedup_parts all_parts_eq name_eq
    name_lt sort_by
one_running-IsReceipt = record {
  admin_absolute = refl;
  lock_absolute = refl;
  admin_text = refl;
  lock_text = refl;
  boot_utf8 = refl;
  boot_valid = refl;
  values_valid = ((refl, refl), tt);
  volatile_valid = tt;
  some_kdamond = omega arith;
  configured = refl;
  few_identities = omega arith;
  identified = (omega arith, refl, omega arith, tt);
}

thirty_staged-IsReceipt : IsReceipt thirty_staged
unfolding is_absolute path_contains_nul is_utf8 validate_boot_id validate_relative_path components
    is_normal validate_receipt_configuration out_of_order find_value parts_eq parts_lt trim
    parse_unsigned expected_volatile_paths tuned_intervals_path dedup_parts all_parts_eq name_eq
    name_lt sort_by
thirty_staged-IsReceipt = record {
  admin_absolute = refl;
  lock_absolute = refl;
  admin_text = refl;
  lock_text = refl;
  boot_utf8 = refl;
  boot_valid = refl;
  values_valid = ((refl, refl), tt);
  volatile_valid = tt;
  some_kdamond = omega arith;
  configured = refl;
  few_identities = omega arith;
  identified = (omega arith, refl, omega arith, tt);
}

from_bytes-to_bytes_example : from_bytes (bytes_of (to_bytes one_running)) ≡ ok one_running
unfolding to_bytes le_bytes
from_bytes-to_bytes_example =
    from_bytes-to_bytes one_running one_running-IsReceipt (omega arith)
      (bytes_of (to_bytes one_running)) refl (omega arith)

from_bytes-to_bytes_refused_example :
    from_bytes (bytes_of (to_bytes thirty_staged))
    ≡ err (invalid_receipt "contains an impossible element count")
unfolding to_bytes le_bytes
from_bytes-to_bytes_refused_example =
    from_bytes-to_bytes_refused thirty_staged thirty_staged-IsReceipt (omega arith)
      (bytes_of (to_bytes thirty_staged)) refl (omega arith)
