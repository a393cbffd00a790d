-- ===== src/Monitor/Persistent/Codec.antt =====
-- The binary form of a receipt, of src/monitor/persistent.rs: `to_bytes`, and `from_bytes` with its
-- `Decoder`.
pub mod Reads
pub mod RoundTrip
pub mod Whole
use damon_rs.Common.{
  ℕ, zero, suc, ◌+◌, ◌-◌, ◌*◌, ◌/◌, ◌%◌, Bool, true, false, not, ◌&&◌, ◌||◌, Option, none, some,
  List, [], ◌∷◌, ◌++◌, length, take, ltb, leb, ◌==◌, if◌then◌else◌, u64_max, codes,
}
use damon_rs.Error.{Error, Result, ok, err, invalid_receipt}
use damon_rs.Error
use damon_rs.Config.Pid
use damon_rs.Config.Pid.{Pid}
use damon_rs.Sysfs.Actions.{Action, ◌>>=◌, ◌>>◌, pure, fail, unit, lift}
use damon_rs.Sysfs.Paths.{name_eq}
use damon_rs.Monitor.Persistent.{
  WritableConfigurationValue, PersistentKdamondIdentity, PersistentReceipt, refuse_if,
  path_contains_nul, validate_relative_path, validate_boot_id, validate_receipt_configuration,
}
use damon_rs.Monitor.Persistent.Texts.{is_absolute, is_utf8}

abbrev pub receipt_magic : List ℕ
receipt_magic = codes "DAMONR01"

abbrev pub receipt_version : ℕ
receipt_version = 1

-- `to_le_bytes` at a width, and `from_le_bytes`.
unfoldable pub le_bytes : ℕ → ℕ → List ℕ
le_bytes zero n = []
le_bytes (suc width) n = n % 256 ∷ le_bytes width (n / 256)

unfoldable pub from_le : List ℕ → ℕ
from_le [] = 0
from_le (b ∷ bs) = b + 256 * from_le bs

-- Each encoder gives the bytes that it appends to the output.
unfoldable pub encode_len : ℕ → Result (List ℕ)
encode_len n =
    if leb n u64_max
    then ok (le_bytes 8 n)
    else err (invalid_receipt "contains a value too large to serialize")

-- One encoder's bytes, and then another's.
abbrev pub append : Result (List ℕ) → Result (List ℕ) → Result (List ℕ)
append (err e) rest = err e
append (ok bytes) (err e) = err e
append (ok bytes) (ok more) = ok (bytes ++ more)

unfoldable pub encode_bytes : List ℕ → Result (List ℕ)
unfolding encode_len
encode_bytes bytes = append (encode_len (length bytes)) (ok bytes)

unfoldable pub encode_values : List WritableConfigurationValue → Result (List ℕ)
unfolding encode_bytes
encode_values [] = ok []
encode_values (v ∷ vs) =
    append (encode_bytes v.path) (append (encode_bytes v.value) (encode_values vs))

unfoldable pub encode_paths : List (List ℕ) → Result (List ℕ)
unfolding encode_bytes
encode_paths [] = ok []
encode_paths (p ∷ ps) = append (encode_bytes p) (encode_paths ps)

encode_index : ℕ → Result (List ℕ)
encode_index n =
    if leb n u64_max
    then ok (le_bytes 8 n)
    else err (invalid_receipt "a kdamond index cannot be serialized")

unfoldable pub encode_identities : List PersistentKdamondIdentity → Result (List ℕ)
unfolding encode_index
encode_identities [] = ok []
encode_identities (x ∷ xs) =
    append (encode_index x.index) (append (ok (le_bytes 4 x.pid.raw)) (encode_identities xs))

unfoldable pub to_bytes : PersistentReceipt → Result (List ℕ)
unfolding encode_bytes encode_len encode_values encode_paths encode_identities
to_bytes r = append (ok receipt_magic) (
    append (ok (le_bytes 4 receipt_version)) (
      append (encode_bytes r.admin_path) (
        append (encode_bytes r.lock_path) (
          append (encode_bytes r.boot_id) (
            append (encode_len (length r.writable_values)) (
              append (encode_values r.writable_values) (
                append (encode_len (length r.volatile_paths)) (
                  append (encode_paths r.volatile_paths) (
                    append (encode_len r.kdamond_count) (
                      append (encode_len (length r.identities))
                        (encode_identities r.identities)))))))))))

pub record Decoder : Type 0 where
  pub bytes : List ℕ
  pub offset : ℕ

unfoldable pub drop : ℕ → List ℕ → List ℕ
drop zero xs = xs
drop (suc n) [] = []
drop (suc n) (x ∷ xs) = drop n xs

-- `bytes.get(start..end)`, where the start is no later than the end
unfoldable pub get_range : List ℕ → ℕ → ℕ → Option (List ℕ)
unfolding drop
get_range bytes start end =
    if leb end (length bytes) then some (take (end - start) (drop start bytes)) else none

taken : Option (List ℕ) → ℕ → Action Decoder (List ℕ)
taken none end d = (err (invalid_receipt "is truncated"), d)
taken (some value) end d = (ok value, record d { offset = end })

unfoldable pub take_bytes : ℕ → Action Decoder (List ℕ)
unfolding taken get_range
take_bytes len d =
    if leb (d.offset + len) u64_max
    then taken (get_range d.bytes d.offset (d.offset + len)) (d.offset + len) d
    else (err (invalid_receipt "contains an overflowing length"), d)

unfoldable pub read_u32 : Action Decoder ℕ
unfolding take_bytes from_le
read_u32 = do bytes ← take_bytes 4; pure (from_le bytes)

unfoldable pub read_u64 : Action Decoder ℕ
unfolding take_bytes from_le
read_u64 = do bytes ← take_bytes 8; pure (from_le bytes)

-- A count that the rest of the bytes could hold.
possible : ℕ → Action Decoder ℕ
possible count d =
    if ltb (length d.bytes - d.offset) count
    then (err (invalid_receipt "contains an impossible element count"), d)
    else (ok count, d)

unfoldable pub read_count : Action Decoder ℕ
unfolding read_u64 possible
read_count = do count ← read_u64; possible count

unfoldable pub read_bytes : Action Decoder (List ℕ)
unfolding read_count take_bytes
read_bytes = do len ← read_count; take_bytes len

abbrev utf8 : List ℕ → Error → Result (List ℕ)
utf8 bytes e = if is_utf8 bytes then ok bytes else err e

unfoldable pub read_values : ℕ → Action Decoder (List WritableConfigurationValue)
unfolding read_bytes
read_values zero = pure []
read_values (suc n) =
    let rest = read_values n in
    do
      path ← read_bytes
      lift (validate_relative_path path)
      bytes ← read_bytes
      value ← lift (utf8 bytes (invalid_receipt "contains a non-UTF-8 configuration value"))
      later ← rest
      pure (record { path = path; value = value } ∷ later)

unfoldable pub read_paths : ℕ → Action Decoder (List (List ℕ))
unfolding read_bytes
read_paths zero = pure []
read_paths (suc n) =
    let rest = read_paths n in
    do path ← read_bytes; lift (validate_relative_path path); later ← rest; pure (path ∷ later)

-- `previous_index.is_some_and(|previous| previous >= index)`
abbrev not_after : Option ℕ → ℕ → Bool
not_after none i = false
not_after (some previous) i = leb i previous

abbrev thread : Result Pid → Result Pid
thread (ok p) = ok p
thread (err e) = err (invalid_receipt "contains an invalid kdamond kernel-thread ID")

unfoldable pub read_identities : ℕ → ℕ → Option ℕ → Action Decoder (List PersistentKdamondIdentity)
unfolding read_u64 read_u32
read_identities zero count previous = pure []
read_identities (suc n) count previous = do
  i ← read_u64
  lift (
      refuse_if (leb count i)
        (err (invalid_receipt "contains a running identity outside the hierarchy")))
  lift (
      refuse_if (not_after previous i)
        (err (invalid_receipt "running kdamond identities are not distinct and ordered")))
  raw ← read_u32
  p ← lift (thread (Pid.new raw))
  later ← read_identities n count (some i)
  pure (record { index = i; pid = p } ∷ later)

abbrev ended : Action Decoder (Unit {0})
ended d =
    if d.offset == length d.bytes
    then (ok tt, d)
    else (err (invalid_receipt "contains trailing data"), d)

-- The reading from the count of kdamonds on, after the other fields.
abbrev pub rest_reader :
    List ℕ
    → List ℕ
    → List ℕ
    → List WritableConfigurationValue
    → List (List ℕ)
    → Action Decoder PersistentReceipt
rest_reader admin lock boot values volatile = do
  count ← read_count
  lift (refuse_if (count == 0) (err (invalid_receipt "contains no configured kdamonds")))
  lift (validate_receipt_configuration values volatile count)
  identity_count ← read_count
  lift (
      refuse_if (ltb count identity_count)
        (err (invalid_receipt "contains more running identities than configured kdamonds")))
  identities ← read_identities identity_count count none
  ended
  pure (record {
    admin_path = admin;
    lock_path = lock;
    boot_id = boot;
    writable_values = values;
    volatile_paths = volatile;
    kdamond_count = count;
    identities = identities;
  })

-- The reading from the first list on.
abbrev pub lists_reader : List ℕ → List ℕ → List ℕ → Action Decoder PersistentReceipt
lists_reader admin lock boot = do
  value_count ← read_count
  values ← read_values value_count
  volatile_count ← read_count
  volatile ← read_paths volatile_count
  rest_reader admin lock boot values volatile

abbrev pub path_refusal : Result (Unit {0})
path_refusal =
    err (invalid_receipt "admin and lock paths must be absolute and contain no NUL bytes")

abbrev pub whole_reader : Action Decoder PersistentReceipt
whole_reader = do
  marker ← take_bytes (length receipt_magic)
  lift (
      refuse_if (not (name_eq marker receipt_magic))
        (err (invalid_receipt "has an invalid format marker")))
  version ← read_u32
  lift (
      refuse_if (not (version == receipt_version))
        (err (invalid_receipt "uses an unsupported format version")))
  admin ← read_bytes
  lock ← read_bytes
  boot_bytes ← read_bytes
  boot ← lift (utf8 boot_bytes (invalid_receipt "contains a non-UTF-8 boot identifier"))
  lift (
      refuse_if
        (not (is_absolute admin)
          || not (is_absolute lock)
          || path_contains_nul admin
          || path_contains_nul lock)
        path_refusal)
  lift (validate_boot_id boot)
  lists_reader admin lock boot

unfoldable pub from_bytes : List ℕ → Result PersistentReceipt
unfolding take_bytes read_u32 read_bytes read_count read_values read_paths read_identities
from_bytes bytes = (whole_reader (record { bytes = bytes; offset = 0 })).0
