-- ===== src/Monitor/Persistent/Codec/Whole.antt =====
-- A whole receipt of src/monitor/persistent.rs, written and read back.
use damon_rs.Common.{
  ℕ, ◌+◌, ◌*◌, ◌≤◌, ◌<◌, ◌≡◌, refl, sym, ap, ◌∙◌, subst, not, ◌||◌, true, false, none, List, [],
  ◌∷◌, ◌++◌, length, length-append, arith, All, ltb, ◌==◌, u64_max,
}
use mathlib.Core.List.{append_assoc, append-nil}
use damon_rs.Error.{Result, ok, err, invalid_receipt}
use damon_rs.Sysfs.Actions.{Action, after, ◌>>=◌, ◌>>◌, pure, lift}
use damon_rs.Sysfs.Paths.{name_eq, name_eq_iff}
use damon_rs.Monitor.Persistent.{
  WritableConfigurationValue, PersistentKdamondIdentity, PersistentReceipt, refuse_if,
  path_contains_nul, validate_relative_path, validate_boot_id, validate_receipt_configuration,
}
use damon_rs.Monitor.Persistent.Texts.{is_absolute, is_utf8}
use damon_rs.Monitor.Persistent.Codec.{
  receipt_magic, receipt_version, le_bytes, append, encode_len, encode_bytes, encode_values,
  encode_paths, encode_index, encode_identities, to_bytes, Decoder, take_bytes, read_u32,
  read_count, read_bytes, utf8, read_values, read_paths, read_identities, ended, rest_reader,
  lists_reader, path_refusal, whole_reader, from_bytes,
}
use damon_rs.Monitor.Persistent.Codec.Reads.{
  at, Reads, Encodes, take_bytes-Reads, read_count_refused, after_err, append_parts,
  length-le_bytes,
}
use damon_rs.Monitor.Persistent.Codec.RoundTrip.{
  encode_len_lem, encode_len-Encodes, encode_bytes-Encodes, encode_values-Encodes,
  encode_paths-Encodes, encode_identities-Encodes, raw-Encodes, utf8_lem, IsValue, AreIdentities,
}

-- What `from_bytes` asks of a receipt.
pub record IsReceipt (r : PersistentReceipt) : Type 0 where
  pub admin_absolute : is_absolute r.admin_path ≡ true
  pub lock_absolute : is_absolute r.lock_path ≡ true
  pub admin_text : path_contains_nul r.admin_path ≡ false
  pub lock_text : path_contains_nul r.lock_path ≡ false
  pub boot_utf8 : is_utf8 r.boot_id ≡ true
  pub boot_valid : validate_boot_id r.boot_id ≡ ok tt
  pub values_valid : All IsValue r.writable_values
  pub volatile_valid : All (λ p. validate_relative_path p ≡ ok tt) r.volatile_paths
  pub some_kdamond : 0 < r.kdamond_count
  pub configured :
      validate_receipt_configuration r.writable_values r.volatile_paths r.kdamond_count ≡ ok tt
  pub few_identities : length r.identities ≤ r.kdamond_count
  pub identified : AreIdentities r.kdamond_count none r.identities

-- The action ends so on an encoder's bytes, with no more behind them.
abbrev EncodesAll : {A : Type 0} → Action Decoder A → Result (List ℕ) → Result A → Type 0
EncodesAll m encoded out =
    (e before : List ℕ)
    → encoded ≡ ok e
    → length (before ++ e) ≤ u64_max
    → (m (at before e)).0 ≡ out

append-EncodesAll :
    {A B : Type 0} (need : ℕ) (m : Action Decoder A) (f : A → Action Decoder B)
    (x y : Result (List ℕ)) (a : A) (out : Result B)
    → Encodes need m x a
    → ((e : List ℕ) → y ≡ ok e → need ≤ length e)
    → EncodesAll (f a) y out
    → EncodesAll (m >>= f) (append x y) out
append-EncodesAll need m f x y a out first enough second e before h fits =
    let parts = append_parts x y e h in
    let bound = subst (λ (t : List ℕ). length (before ++ t) ≤ u64_max) parts.4 fits in
    let whole = append_assoc before parts.0 parts.1 in
    let one = first parts.0 parts.2 before parts.1 (enough parts.1 parts.3) bound in
    let two =
      second parts.1 (before ++ parts.0) parts.3
        (subst (λ (t : List ℕ). length t ≤ u64_max) (sym whole) bound) in
    ap (λ (t : List ℕ). ((m >>= f) (at before t)).0) parts.4
    ∙ ap (λ (t : Result _ × Decoder). (after t f).0) one
    ∙ two

lift-EncodesAll :
    {A B : Type 0} (r : Result A) (a : A) (f : A → Action Decoder B) (x : Result (List ℕ))
    (out : Result B)
    → r ≡ ok a
    → EncodesAll (f a) x out
    → EncodesAll (lift r >>= f) x out
lift-EncodesAll r a f x out h next e before k fits =
    ap (λ (t : Result _). (after (t, at before e) f).0) h ∙ next e before k fits

last-EncodesAll :
    {A B : Type 0} (m : Action Decoder A) (f : A → Action Decoder B) (x : Result (List ℕ)) (a : A)
    (out : Result B)
    → Encodes 0 m x a
    → ((before : List ℕ) → (f a (at before [])).0 ≡ out)
    → EncodesAll (m >>= f) x out
last-EncodesAll m f x a out first last e before h fits =
    let none_left = append-nil e in
    let one =
      first e h before [] (omega arith)
        (subst (λ (t : List ℕ). length (before ++ t) ≤ u64_max) (sym none_left) fits) in
    ap (λ (t : List ℕ). ((m >>= f) (at before t)).0) (sym none_left)
    ∙ ap (λ (t : Result _ × Decoder). (after t f).0) one
    ∙ last (before ++ e)

append_long :
    (x y : Result (List ℕ)) (e : List ℕ) (n k : ℕ)
    → append x y ≡ ok e
    → ((a : List ℕ) → x ≡ ok a → n ≤ length a)
    → ((b : List ℕ) → y ≡ ok b → k ≤ length b)
    → n + k ≤ length e
append_long x y e n k h first second =
    let parts = append_parts x y e h in
    let whole = ap length parts.4 in
    omega (arith, length-append parts.0 parts.1, first parts.0 parts.2, second parts.1 parts.3)

encode_len_long : (n : ℕ) (e : List ℕ) → encode_len n ≡ ok e → 8 ≤ length e
encode_len_long n e h =
    let len = encode_len_lem n e h in
    let long = ap length len.1 ∙ length-le_bytes 8 n in omega arith

encode_bytes_long : (bytes e : List ℕ) → encode_bytes bytes ≡ ok e → 8 ≤ length e
unfolding encode_bytes
encode_bytes_long bytes e h =
    append_long (encode_len (length bytes)) (ok bytes) e 8 0 h (encode_len_long (length bytes))
      (λ b k. omega arith)

encode_values_long :
    (vs : List WritableConfigurationValue) (e : List ℕ)
    → encode_values vs ≡ ok e
    → length vs ≤ length e
unfolding encode_values
encode_values_long [] e h = omega arith
encode_values_long (v ∷ vs) e h =
    let long =
      append_long (encode_bytes v.path) (append (encode_bytes v.value) (encode_values vs)) e 8
        (8 + length vs) h (encode_bytes_long v.path)
        (λ b k.
          append_long (encode_bytes v.value) (encode_values vs) b 8 (length vs) k
            (encode_bytes_long v.value) (encode_values_long vs)) in
    omega arith

encode_paths_long :
    (ps : List (List ℕ)) (e : List ℕ) → encode_paths ps ≡ ok e → length ps ≤ length e
unfolding encode_paths
encode_paths_long [] e h = omega arith
encode_paths_long (p ∷ ps) e h =
    let long =
      append_long (encode_bytes p) (encode_paths ps) e 8 (length ps) h (encode_bytes_long p)
        (encode_paths_long ps) in
    omega arith

encode_index_long : (n : ℕ) (e : List ℕ) → encode_index n ≡ ok e → 8 ≤ length e
unfolding encode_index
encode_index_long n e h =
    let bytes : e ≡ le_bytes 8 n = ground arith in
    let long = ap length bytes ∙ length-le_bytes 8 n in omega arith

raw_long : (n : ℕ) (e : List ℕ) → ok (le_bytes 4 n) ≡ ok e → 4 ≤ length e
raw_long n e h =
    let bytes : e ≡ le_bytes 4 n = ground arith in
    let long = ap length bytes ∙ length-le_bytes 4 n in omega arith

encode_identities_long :
    (xs : List PersistentKdamondIdentity) (e : List ℕ)
    → encode_identities xs ≡ ok e
    → 12 * length xs ≤ length e
unfolding encode_identities
encode_identities_long [] e h = omega arith
encode_identities_long (x ∷ xs) e h =
    let long =
      append_long (encode_index x.index) (append (ok (le_bytes 4 x.pid.raw)) (encode_identities xs))
        e 8 (4 + 12 * length xs) h (encode_index_long x.index)
        (λ b k.
          append_long (ok (le_bytes 4 x.pid.raw)) (encode_identities xs) b 4 (12 * length xs) k
            (raw_long x.pid.raw) (encode_identities_long xs)) in
    omega arith

encode_len_exact : (n : ℕ) (e : List ℕ) → encode_len n ≡ ok e → length e ≡ 8
encode_len_exact n e h = ap length (encode_len_lem n e h).1 ∙ length-le_bytes 8 n

encode_identities_exact :
    (xs : List PersistentKdamondIdentity) (e : List ℕ)
    → encode_identities xs ≡ ok e
    → length e ≡ 12 * length xs
unfolding encode_identities encode_index
encode_identities_exact [] e h = (let none_left : e ≡ [] = ground arith in ap length none_left)
encode_identities_exact (x ∷ xs) e h =
    let first =
      append_parts (encode_index x.index)
        (append (ok (le_bytes 4 x.pid.raw)) (encode_identities xs)) e h in
    let second = append_parts (ok (le_bytes 4 x.pid.raw)) (encode_identities xs) first.1 first.3 in
    let index_bytes : first.0 ≡ le_bytes 8 x.index = (let here = first.2 in ground arith) in
    let raw_bytes : second.0 ≡ le_bytes 4 x.pid.raw = (let here = second.2 in ground arith) in
    omega (
      arith,
      ap length first.4,
      ap length second.4,
      length-append first.0 first.1,
      length-append second.0 second.1,
      ap length index_bytes ∙ length-le_bytes 8 x.index,
      ap length raw_bytes ∙ length-le_bytes 4 x.pid.raw,
      encode_identities_exact xs second.1 second.3,
    )

ended_at : {A : Type 0} (a : A) (before : List ℕ) → ((ended >> pure a) (at before [])).0 ≡ ok a
ended_at a before =
    let all_read = ap length (append-nil before) in
    let same : (length before == length (before ++ [])) ≡ true = ground arith in rw same refl

bytes-EncodesAll :
    {B : Type 0} (bytes : List ℕ) (f : List ℕ → Action Decoder B) (y : Result (List ℕ))
    (out : Result B)
    → EncodesAll (f bytes) y out
    → EncodesAll (read_bytes >>= f) (append (encode_bytes bytes) y) out
bytes-EncodesAll bytes f y out next =
    append-EncodesAll 0 read_bytes f (encode_bytes bytes) y bytes out (encode_bytes-Encodes bytes)
      (λ e k. omega arith) next

take_marker : Encodes 0 (take_bytes (length receipt_magic)) (ok receipt_magic) receipt_magic
take_marker e k =
    subst (λ (t : List ℕ). Reads 0 (take_bytes (length receipt_magic)) t receipt_magic)
      (ground arith) (take_bytes-Reads receipt_magic)

-- The paths of a receipt pass the test.
paths_pass :
    (r : PersistentReceipt)
    → IsReceipt r
    → (not (is_absolute r.admin_path)
        || not (is_absolute r.lock_path)
        || path_contains_nul r.admin_path
        || path_contains_nul r.lock_path)
      ≡ false
paths_pass r v =
    rw (v.admin_absolute) (rw (v.lock_absolute) (rw (v.admin_text) (rw (v.lock_text) refl)))

module _ (r : PersistentReceipt) (v : IsReceipt r) where
  -- The bytes from the count of kdamonds on.
  abbrev tail_bytes : Result (List ℕ)
  tail_bytes =
      append (encode_len r.kdamond_count)
        (append (encode_len (length r.identities)) (encode_identities r.identities))

  abbrev tail_reader : Action Decoder PersistentReceipt
  tail_reader = rest_reader r.admin_path r.lock_path r.boot_id r.writable_values r.volatile_paths

  tail_read :
      r.kdamond_count ≤ 8 + 12 * length r.identities → EncodesAll tail_reader tail_bytes (ok r)
  tail_read enough =
      let ids = encode_identities r.identities in
      let positive = v.some_kdamond in
      let few = v.few_identities in
      append-EncodesAll r.kdamond_count read_count _ (encode_len r.kdamond_count)
        (append (encode_len (length r.identities)) ids) r.kdamond_count (ok r)
        (encode_len-Encodes r.kdamond_count)
        (λ e k.
          let long =
            append_long (encode_len (length r.identities)) ids e 8 (12 * length r.identities) k
              (encode_len_long (length r.identities)) (encode_identities_long r.identities) in
          omega arith)
        (lift-EncodesAll (refuse_if (r.kdamond_count == 0) _) tt _ _ (ok r) (ground arith) (
          lift-EncodesAll
            (validate_receipt_configuration r.writable_values r.volatile_paths r.kdamond_count) tt _
            _ (ok r) v.configured
            (append-EncodesAll (length r.identities) read_count _ (encode_len (length r.identities))
              ids (length r.identities) (ok r) (encode_len-Encodes (length r.identities))
              (λ e k. let long = encode_identities_long r.identities e k in omega arith)
              (lift-EncodesAll (refuse_if (ltb r.kdamond_count (length r.identities)) _) tt _ _
                (ok r) (ground arith)
                (last-EncodesAll (read_identities (length r.identities) r.kdamond_count none) _ ids
                  r.identities (ok r)
                  (encode_identities-Encodes r.identities r.kdamond_count none v.identified)
                  (ended_at r))))))

  -- The two lists, each with its count.
  decode_lists :
      (out : Result PersistentReceipt)
      → EncodesAll tail_reader tail_bytes out
      → EncodesAll
          (lists_reader r.admin_path r.lock_path r.boot_id)
          (append (encode_len (length r.writable_values)) (
            append (encode_values r.writable_values) (
              append
                (encode_len (length r.volatile_paths))
                (append (encode_paths r.volatile_paths) tail_bytes))))
          out
  decode_lists out tail =
      append-EncodesAll (length r.writable_values) read_count _
        (encode_len (length r.writable_values)) _ (length r.writable_values) out
        (encode_len-Encodes (length r.writable_values))
        (λ e k.
          let long =
            append_long (encode_values r.writable_values) _ e (length r.writable_values) 0 k
              (encode_values_long r.writable_values) (λ b h. omega arith) in
          omega arith)
        (append-EncodesAll 0 (read_values (length r.writable_values)) _
          (encode_values r.writable_values) _ r.writable_values out
          (encode_values-Encodes r.writable_values v.values_valid) (λ e k. omega arith)
          (append-EncodesAll (length r.volatile_paths) read_count _
            (encode_len (length r.volatile_paths)) _ (length r.volatile_paths) out
            (encode_len-Encodes (length r.volatile_paths))
            (λ e k.
              let long =
                append_long (encode_paths r.volatile_paths) _ e (length r.volatile_paths) 0 k
                  (encode_paths_long r.volatile_paths) (λ b h. omega arith) in
              omega arith)
            (append-EncodesAll 0 (read_paths (length r.volatile_paths)) _
              (encode_paths r.volatile_paths) _ r.volatile_paths out
              (encode_paths-Encodes r.volatile_paths v.volatile_valid) (λ e k. omega arith) tail)))

  -- What the reading of the whole comes to.
  decode_all :
      (out : Result PersistentReceipt)
      → EncodesAll tail_reader tail_bytes out
      → EncodesAll whole_reader (to_bytes r) out
  unfolding to_bytes
  decode_all out tail =
      let path_test =
        not (is_absolute r.admin_path)
        || not (is_absolute r.lock_path)
        || path_contains_nul r.admin_path
        || path_contains_nul r.lock_path in
      append-EncodesAll 0 (take_bytes (length receipt_magic)) _ (ok receipt_magic) _ receipt_magic
        out take_marker (λ e k. omega arith)
        (lift-EncodesAll
          (refuse_if (not (name_eq receipt_magic receipt_magic))
            (err (invalid_receipt "has an invalid format marker")))
          tt _ _ out (rw ((name_eq_iff receipt_magic receipt_magic).1 refl) refl)
          (append-EncodesAll 0 read_u32 _ (ok (le_bytes 4 receipt_version)) _ receipt_version out
            (raw-Encodes receipt_version (omega arith)) (λ e k. omega arith)
            (bytes-EncodesAll r.admin_path _ _ out (
              bytes-EncodesAll r.lock_path _ _ out (
                bytes-EncodesAll r.boot_id _ _ out (
                  lift-EncodesAll
                    (utf8 r.boot_id (invalid_receipt "contains a non-UTF-8 boot identifier"))
                    r.boot_id _ _ out (utf8_lem r.boot_id _ v.boot_utf8)
                    (lift-EncodesAll (refuse_if path_test path_refusal) tt _ _ out
                      (ap (λ b. refuse_if b path_refusal) (paths_pass r v))
                      (lift-EncodesAll (validate_boot_id r.boot_id) tt _ _ out v.boot_valid
                        (decode_lists out tail)))))))))

  -- A receipt that passes the checks, and whose count of kdamonds the bytes behind it could hold,
  -- is read back unchanged from the bytes that are written for it, where their number fits u64.
  pub from_bytes-to_bytes :
      r.kdamond_count ≤ 8 + 12 * length r.identities
      → (e : List ℕ) → to_bytes r ≡ ok e
      → length e ≤ u64_max
      → from_bytes e ≡ ok r
  unfolding from_bytes
  from_bytes-to_bytes enough e h fits = decode_all (ok r) (tail_read enough) e [] h fits

  -- The bytes behind the count are those of the count of identities and of the identities.
  tail_refused :
      8 + 12 * length r.identities < r.kdamond_count
      → EncodesAll tail_reader tail_bytes
          (err (invalid_receipt "contains an impossible element count"))
  tail_refused many e before h fits =
      let n = r.kdamond_count in
      let ids = encode_identities r.identities in
      let first = append_parts (encode_len n) (append (encode_len (length r.identities)) ids) e h in
      let second = append_parts (encode_len (length r.identities)) ids first.1 first.3 in
      let len = encode_len_lem n first.0 first.2 in
      let e' : e ≡ le_bytes 8 n ++ first.1 = first.4 ∙ ap (λ (t : List ℕ). t ++ first.1) len.1 in
      let behind : length first.1 ≡ 8 + 12 * length r.identities = omega (
        arith,
        ap length second.4,
        length-append second.0 second.1,
        encode_len_exact (length r.identities) second.0 second.2,
        encode_identities_exact r.identities second.1 second.3,
      ) in
      let bound = subst (λ (t : List ℕ). length (before ++ t) ≤ u64_max) e' fits in
      ap (λ (t : List ℕ). (tail_reader (at before t)).0) e'
      ∙ after_err (read_count (at before (le_bytes 8 n ++ first.1))) _ _
          (read_count_refused n before first.1 len.0 (omega arith) bound)

  -- A receipt that passes the checks, but with more kdamonds than the bytes behind their count,
  -- as where most of them are stopped, is refused from the bytes that are written for it, where
  -- their number fits u64.
  pub from_bytes-to_bytes_refused :
      8 + 12 * length r.identities < r.kdamond_count
      → (e : List ℕ) → to_bytes r ≡ ok e
      → length e ≤ u64_max
      → from_bytes e ≡ err (invalid_receipt "contains an impossible element count")
  unfolding from_bytes
  from_bytes-to_bytes_refused many e h fits =
      decode_all (err (invalid_receipt "contains an impossible element count")) (tail_refused many)
        e [] h fits
