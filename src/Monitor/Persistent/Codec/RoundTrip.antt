-- ===== src/Monitor/Persistent/Codec/RoundTrip.antt =====
-- Reading back what `to_bytes` of src/monitor/persistent.rs wrote.
use damon_rs.Common.{
  ℕ, ◌+◌, ◌^◌, ◌≤◌, ◌<◌, ◌≡◌, refl, sym, ap, ◌∙◌, subst, true, false, Option, some, List, [], ◌∷◌,
  ◌++◌, length, arith, All, leb, u64_max,
}
use damon_rs.Error.{Error, Result, ok}
use damon_rs.Config.Pid
use damon_rs.Config.Pid.{Pid, IsValidPid, new-IsValidPid}
use damon_rs.Sysfs.Actions.{Action, ◌>>=◌, pure, lift}
use damon_rs.Monitor.Persistent.{
  WritableConfigurationValue, PersistentKdamondIdentity, refuse_if, validate_relative_path,
}
use damon_rs.Monitor.Persistent.Texts.{is_utf8}
use damon_rs.Monitor.Persistent.Codec.{
  le_bytes, append, encode_len, encode_bytes, encode_values, encode_paths, encode_index,
  encode_identities, Decoder, read_u32, read_u64, read_count, read_bytes, utf8, read_values,
  read_paths, not_after, thread, read_identities,
}
use damon_rs.Monitor.Persistent.Codec.Reads.{
  Reads, Encodes, bind-Reads, pure-Reads, map-Reads, lift-Reads, le_bytes-Reads, read_count-Reads,
  read_bytes-Reads, append_parts,
}

pub encode_len_lem : (n : ℕ) (e : List ℕ) → encode_len n ≡ ok e → (n ≤ u64_max) × (e ≡ le_bytes 8 n)
unfolding encode_len
encode_len_lem n e h = ground arith

pub encode_bytes_lem :
    (bytes e : List ℕ)
    → encode_bytes bytes ≡ ok e
    → (length bytes ≤ u64_max) × (e ≡ le_bytes 8 (length bytes) ++ bytes)
unfolding encode_bytes
encode_bytes_lem bytes e h =
    let parts = append_parts (encode_len (length bytes)) (ok bytes) e h in
    let len = encode_len_lem (length bytes) parts.0 parts.2 in
    (len.0, parts.4 ∙ (cc (len.1, parts.3)))

pub encode_len-Encodes : (n : ℕ) → Encodes n read_count (encode_len n) n
encode_len-Encodes n e h =
    let len = encode_len_lem n e h in
    subst (λ (t : List ℕ). Reads n read_count t n) (sym len.1) (read_count-Reads n len.0)

pub encode_bytes-Encodes : (bytes : List ℕ) → Encodes 0 read_bytes (encode_bytes bytes) bytes
encode_bytes-Encodes bytes e h =
    let it = encode_bytes_lem bytes e h in
    subst (λ (t : List ℕ). Reads 0 read_bytes t bytes) (sym it.1) (read_bytes-Reads bytes it.0)

-- An encoder's bytes, and then another's.
append-Encodes :
    {A B : Type 0} (need later : ℕ) (m : Action Decoder A) (f : A → Action Decoder B)
    (x y : Result (List ℕ)) (a : A) (b : B)
    → Encodes need m x a
    → Encodes later (f a) y b
    → ((e : List ℕ) → y ≡ ok e → need ≤ length e + later)
    → Encodes later (m >>= f) (append x y) b
append-Encodes need later m f x y a b first second enough e h =
    let parts = append_parts x y e h in
    subst (λ (t : List ℕ). Reads later (m >>= f) t b) (sym parts.4)
      (bind-Reads need later m f parts.0 parts.1 a b (first parts.0 parts.2)
        (second parts.1 parts.3) (enough parts.1 parts.3))

lift-Encodes :
    {A B : Type 0} (need : ℕ) (r : Result A) (a : A) (f : A → Action Decoder B)
    (x : Result (List ℕ)) (b : B)
    → r ≡ ok a
    → Encodes need (f a) x b
    → Encodes need (lift r >>= f) x b
lift-Encodes need r a f x b e next bytes h = lift-Reads need r a f bytes b e (next bytes h)

map-Encodes :
    {A B : Type 0} (need : ℕ) (m : Action Decoder A) (g : A → B) (x : Result (List ℕ)) (a : A)
    → Encodes need m x a
    → Encodes need (m >>= λ v. pure (g v)) x (g a)
map-Encodes need m g x a first e h = map-Reads need m g e a (first e h)

empty-Encodes : {A : Type 0} (a : A) → Encodes 0 (pure a) (ok []) a
empty-Encodes a e k = subst (λ (t : List ℕ). Reads 0 (pure a) t a) (ground arith) (pure-Reads a)

abbrev pub IsValue : WritableConfigurationValue → Type 0
IsValue v = (validate_relative_path v.path ≡ ok tt) × (is_utf8 v.value ≡ true)

pub utf8_lem : (bytes : List ℕ) (x : Error) → is_utf8 bytes ≡ true → utf8 bytes x ≡ ok bytes
utf8_lem bytes x h = rw h refl

pub encode_values-Encodes :
    (vs : List WritableConfigurationValue)
    → All IsValue vs
    → Encodes 0 (read_values (length vs)) (encode_values vs) vs
unfolding encode_values read_values
encode_values-Encodes [] h = empty-Encodes []
encode_values-Encodes (v ∷ vs) h =
    append-Encodes 0 0 read_bytes _ (encode_bytes v.path)
      (append (encode_bytes v.value) (encode_values vs)) v.path (v ∷ vs)
      (encode_bytes-Encodes v.path)
      (lift-Encodes 0 (validate_relative_path v.path) tt _ _ (v ∷ vs) h.0.0 (
        append-Encodes 0 0 read_bytes _ (encode_bytes v.value) (encode_values vs) v.value (v ∷ vs)
          (encode_bytes-Encodes v.value)
          (lift-Encodes 0 (utf8 v.value _) v.value _ _ (v ∷ vs) (utf8_lem v.value _ h.0.1) (
            map-Encodes 0 (read_values (length vs)) (λ later. v ∷ later) (encode_values vs) vs
              (encode_values-Encodes vs h.1)))
          (λ e k. omega arith)))
      (λ e k. omega arith)

pub encode_paths-Encodes :
    (ps : List (List ℕ))
    → All (λ p. validate_relative_path p ≡ ok tt) ps
    → Encodes 0 (read_paths (length ps)) (encode_paths ps) ps
unfolding encode_paths read_paths
encode_paths-Encodes [] h = empty-Encodes []
encode_paths-Encodes (p ∷ ps) h =
    append-Encodes 0 0 read_bytes _ (encode_bytes p) (encode_paths ps) p (p ∷ ps)
      (encode_bytes-Encodes p)
      (lift-Encodes 0 (validate_relative_path p) tt _ _ (p ∷ ps) h.0 (
        map-Encodes 0 (read_paths (length ps)) (λ later. p ∷ later) (encode_paths ps) ps
          (encode_paths-Encodes ps h.1)))
      (λ e k. omega arith)

-- The identities in the order of their indexes, each of a kdamond of the hierarchy.
abbrev pub AreIdentities : ℕ → Option ℕ → List PersistentKdamondIdentity → Type 0
AreIdentities count previous [] = Unit
AreIdentities count previous (x ∷ xs) =
    (x.index < count)
    × (not_after previous x.index ≡ false)
    × IsValidPid x.pid
    × AreIdentities count (some x.index) xs

encode_index-Encodes : (n : ℕ) → Encodes 0 read_u64 (encode_index n) n
unfolding encode_index read_u64
encode_index-Encodes n e h =
    let fits : n ≤ u64_max = ground arith in
    let bytes : e ≡ le_bytes 8 n = ground arith in
    subst (λ (t : List ℕ). Reads 0 read_u64 t n) (sym bytes) (le_bytes-Reads 8 n (omega arith))

pub raw-Encodes : (n : ℕ) → n < 256 ^ 4 → Encodes 0 read_u32 (ok (le_bytes 4 n)) n
unfolding read_u32
raw-Encodes n h e k =
    let bytes : e ≡ le_bytes 4 n = ground arith in
    subst (λ (t : List ℕ). Reads 0 read_u32 t n) (sym bytes) (le_bytes-Reads 4 n h)

thread_lem : (p : Pid) → IsValidPid p → thread (Pid.new p.raw) ≡ ok p
thread_lem p h = ap thread ((new-IsValidPid p.raw p).1 (refl, h.positive, h.fits))

pub encode_identities-Encodes :
    (xs : List PersistentKdamondIdentity) (count : ℕ) (previous : Option ℕ)
    → AreIdentities count previous xs
    → Encodes 0 (read_identities (length xs) count previous) (encode_identities xs) xs
unfolding encode_identities read_identities
encode_identities-Encodes [] count previous h = empty-Encodes []
encode_identities-Encodes (x ∷ xs) count previous h =
    let inside : leb count x.index ≡ false = (let low = h.0 in ground arith) in
    append-Encodes 0 0 read_u64 _ (encode_index x.index)
      (append (ok (le_bytes 4 x.pid.raw)) (encode_identities xs)) x.index (x ∷ xs)
      (encode_index-Encodes x.index)
      (lift-Encodes 0 (refuse_if (leb count x.index) _) tt _ _ (x ∷ xs) (rw inside refl) (
        lift-Encodes 0 (refuse_if (not_after previous x.index) _) tt _ _ (x ∷ xs) (rw h.1 refl) (
          append-Encodes 0 0 read_u32 _ (ok (le_bytes 4 x.pid.raw)) (encode_identities xs) x.pid.raw
            (x ∷ xs) (raw-Encodes x.pid.raw (let small = h.2.fits in omega arith))
            (lift-Encodes 0 (thread (Pid.new x.pid.raw)) x.pid _ _ (x ∷ xs) (thread_lem x.pid h.2) (
              map-Encodes 0 (read_identities (length xs) count (some x.index)) (λ later. x ∷ later)
                (encode_identities xs) xs (encode_identities-Encodes xs count (some x.index) h.3)))
            (λ e k. omega arith))))
      (λ e k. omega arith)
