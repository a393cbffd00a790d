-- ===== src/Monitor/Persistent/Codec/Reads.antt =====
-- The decoder of src/monitor/persistent.rs on bytes that an encoder wrote.
use damon_rs.Common.{
  ℕ, zero, suc, ◌+◌, ◌-◌, ◌/◌, ◌^◌, ◌≤◌, ◌<◌, ◌≡◌, refl, sym, ap, ◌∙◌, subst, true, false, List, [],
  ◌∷◌, ◌++◌, length, length-append, take, arith, ltb, leb, u64_max,
}
use mathlib.Core.List.{append_assoc, append-nil}
use native.Mathlib.Nat.{pow-succ'}
use damon_rs.Error.{Error, Result, ok, err, invalid_receipt}
use damon_rs.Sysfs.Actions.{Action, after, ◌>>=◌, pure, lift}
use damon_rs.Monitor.Persistent.Codec.{
  le_bytes, from_le, append, Decoder, drop, get_range, taken, take_bytes, read_u64, possible,
  read_count, read_bytes,
}

from_le-le_bytes : (width n : ℕ) → n < 256 ^ width → from_le (le_bytes width n) ≡ n
unfolding le_bytes from_le
from_le-le_bytes zero n h = omega arith
from_le-le_bytes (suc width) n h =
    let rest = from_le-le_bytes width (n / 256) (omega (arith, pow-succ' 256 width)) in omega arith

pub length-le_bytes : (width n : ℕ) → length (le_bytes width n) ≡ width
unfolding le_bytes
length-le_bytes zero n = refl
length-le_bytes (suc width) n = ap suc (length-le_bytes width (n / 256))

take_front : (xs ys : List ℕ) → take (length xs) (xs ++ ys) ≡ xs
take_front [] ys = refl
take_front (x ∷ xs) ys = ap (λ t. x ∷ t) (take_front xs ys)

drop_front : (xs ys : List ℕ) → drop (length xs) (xs ++ ys) ≡ ys
unfolding drop
drop_front [] ys = refl
drop_front (x ∷ xs) ys = drop_front xs ys

-- A decoder that has read the first part and has the second before it.
abbrev pub at : List ℕ → List ℕ → Decoder
at before rest = record { bytes = before ++ rest; offset = length before }

-- The action reads these bytes, wherever they stand with so many more behind them, as this value.
abbrev pub Reads : {A : Type 0} → ℕ → Action Decoder A → List ℕ → A → Type 0
Reads need m bytes a =
    (before rest : List ℕ)
    → need ≤ length rest
    → length (before ++ (bytes ++ rest)) ≤ u64_max
    → m (at before (bytes ++ rest)) ≡ (ok a, at (before ++ bytes) rest)

pub take_bytes-Reads : (bytes : List ℕ) → Reads 0 (take_bytes (length bytes)) bytes bytes
unfolding take_bytes get_range taken
take_bytes-Reads bytes before rest more fits =
    let n = length bytes in
    let total : length (before ++ (bytes ++ rest)) ≡ length before + (n + length rest) =
      omega (arith, length-append before (bytes ++ rest), length-append bytes rest) in
    let small : leb (length before + n) u64_max ≡ true = ground arith in
    let inside : leb (length before + n) (length (before ++ (bytes ++ rest))) ≡ true =
      ground arith in
    let count : length before + n - length before ≡ n = omega arith in
    let value : take (length before + n - length before)
          (drop (length before) (before ++ (bytes ++ rest)))
        ≡ bytes =
      ap (λ (k : ℕ). take k (drop (length before) (before ++ (bytes ++ rest)))) count
      ∙ ap (take n) (drop_front before (bytes ++ rest))
      ∙ take_front bytes rest in
    let text : before ++ (bytes ++ rest) ≡ (before ++ bytes) ++ rest =
      sym (append_assoc before bytes rest) in
    let end : length before + n ≡ length (before ++ bytes) = sym (length-append before bytes) in
    rw small (rw inside (rw value (cc (text, end))))

-- Reading on, after bytes that were read.
pub bind-Reads :
    {A B : Type 0} (need later : ℕ) (m : Action Decoder A) (f : A → Action Decoder B) (x y : List ℕ)
    (a : A) (b : B)
    → Reads need m x a
    → Reads later (f a) y b
    → need ≤ length y + later
    → Reads later (m >>= f) (x ++ y) b
bind-Reads need later m f x y a b first second enough before rest more fits =
    let parts : (x ++ y) ++ rest ≡ x ++ (y ++ rest) = append_assoc x y rest in
    let whole : (before ++ x) ++ (y ++ rest) ≡ before ++ (x ++ (y ++ rest)) =
      append_assoc before x (y ++ rest) in
    let fits' : length (before ++ (x ++ (y ++ rest))) ≤ u64_max =
      subst (λ (t : List ℕ). length (before ++ t) ≤ u64_max) parts fits in
    let one = first before (y ++ rest) (omega (arith, length-append y rest, enough, more)) fits' in
    let two =
      second (before ++ x) rest more
        (subst (λ (t : List ℕ). length t ≤ u64_max) (sym whole) fits') in
    ap (λ (t : List ℕ). (m >>= f) (at before t)) parts
    ∙ ap (λ (t : Result _ × Decoder). after t f) one
    ∙ two
    ∙ ap (λ (t : List ℕ). (ok b, at t rest)) (append_assoc before x y)

pub pure-Reads : {A : Type 0} (a : A) → Reads 0 (pure a) [] a
pure-Reads a before rest more fits =
    ap (λ (t : List ℕ). (ok a, at t rest)) (sym (append-nil before))

pub map-Reads :
    {A B : Type 0} (need : ℕ) (m : Action Decoder A) (g : A → B) (x : List ℕ) (a : A)
    → Reads need m x a
    → Reads need (m >>= λ v. pure (g v)) x (g a)
map-Reads {B} need m g x a first before rest more fits =
    ap (λ (t : Result _ × Decoder). after t (λ v. pure (g v))) (first before rest more fits)

pub lift-Reads :
    {A B : Type 0} (need : ℕ) (r : Result A) (a : A) (f : A → Action Decoder B) (x : List ℕ) (b : B)
    → r ≡ ok a
    → Reads need (f a) x b
    → Reads need (lift r >>= f) x b
lift-Reads need r a f x b e first before rest more fits =
    ap (λ (t : Result _). after (t, at before (x ++ rest)) f) e ∙ first before rest more fits

pub le_bytes-Reads :
    (width n : ℕ)
    → n < 256 ^ width
    → Reads 0 (take_bytes width >>= λ bytes. pure (from_le bytes)) (le_bytes width n) n
le_bytes-Reads width n h before rest more fits =
    let taken = take_bytes-Reads (le_bytes width n) before rest more fits in
    let long = length-le_bytes width n in
    ap
      (λ (k : ℕ).
        after (take_bytes k (at before (le_bytes width n ++ rest))) (λ bytes. pure (from_le bytes)))
      (sym long)
    ∙ ap (λ (t : Result (List ℕ) × Decoder). after t (λ bytes. pure (from_le bytes))) taken
    ∙ ap (λ (k : ℕ). (ok k, at (before ++ le_bytes width n) rest)) (from_le-le_bytes width n h)

pub read_count-Reads : (n : ℕ) → n ≤ u64_max → Reads n read_count (le_bytes 8 n) n
unfolding read_count read_u64 possible
read_count-Reads n h before rest more fits =
    let read = le_bytes-Reads 8 n (omega arith) before rest (omega arith) fits in
    let whole = length-append (before ++ le_bytes 8 n) rest in
    let left : ltb (length ((before ++ le_bytes 8 n) ++ rest) - length (before ++ le_bytes 8 n)) n
        ≡ false =
      ground arith in
    ap (λ (t : Result ℕ × Decoder). after t possible) read ∙ rw left refl

-- A count that the bytes behind it could not hold is refused.
pub read_count_refused :
    (n : ℕ) (before rest : List ℕ)
    → n ≤ u64_max
    → length rest < n
    → length (before ++ (le_bytes 8 n ++ rest)) ≤ u64_max
    → (read_count (at before (le_bytes 8 n ++ rest))).0
      ≡ err (invalid_receipt "contains an impossible element count")
unfolding read_count read_u64 possible
read_count_refused n before rest h many fits =
    let read = le_bytes-Reads 8 n (omega arith) before rest (omega arith) fits in
    let whole = length-append (before ++ le_bytes 8 n) rest in
    let over : ltb (length ((before ++ le_bytes 8 n) ++ rest) - length (before ++ le_bytes 8 n)) n
        ≡ true =
      ground arith in
    ap (λ (t : Result ℕ × Decoder). (after t possible).0) read ∙ rw over refl

-- An error ends the reading.
pub after_err :
    {A B : Type 0} (r : Result A × Decoder) (f : A → Action Decoder B) (x : Error)
    → r.0 ≡ err x
    → (after r f).0 ≡ err x
after_err (err e, d) f x h = ground arith
after_err (ok a, d) f x h = absurd (ground arith)

pub read_bytes-Reads :
    (bytes : List ℕ)
    → length bytes ≤ u64_max
    → Reads 0 read_bytes (le_bytes 8 (length bytes) ++ bytes) bytes
unfolding read_bytes
read_bytes-Reads bytes h =
    bind-Reads (length bytes) 0 read_count take_bytes (le_bytes 8 (length bytes)) bytes
      (length bytes) bytes (read_count-Reads (length bytes) h) (take_bytes-Reads bytes)
      (omega arith)

-- What an encoder's bytes are read as.
abbrev pub Encodes : {A : Type 0} → ℕ → Action Decoder A → Result (List ℕ) → A → Type 0
Encodes need m encoded a = (e : List ℕ) → encoded ≡ ok e → Reads need m e a

pub append_parts :
    (a b : Result (List ℕ)) (e : List ℕ)
    → append a b ≡ ok e
    → (x y : List ℕ) × (a ≡ ok x) × (b ≡ ok y) × (e ≡ x ++ y)
append_parts (err x) b e h = absurd (ground arith)
append_parts (ok x) (err y) e h = absurd (ground arith)
append_parts (ok x) (ok y) e h = (x, y, refl, refl, ground arith)
