-- ===== src/Io.antt =====
-- src/sysfs/io.rs: how the crate compares a file with the value it expects there, and writes one.
-- The file system is a parameter: what the calls of `read`, `open` and `write` return.
pub mod Content
pub mod Write
use damon_rs.Common.{
  ℕ, suc, Bool, true, false, not, ◌&&◌, ◌||◌, Option, none, some, String, List, [], ◌∷◌, ◌++◌,
  get_elem?, length, unwrap_or, ltb, ◌==◌, if◌then◌else◌,
}
use damon_rs.Error.{Result, ok, err, IoErrorKind, not_found, interrupted, write_zero, io}

-- `b'\n'`
abbrev pub newline : ℕ
newline = 10

-- The two variables that `match_configuration_chunk` borrows.
pub record Progress : Type 0 where
  pub matched : ℕ
  pub newline_seen : Bool

abbrev pub start : Progress
start = record { matched = 0; newline_seen = false }

-- `none` is the result `false`; a true result comes with the variables' new values. `get_elem?` is
-- both the test `matched < expected.len()` and the index.
unfoldable pub match_configuration_chunk : List ℕ → List ℕ → Progress → Option Progress
match_configuration_chunk [] expected p = some p
match_configuration_chunk (byte ∷ bytes) expected p = elim (get_elem? expected p.matched) [
  | some e ↦
      if byte == e
      then match_configuration_chunk bytes expected (record p { matched = suc p.matched })
      else none
  | none ↦
      if p.newline_seen || not (byte == newline)
      then none
      else match_configuration_chunk bytes expected (record p { newline_seen = true })
]

-- The loop of `read_configuration_value_equals`. The list is what the successive reads return; a
-- read of no bytes, or the list's end, is the end of the file.
unfoldable pub compare_chunks : List (Result (List ℕ)) → List ℕ → Progress → Result Bool
compare_chunks [] expected p = ok (p.matched == length expected)
compare_chunks (err e ∷ reads) expected p = err e
compare_chunks (ok [] ∷ reads) expected p = ok (p.matched == length expected)
compare_chunks (ok (b ∷ bs) ∷ reads) expected p =
    elim (match_configuration_chunk (b ∷ bs) expected p) [
      | some q ↦ compare_chunks reads expected q
      | none ↦ ok false
    ]

-- What `File::open` returns: a kind of error, or a file, with what its reads return.
pub data Opened : Type 0 where
  no_file : IoErrorKind → Opened
  file : List (Result (List ℕ)) → Opened

unfoldable pub read_configuration_value_equals : String → Opened → List ℕ → Result Bool
unfolding compare_chunks
read_configuration_value_equals path (no_file not_found) expected = ok false
read_configuration_value_equals path (no_file kind) expected = err (io "open for reading" path kind)
read_configuration_value_equals path (file reads) expected = compare_chunks reads expected start
