-- ===== src/Io/Content.antt =====
-- What the comparison of a file with an expected value says of the bytes of the file.
use damon_rs.Common.{
  String, ℕ, suc, ap, ◌∙◌, length-append, ◌≡◌, ◌≢◌, ◌⊎◌, ◌↔◌, refl, Bool, true, false, Option, none,
  some, List, [], ◌∷◌, ◌++◌, map, All, get_elem?, length, arith, ◌==◌,
}
use damon_rs.Error.{Result, ok}
use damon_rs.Io.{
  newline, Progress, start, match_configuration_chunk, compare_chunks,
  read_configuration_value_equals, file,
}

-- The rest of the expected value, and perhaps a newline.
abbrev IsRest : List ℕ → List ℕ → Type 0
IsRest rest bytes = (bytes ≡ rest) ⊎ (bytes ≡ rest ++ newline ∷ [])

abbrev pub concat : List (List ℕ) → List ℕ
concat [] = []
concat (c ∷ cs) = c ++ concat cs

-- Reads that succeed, each with some bytes.
abbrev pub NonEmpty : List ℕ → Type 0
NonEmpty c = c ≢ []

-- The whole comparison of the bytes that are left, as one run.
matches : List ℕ → List ℕ → Progress → Bool
unfolding match_configuration_chunk
matches bytes expected p = elim (match_configuration_chunk bytes expected p) [
  | some q ↦ q.matched == length expected
  | none ↦ false
]

chunk-append :
    (xs ys e : List ℕ) (p : Progress)
    → matches (xs ++ ys) e p
      ≡ elim (match_configuration_chunk xs e p) [ some q ↦ matches ys e q | none ↦ false ]
unfolding match_configuration_chunk matches
chunk-append [] ys e p = refl
chunk-append (x ∷ xs) ys e p =
    let byte = chunk-append xs ys e (record p { matched = suc p.matched }) in
    let line = chunk-append xs ys e (record p { newline_seen = true }) in ground (arith, byte, line)

either :
    {f : Progress → Result Bool} {g : Progress → Bool} (o : Option Progress)
    → ((q : Progress) → f q ≡ ok (g q))
    → elim o [ some q ↦ f q | none ↦ ok false ] ≡ ok (elim o [ some q ↦ g q | none ↦ false ])
either (some q) h = h q
either none h = refl

compare-matches :
    (cs : List (List ℕ)) (e : List ℕ) (p : Progress)
    → All NonEmpty cs
    → compare_chunks (map ok cs) e p ≡ ok (matches (concat cs) e p)
unfolding compare_chunks matches match_configuration_chunk
compare-matches [] e p h = refl
compare-matches ([] ∷ cs) e p h = elim (h.0 refl) [ ]
compare-matches ((b ∷ bs) ∷ cs) e p h =
    rw (chunk-append (b ∷ bs) (concat cs) e p)
      (either (match_configuration_chunk (b ∷ bs) e p) (λ q. compare-matches cs e q h.1))

get_rest : (pre rest : List ℕ) → get_elem? (pre ++ rest) (length pre) ≡ get_elem? rest 0
get_rest [] rest = refl
get_rest (x ∷ pre) rest = get_rest pre rest

append_step : (pre : List ℕ) (x : ℕ) (rest : List ℕ) → pre ++ x ∷ rest ≡ (pre ++ x ∷ []) ++ rest
append_step [] x rest = refl
append_step (y ∷ pre) x rest = ap (λ l. y ∷ l) (append_step pre x rest)

-- From the end of `pre` on, the comparison accepts the rest, with or without a newline.
matches-IsRest :
    (bytes pre rest e : List ℕ) (m : ℕ)
    → e ≡ pre ++ rest
    → m ≡ length pre
    → (matches bytes e (record { matched = m; newline_seen = false }) ≡ true) ↔ IsRest rest bytes
unfolding matches match_configuration_chunk
matches-IsRest [] pre [] e m h k =
    let total = length-append pre [] in
    let same = ap length h in (λ r. ground arith, λ r. ground arith)
matches-IsRest [] pre (x ∷ rest) e m h k =
    let total = length-append pre (x ∷ rest) in
    let same = ap length h in (λ r. ground arith, λ r. ground arith)
matches-IsRest (b ∷ []) pre [] e m h k =
    let total = length-append pre [] in
    let same = ap length h in
    let get : get_elem? e m ≡ none = rw (h, k) (get_rest pre []) in
    (λ r. ground arith, λ r. ground arith)
matches-IsRest (b ∷ y ∷ bytes) pre [] e m h k =
    let get : get_elem? e m ≡ none = rw (h, k) (get_rest pre []) in
    (λ r. ground arith, λ r. ground arith)
matches-IsRest (b ∷ bytes) pre (x ∷ rest) e m h k =
    let get : get_elem? e m ≡ some x = rw (h, k) (get_rest pre (x ∷ rest)) in
    let next =
      matches-IsRest bytes (pre ++ x ∷ []) rest e (suc m) (h ∙ append_step pre x rest)
        (omega (arith, k, length-append pre (x ∷ []))) in
    (λ r. ground (arith, next.0), λ r. ground (arith, next.1))

-- However non-empty successful reads divide a file, the comparison returns a result, which is
-- true exactly where the file is the expected value, or that value and one newline.
pub read_configuration_value_equals_lem :
    (path : String) (cs : List (List ℕ)) (expected : List ℕ)
    → All NonEmpty cs
    → (b : Bool) × (read_configuration_value_equals path (file (map ok cs)) expected ≡ ok b)
      × ((b ≡ true) ↔ ((concat cs ≡ expected) ⊎ (concat cs ≡ expected ++ newline ∷ [])))
unfolding read_configuration_value_equals
read_configuration_value_equals_lem path cs expected h = (
  matches (concat cs) expected start,
  compare-matches cs expected start h,
  matches-IsRest (concat cs) [] expected expected 0 refl refl,
)
