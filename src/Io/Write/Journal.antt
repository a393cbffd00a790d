-- ===== src/Io/Write/Journal.antt =====
-- What the journal of a chain of writes has.
use damon_rs.Common.{
  ℕ, suc, Bool-cases, ◌≡◌, ◌≢◌, ap, ◌⊎◌, inl, inr, refl, Option, none, some, String, List, [], ◌∷◌,
  ◌++◌, map, take, get_elem?, All, length, arith, ◌==◌,
}
use mathlib.Core.List.{append_assoc, append-nil}
use damon_rs.Error.{Result, err, Error, IoErrorKind, interrupted, done, io, write_zero}
use damon_rs.Io.Write.{
  Attempt, wrote, failed, write_once, Write, record_write, finish_write, write_bytes, write_all,
  returned, collect_writes,
}

-- The first call that is not interrupted wrote all the bytes.
abbrev pub Written : List Attempt → ℕ → Type 0
Written [] n = ⊥
Written (wrote m ∷ attempts) n = m ≡ n
Written (failed interrupted ∷ attempts) n = Written attempts n
Written (failed kind ∷ attempts) n = ⊥

-- Some call is not interrupted.
abbrev pub Ends : List Attempt → Type 0
Ends [] = ⊥
Ends (failed interrupted ∷ attempts) = Ends attempts
Ends (attempt ∷ attempts) = Unit

-- The file opens, and takes the whole value.
abbrev pub IsDone : Write → Type 0
IsDone w = (w.open_error ≡ none) × Written w.attempts (length w.value)

write_once-Written :
    (calls : List Attempt) (path : String) (value : List ℕ)
    → Ends calls
    → ((write_once calls path value ≡ some done) × Written calls (length value))
      ⊎ ((e : Error) × (write_once calls path value ≡ some (err e))
          × ¬ Written calls (length value))
unfolding write_once
write_once-Written [] path value h = absurd h
write_once-Written (wrote m ∷ calls) path value h = elim (Bool-cases (m == length value)) [
  | inl e ↦ inl (ground arith, ground arith)
  | inr e ↦ inr (io "write complete value" path write_zero, ground arith, λ same. ground arith)
]
write_once-Written (failed interrupted ∷ calls) path value h = write_once-Written calls path value h
write_once-Written (failed kind ∷ calls) path value h = inr (io "write" path kind, refl, λ z. z)

-- The system answers the call for good.
abbrev pub Answers : Write → Type 0
Answers w = (w.open_error ≢ none) ⊎ Ends w.attempts

opened : (o : Option IoErrorKind) → (o ≡ none) ⊎ ((k : IoErrorKind) × (o ≡ some k))
opened none = inl refl
opened (some k) = inr (k, refl)

answers : (w : Write) → Answers w → w.open_error ≡ none → Ends w.attempts
answers w (inl n) e = absurd (n e)
answers w (inr a) e = a

write_bytes-IsDone :
    (w : Write) (paths : List String)
    → Answers w
    → ((write_bytes w (some paths) ≡ some (done, some (paths ++ w.path ∷ []))) × IsDone w)
      ⊎ ((e : Error) × (write_bytes w (some paths) ≡ some (err e, some paths)) × ¬ IsDone w)
unfolding write_bytes finish_write record_write
write_bytes-IsDone w paths h = elim (opened w.open_error) [
  | inr (k, e) ↦
      inr (io "open for writing" w.path k, rw (e, write_bytes) refl, λ done. cc (e, done.0))
  | inl e ↦ elim (write_once-Written w.attempts w.path w.value (answers w h e)) [
    | inl (o, written) ↦ inl (rw (e, o, write_bytes) refl, (e, written))
    | inr (x, o, lost) ↦ inr (x, rw (e, o, write_bytes) refl, λ done. lost done.1)
  ]
]

-- What the journal of a chain means: it has the paths of the first `k` writes, which were done, and
-- either these are all, or the next one failed and the chain ended with its error.
pub record Journaled (ws : List Write) (result : Result (Unit {0})) (paths : List String)
    : Type 0 where
  pub count : ℕ
  pub journal : paths ≡ map (λ (w : Write). w.path) (take count ws)
  pub completed : All IsDone (take count ws)
  pub ended :
      ((result ≡ done) × (count ≡ length ws))
      ⊎ ((e : Error) × (w : Write) × (result ≡ err e) × (get_elem? ws count ≡ some w) × ¬ IsDone w)

write_all-Journaled :
    (ws : List Write) (before : List String)
    → All Answers ws
    → (r : Result (Unit {0})) × (paths : List String) × (write_all ws (some before)
        ≡ some (r, some (before ++ paths)))
      × Journaled ws r paths
unfolding write_all
write_all-Journaled [] before h = (
  done,
  [],
  rw (append-nil before) refl,
  record { count = 0; journal = refl; completed = tt; ended = inl (refl, refl) },
)
write_all-Journaled (w ∷ ws) before h = elim (write_bytes-IsDone w before h.0) [
  | inr (e, o, lost) ↦ (
    err e,
    [],
    rw (write_all, o, append-nil before) refl,
    record { count = 0; journal = refl; completed = tt; ended = inr (e, w, refl, refl, lost) },
  )
  | inl (o, yes_done) ↦
      let (r, paths, same, j) = write_all-Journaled ws (before ++ w.path ∷ []) h.1 in
      (
        r,
        w.path ∷ paths,
        rw (write_all, o) (rw (append_assoc) at same),
        record {
          count = suc j.count;
          journal = ap (λ rest. w.path ∷ rest) j.journal;
          completed = (yes_done, j.completed);
          ended = elim j.ended [ inl (d, n) ↦ inl (d, ap suc n) | inr x ↦ inr x ];
        },
      )
]

-- For a chain of writes for each of which the system fails to open or some call of write is not
-- interrupted, collecting the writes returns, with no journal left: the paths are those of the
-- first writes, all done whole, and either they are all and the result is a success, or the next
-- write was not done and the result is an error.
pub collect_writes-Journaled :
    (ws : List Write)
    → All Answers ws
    → (r : Result (Unit {0})) × (paths : List String) × (collect_writes (write_all ws) none
        ≡ returned r paths none)
      × Journaled ws r paths
unfolding collect_writes
collect_writes-Journaled ws h =
    let (r, paths, same, j) = write_all-Journaled ws [] h in
    (r, paths, rw (collect_writes, same) refl, j)
