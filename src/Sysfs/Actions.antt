-- ===== src/Sysfs/Actions.antt =====
-- Fallible operations on a state: Rust's functions that return a `Result` and read or change what
-- lies outside them. A state that an operation left before it failed stays.
use damon_rs.Error.{Error, Result, ok, err}

abbrev pub Action : Type 0 → Type 0 → Type 0
Action S A = S → Result A × S

-- The rest of a block, after an outcome: `?` returns at an error.
abbrev pub after : {S A B : Type 0} → Result A × S → (A → Action S B) → Result B × S
after (err e, s) next = (err e, s)
after (ok a, s) next = next a s

infixl 5 ◌>>=◌ ◌>>◌
abbrev pub ◌>>=◌ : {S A B : Type 0} → Action S A → (A → Action S B) → Action S B
◌>>=◌ m next s = after (m s) next

abbrev pub ◌>>◌ : {S B : Type 0} → Action S (Unit {0}) → Action S B → Action S B
◌>>◌ m next s = after (m s) (λ u. next)

abbrev pub pure : {S A : Type 0} → A → Action S A
pure a s = (ok a, s)

abbrev pub fail : {S A : Type 0} → Error → Action S A
fail e s = (err e, s)

abbrev pub lift : {S A : Type 0} → Result A → Action S A
lift r s = (r, s)

abbrev pub unit : {S : Type 0} → Action S (Unit {0})
unit s = (ok tt, s)
