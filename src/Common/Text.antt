-- ===== src/Common/Text.antt =====
-- Texts as lists of code points, and the standard library's decimal parser.
use Prim.Native.Nat.{ℕ, ◌+◌, ◌-◌, ◌*◌}
use Prim.Native.Char.{code}
use Prim.Native.String.{String}
use mathlib.Core.Bool.{Bool, ◌&&◌}
use mathlib.Core.List.{List, [], ◌∷◌}
use mathlib.Core.Option.{Option, none, some}
use mathlib.Core.Logic.{inl, inr}
use mathlib.Core.Path.{◌≡◌, sym, ◌∙◌}
use text.Mathlib.Text.{◌==◌ as str_eq}
use text.Mathlib.TextEquality.{eq_iff}
use damon_rs.Common.Tests.{Bool-cases, leb, ◌==◌, if◌then◌else◌}

abbrev pub codes : String → List ℕ
codes String.[] = []
codes (String.◌∷◌ c s) = code c ∷ codes s

is_digit : ℕ → Bool
is_digit c = leb 48 c && leb c 57

-- One more digit, as `checked_mul` and `checked_add` allow it.
push_digit : ℕ → ℕ → ℕ → Option ℕ
unfolding is_digit
push_digit bound acc c =
    let next = acc * 10 + (c - 48) in
    if is_digit c then (if leb next bound then some next else none) else none

digits : ℕ → List ℕ → Option ℕ → Option ℕ
unfolding push_digit
digits bound cs none = none
digits bound [] (some acc) = some acc
digits bound (c ∷ cs) (some acc) = digits bound cs (push_digit bound acc c)

unsigned : ℕ → List ℕ → Option ℕ
unfolding digits
unsigned bound [] = none
unsigned bound (c ∷ cs) = digits bound (c ∷ cs) (some 0)

-- `str::parse` at an unsigned type with this maximum: one `+` may stand before the digits.
unfoldable pub parse_unsigned : ℕ → List ℕ → Option ℕ
unfolding unsigned
parse_unsigned bound [] = none
parse_unsigned bound (c ∷ cs) = if c == 43 then unsigned bound cs else unsigned bound (c ∷ cs)

unfoldable pub String-discrete : Discrete String
String-discrete s t = elim (Bool-cases (str_eq s t)) [
  | inl e ↦ yes ((eq_iff s t).0 e)
  | inr e ↦ no (λ p. cc (e, (eq_iff s t).1 p))
]

-- One case of a match on a text, where the result is written back as that text.
pub written_back {ℓ} :
    {A : Type ℓ} (write : A → String) (s name : String) {value rest : A}
    → write value ≡ name
    → write rest ≡ s
    → write (if str_eq s name then value else rest) ≡ s
written_back write s name v r = elim (Bool-cases (str_eq s name)) [
  | inl e ↦ rw (e) (v ∙ sym ((eq_iff s name).0 e))
  | inr e ↦ rw (e) r
]
