-- ===== src/Monitor/Persistent/Texts.antt =====
-- Paths and texts as src/monitor/persistent.rs receives them, in bytes, and the standard library's
-- functions on them: components and their order, UTF-8, and trimming.
use damon_rs.Common.{
  ℕ, Bool, true, false, ◌&&◌, ◌||◌, Option, none, some, List, [], ◌∷◌, ltb, leb, ◌==◌,
  if◌then◌else◌,
}
use damon_rs.Sysfs.Paths.{Name, name_eq, name_lt}
use mathlib.Core.List.{reverse}

pub data Component : Type 0 where
  root_dir cur_dir parent_dir : Component
  normal : Name → Component

push : ℕ → List Name → List Name
push c [] = (c ∷ []) ∷ []
push c (s ∷ segments) = (c ∷ s) ∷ segments

-- The segments between slashes.
unfoldable pub split : List ℕ → List Name
unfolding push
split [] = [] ∷ []
split (c ∷ cs) = let rest = split cs in if c == 47 then [] ∷ rest else push c rest

abbrev is_dots : ℕ → Name → Bool
is_dots n segment = name_eq segment (if n == 1 then 46 ∷ [] else 46 ∷ 46 ∷ [])

-- An empty segment and a `.` inside a path are no components.
unfoldable pub inner_components : List Name → List Component
inner_components [] = []
inner_components ([] ∷ segments) = inner_components segments
inner_components ((c ∷ cs) ∷ segments) =
    let rest = inner_components segments in
    if is_dots 1 (c ∷ cs)
    then rest
    else if is_dots 2 (c ∷ cs)
    then parent_dir ∷ rest
    else normal (c ∷ cs) ∷ rest

first_component : List Name → List Component
unfolding inner_components
first_component [] = []
first_component (s ∷ segments) =
    if is_dots 1 s then cur_dir ∷ inner_components segments else inner_components (s ∷ segments)

unfoldable pub is_absolute : List ℕ → Bool
is_absolute [] = false
is_absolute (c ∷ cs) = c == 47

unfoldable pub components : List ℕ → List Component
unfolding split first_component is_absolute
components path =
    if is_absolute path
    then root_dir ∷ inner_components (split path)
    else first_component (split path)

unfoldable pub is_normal : Component → Bool
is_normal (normal n) = true
is_normal _ = false

abbrev rank : Component → ℕ
rank root_dir = 0
rank cur_dir = 1
rank parent_dir = 2
rank (normal n) = 3

abbrev name_of : Component → Name
name_of (normal n) = n
name_of _ = []

unfoldable pub component_eq : Component → Component → Bool
component_eq a b = (rank a == rank b) && name_eq (name_of a) (name_of b)

unfoldable pub component_lt : Component → Component → Bool
component_lt a b = ltb (rank a) (rank b) || ((rank a == rank b) && name_lt (name_of a) (name_of b))

unfoldable pub parts_eq : List Component → List Component → Bool
unfolding component_eq
parts_eq [] [] = true
parts_eq [] (y ∷ ys) = false
parts_eq (x ∷ xs) [] = false
parts_eq (x ∷ xs) (y ∷ ys) = component_eq x y && parts_eq xs ys

unfoldable pub parts_lt : List Component → List Component → Bool
unfolding component_lt component_eq
parts_lt xs [] = false
parts_lt [] (y ∷ ys) = true
parts_lt (x ∷ xs) (y ∷ ys) = component_lt x y || (component_eq x y && parts_lt xs ys)

-- The ranges of the bytes that may follow a first byte.
following : ℕ → Option (List (ℕ × ℕ))
following b =
    if ltb b 0x80
    then some []
    else if ltb b 0xC2
    then none
    else if ltb b 0xE0
    then some ((0x80, 0xBF) ∷ [])
    else if b == 0xE0
    then some ((0xA0, 0xBF) ∷ (0x80, 0xBF) ∷ [])
    else if b == 0xED
    then some ((0x80, 0x9F) ∷ (0x80, 0xBF) ∷ [])
    else if ltb b 0xF0
    then some ((0x80, 0xBF) ∷ (0x80, 0xBF) ∷ [])
    else if b == 0xF0
    then some ((0x90, 0xBF) ∷ (0x80, 0xBF) ∷ (0x80, 0xBF) ∷ [])
    else if ltb b 0xF4
    then some ((0x80, 0xBF) ∷ (0x80, 0xBF) ∷ (0x80, 0xBF) ∷ [])
    else if b == 0xF4
    then some ((0x80, 0x8F) ∷ (0x80, 0xBF) ∷ (0x80, 0xBF) ∷ [])
    else none

utf8_from : List (ℕ × ℕ) → List ℕ → Bool
unfolding following
utf8_from [] [] = true
utf8_from (r ∷ ranges) [] = false
utf8_from [] (b ∷ bs) = elim (following b) [ none ↦ false | some ranges ↦ utf8_from ranges bs ]
utf8_from ((low, high) ∷ ranges) (b ∷ bs) = leb low b && leb b high && utf8_from ranges bs

-- `str::from_utf8(bytes).is_ok()`
unfoldable pub is_utf8 : List ℕ → Bool
unfolding utf8_from
is_utf8 bytes = utf8_from [] bytes

-- Unicode's `White_Space`, in UTF-8.
abbrev white_1 : ℕ → Bool
white_1 a = (leb 0x09 a && leb a 0x0D) || a == 0x20

abbrev white_2 : ℕ → ℕ → Bool
white_2 a b = (a == 0xC2) && (b == 0x85 || b == 0xA0)

abbrev white_3 : ℕ → ℕ → ℕ → Bool
white_3 a b c =
    ((a == 0xE1) && (b == 0x9A) && (c == 0x80))
    || ((a == 0xE3) && (b == 0x80) && (c == 0x80))
    || ((a == 0xE2) && (b == 0x81) && (c == 0x9F))
    || ((a == 0xE2)
        && (b == 0x80)
        && ((leb 0x80 c && leb c 0x8A) || c == 0xA8 || c == 0xA9 || c == 0xAF))

unfoldable pub trim_start : List ℕ → List ℕ
trim_start [] = []
trim_start (a ∷ []) = if white_1 a then [] else a ∷ []
trim_start (a ∷ b ∷ []) =
    let rest = trim_start (b ∷ []) in
    if white_1 a then rest else if white_2 a b then [] else a ∷ b ∷ []
trim_start (a ∷ b ∷ c ∷ cs) = elim (white_1 a) [
  | true ↦ trim_start (b ∷ c ∷ cs)
  | false ↦ elim (white_2 a b) [
    | true ↦ trim_start (c ∷ cs)
    | false ↦ elim (white_3 a b c) [ true ↦ trim_start cs | false ↦ a ∷ b ∷ c ∷ cs ]
  ]
]

-- The same on the bytes in reverse.
unfoldable pub trim_back : List ℕ → List ℕ
trim_back [] = []
trim_back (a ∷ []) = if white_1 a then [] else a ∷ []
trim_back (b ∷ a ∷ []) =
    let rest = trim_back (a ∷ []) in
    if white_1 b then rest else if white_2 a b then [] else b ∷ a ∷ []
trim_back (c ∷ b ∷ a ∷ cs) = elim (white_1 c) [
  | true ↦ trim_back (b ∷ a ∷ cs)
  | false ↦ elim (white_2 b c) [
    | true ↦ trim_back (a ∷ cs)
    | false ↦ elim (white_3 a b c) [ true ↦ trim_back cs | false ↦ c ∷ b ∷ a ∷ cs ]
  ]
]

unfoldable pub trim : List ℕ → List ℕ
unfolding trim_start trim_back
trim bytes = reverse (trim_back (reverse (trim_start bytes)))
