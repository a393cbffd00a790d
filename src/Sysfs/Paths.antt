-- ===== src/Sysfs/Paths.antt =====
-- Paths of the standard library as src/sysfs/ownership.rs and src/sysfs/admin.rs use them: a path
-- below the admin directory is the list of its components, each the list of its bytes.
use damon_rs.Common.{
  ℕ, zero, suc, ◌+◌, ◌/◌, ◌%◌, ◌≡◌, ◌↔◌, refl, Bool, true, false, ◌&&◌, ◌||◌, List, [], ◌∷◌, arith,
  ltb, ◌==◌, if◌then◌else◌,
}

abbrev pub Name : Type 0
Name = List ℕ

abbrev pub FilePath : Type 0
FilePath = List Name

-- `to_string` of a number; the fuel is the number itself, no less than its count of digits.
unfoldable pub decimal_from : ℕ → ℕ → Name → Name
decimal_from zero n digits = (48 + n % 10) ∷ digits
decimal_from (suc fuel) n digits =
    let longer = decimal_from fuel (n / 10) ((48 + n % 10) ∷ digits) in
    if ltb n 10 then (48 + n) ∷ digits else longer

unfoldable pub decimal : ℕ → Name
unfolding decimal_from
decimal n = decimal_from n n []

unfoldable pub name_eq : Name → Name → Bool
name_eq [] [] = true
name_eq [] (y ∷ ys) = false
name_eq (x ∷ xs) [] = false
name_eq (x ∷ xs) (y ∷ ys) = (x == y) && name_eq xs ys

-- `Ord` of `[u8]`
unfoldable pub name_lt : Name → Name → Bool
name_lt xs [] = false
name_lt [] (y ∷ ys) = true
name_lt (x ∷ xs) (y ∷ ys) = ltb x y || ((x == y) && name_lt xs ys)

unfoldable pub path_eq : FilePath → FilePath → Bool
path_eq [] [] = true
path_eq [] (y ∷ ys) = false
path_eq (x ∷ xs) [] = false
path_eq (x ∷ xs) (y ∷ ys) = name_eq x y && path_eq xs ys

-- `Ord` of `Path` compares the components.
unfoldable pub path_lt : FilePath → FilePath → Bool
path_lt xs [] = false
path_lt [] (y ∷ ys) = true
path_lt (x ∷ xs) (y ∷ ys) = name_lt x y || (name_eq x y && path_lt xs ys)

unfoldable pub starts_with : FilePath → FilePath → Bool
starts_with path [] = true
starts_with [] (r ∷ root) = false
starts_with (p ∷ path) (r ∷ root) = name_eq p r && starts_with path root

-- `binary_search(..).is_ok()` on a sorted slice
unfoldable pub is_found : FilePath → List FilePath → Bool
is_found path [] = false
is_found path (p ∷ paths) = path_eq path p || is_found path paths

pub name_eq_iff : (a b : Name) → (name_eq a b ≡ true) ↔ (a ≡ b)
unfolding name_eq
name_eq_iff [] [] = (λ h. refl, λ h. refl)
name_eq_iff [] (y ∷ ys) = (λ h. cc, λ h. cc)
name_eq_iff (x ∷ xs) [] = (λ h. cc, λ h. cc)
name_eq_iff (x ∷ xs) (y ∷ ys) =
    let ih = name_eq_iff xs ys in (λ h. ground (arith, ih), λ h. ground (arith, ih))

pub path_eq_iff : (a b : FilePath) → (path_eq a b ≡ true) ↔ (a ≡ b)
unfolding path_eq
path_eq_iff [] [] = (λ h. refl, λ h. refl)
path_eq_iff [] (y ∷ ys) = (λ h. cc, λ h. cc)
path_eq_iff (x ∷ xs) [] = (λ h. cc, λ h. cc)
path_eq_iff (x ∷ xs) (y ∷ ys) =
    let head = name_eq_iff x y in
    let ih = path_eq_iff xs ys in (λ h. ground (arith, head, ih), λ h. ground (arith, head, ih))
