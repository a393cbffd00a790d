-- ===== src/Error/Checks.antt =====
-- Sequences and loops of checks: what it means that all of them pass.
use damon_rs.Common.{◌≡◌, ◌↔◌, refl, Bool, true, false, String, List, [], ◌∷◌, All}
use damon_rs.Error.{Result, ok, err, ◌>>=◌, ◌>>◌, done, invalid_if}

-- The check passes.
abbrev pub Passes : Result (Unit {0}) → Type 0
Passes r = r ≡ ok tt

pub >>-Passes : (r k : Result (Unit {0})) → Passes (r >> k) ↔ (Passes r × Passes k)
>>-Passes (ok u) k = (λ h. (refl, h), λ h. h.1)
>>-Passes (err e) k = (λ h. cc, λ h. cc (h.0))

pub invalid_if-Passes : (b : Bool) (f r : String) → Passes (invalid_if b f r) ↔ (b ≡ false)
invalid_if-Passes true f r = (λ h. cc, λ h. cc)
invalid_if-Passes false f r = (λ h. refl, λ h. refl)

-- `for x in xs { check(x)?; }`
module _ {ℓ} {A : Type ℓ} where
  abbrev pub each : (A → Result (Unit {0})) → List A → Result (Unit {0})
  each check [] = done
  each check (x ∷ xs) = check x >> each check xs

  pub each-Passes :
      (check : A → Result (Unit {0})) (xs : List A)
      → Passes (each check xs) ↔ All (λ x. Passes (check x)) xs
  each-Passes check [] = (λ h. tt, λ h. refl)
  each-Passes check (x ∷ xs) =
      let rest = each-Passes check xs in
      (
        λ h. let both = (>>-Passes (check x) (each check xs)).0 h in (both.0, rest.0 both.1),
        λ h. (>>-Passes (check x) (each check xs)).1 (h.0, rest.1 h.1),
      )

-- The loop passes where each element meets what its check means.
pub each_iff {ℓ} :
    {A : Type ℓ} {check : A → Result (Unit {0})} {P : A → Type 0}
    → ((x : A) → Passes (check x) ↔ P x)
    → (xs : List A) → Passes (each check xs) ↔ All P xs
each_iff e [] = (λ h. tt, λ h. refl)
each_iff {check = check} e (x ∷ xs) =
    let rest = each_iff e xs in
    let both = >>-Passes (check x) (each check xs) in
    (λ h. ((e x).0 (both.0 h).0, rest.0 (both.0 h).1), λ h. both.1 ((e x).1 h.0, rest.1 h.1))

module _ {ℓ κ} {A : Type ℓ} {P Q : A → Type κ} where
  pub All-map : ((a : A) → P a → Q a) → (xs : List A) → All P xs → All Q xs
  All-map f [] h = tt
  All-map f (x ∷ xs) h = (f x h.0, All-map f xs h.1)

-- A chain that returned got a value from its first part, and returned by the rest.
pub >>=-ok {ℓ κ} :
    {T : Type ℓ} {U : Type κ} (first : Result T) (rest : T → Result U) {u : U}
    → (first >>= rest) ≡ ok u
    → (t : T) × (first ≡ ok t) × (rest t ≡ ok u)
>>=-ok (err e) rest h = cc
>>=-ok (ok t) rest h = (t, refl, h)

pub >>-ok {ℓ} :
    {U : Type ℓ} (check : Result (Unit {0})) (rest : Result U) {u : U}
    → (check >> rest) ≡ ok u
    → Passes check × (rest ≡ ok u)
>>-ok (err e) rest h = cc
>>-ok (ok t) rest h = (refl, h)

pub ok_value {ℓ} : {T : Type ℓ} {a b : T} → ok a ≡ ok b → a ≡ b
ok_value h = cc

-- The same where the check means that only on some elements.
pub each_iff_on {ℓ} :
    {A : Type ℓ} {check : A → Result (Unit {0})} {H P : A → Type 0}
    → ((x : A) → H x → Passes (check x) ↔ P x)
    → (xs : List A) → All H xs
    → Passes (each check xs) ↔ All P xs
each_iff_on e [] h = (λ r. tt, λ r. refl)
each_iff_on {check = check} e (x ∷ xs) h =
    let head = e x h.0 in
    let rest = each_iff_on e xs h.1 in
    let both = >>-Passes (check x) (each check xs) in
    (λ r. (head.0 (both.0 r).0, rest.0 (both.0 r).1), λ r. both.1 (head.1 r.0, rest.1 r.1))
