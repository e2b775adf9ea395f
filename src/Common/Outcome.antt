-- ===== src/Common/Outcome.antt =====
-- Python's exceptions, as values. A function that may raise returns an `Outcome`.
use mathlib.Core.Path.{◌≡◌, refl, subst}
use mathlib.Core.Logic.{◌⊎◌, inl, inr}
use mathlib.Core.Bool.{Bool, true, false}
use mathlib.Core.List.{List, [], ◌∷◌}
use Prim.Native.String.{String}
use checkseal.Common.Tests.{All}

-- `vcr_error` is `VCRError`; `json_decode_error` and `unicode_decode_error` are the classes of that
-- name, and `value_error` any other `ValueError`: these four are subclasses of `ValueError`.
-- `type_error`, `key_error`, `index_error`, `os_error` and `runtime_error` are the classes of that
-- name with their subclasses; any other class is an `other_error`.
-- The text is the fixed part of the message: interpolated values are left out.
pub data Exn : Type 0 where
  vcr_error : String → Exn
  value_error : String → Exn
  json_decode_error : Exn
  unicode_decode_error : Exn
  type_error key_error index_error os_error runtime_error : Exn
  other_error : String → Exn

pub data Outcome {ℓ} (A : Type ℓ) : Type ℓ where
  ok : A → Outcome A
  raise : Exn → Outcome A

-- What comes after an exception does not run.
infixl 5 ◌>>=◌
abbrev pub ◌>>=◌ {ℓ κ} : {A : Type ℓ} {B : Type κ} → Outcome A → (A → Outcome B) → Outcome B
raise x >>= after = raise x
ok result >>= after = after result

-- The same, for a statement whose result is not used.
infixl 5 ◌>>◌
abbrev pub ◌>>◌ {κ} : {B : Type κ} → Outcome (Unit {0}) → Outcome B → Outcome B
statement >> after = statement >>= λ _. after

-- model.py `_require`
abbrev pub require : Bool → String → Outcome (Unit {0})
require true msg = ok tt
require false msg = raise (vcr_error msg)

pub Outcome-cases {ℓ} :
    {A : Type ℓ} (m : Outcome A) → ((a : A) × (m ≡ ok a)) ⊎ ((e : Exn) × (m ≡ raise e))
Outcome-cases (ok a) = inl (a, refl)
Outcome-cases (raise e) = inr (e, refl)

module _ {ℓ κ} {A : Type ℓ} {B : Type κ} where
  -- A list comprehension whose element may raise.
  abbrev pub for_each : (A → Outcome B) → List A → Outcome (List B)
  for_each f [] = ok []
  for_each f (x ∷ xs) = do y ← f x; ys ← for_each f xs; ok (y ∷ ys)

  -- A sequence gives a result only if its first part does.
  pub >>=-eq-ok :
      (first : Outcome A) (after : A → Outcome B) {result : B}
      → (first >>= after) ≡ ok result
      → (x : A) × (first ≡ ok x) × (after x ≡ ok result)
  >>=-eq-ok (raise x) after run = cc
  >>=-eq-ok (ok x) after run = (x, refl, run)

module _ {ℓ κ ι} {A : Type ℓ} {B : Type κ} (P : B → Type ι) (f : A → Outcome B) where
  -- What holds of every result of `f` holds of each element of the comprehension's result.
  pub for_each-All :
      ((x : A) (y : B) → f x ≡ ok y → P y)
      → (xs : List A) {ys : List B} → for_each f xs ≡ ok ys
      → All P ys
  for_each-All h [] e = subst (All P) {x = []} (cc e) tt
  for_each-All h (x ∷ xs) e =
      let (y, p, q) = >>=-eq-ok (f x) (λ y. for_each f xs >>= λ zs. ok (y ∷ zs)) e in
      let (zs, r, s) = >>=-eq-ok (for_each f xs) (λ zs. ok (y ∷ zs)) q in
      subst (All P) {x = y ∷ zs} (cc s) (h x y p, for_each-All h xs r)

-- A relation between the elements at each place of two lists of one length.
abbrev pub Each {ℓ κ} : {A : Type ℓ} {B : Type κ} → (A → B → Type 0) → List A → List B → Type 0
Each R [] [] = Unit
Each R (x ∷ xs) (y ∷ ys) = R x y × Each R xs ys
Each R _ _ = ⊥

module _ {ℓ κ} {A : Type ℓ} {B : Type κ} (R : A → B → Type 0) (f : A → Outcome B) where
  -- What relates an element to what `f` makes of it relates the list to the comprehension's result.
  pub for_each-Each :
      ((x : A) (y : B) → f x ≡ ok y → R x y)
      → (xs : List A) {ys : List B} → for_each f xs ≡ ok ys
      → Each R xs ys
  for_each-Each h [] e = subst (Each R []) {x = []} (cc e) tt
  for_each-Each h (x ∷ xs) e =
      let (y, p, q) = >>=-eq-ok (f x) _ e in
      let (zs, r, s) = >>=-eq-ok (for_each f xs) (λ zs. ok (y ∷ zs)) q in
      subst (Each R (x ∷ xs)) {x = y ∷ zs} (cc s) (h x y p, for_each-Each h xs r)
