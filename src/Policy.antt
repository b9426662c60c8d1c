-- ===== src/Policy.antt =====
-- Package policy (internal/policy): its errors and the types of engine.go that the parts share.
pub mod Bundle
pub mod Composition
pub mod Decisions
pub mod Exec
pub mod Explained
pub mod Facts
pub mod Managed
pub mod Manager
pub mod Opa
pub mod Scenarios
pub mod Sources
use normgate.Prelude.{
  ◌≡◌, refl, ◌⊎◌, inl, inr, ℕ, ◌≡◌, Bool, true, false, Option, none, some, List, [], ◌∷◌, ◌++◌,
  Slice, elements, String,
}
use normgate.Text.{Text, codes}
use normgate.Json.{Value, str, arr, obj}
use normgate.Json.Struct.{struct, items_of, slice_value}
use normgate.Contracts.{Obligation, obligation_value, Decision}

-- An `error`: a *policy.Error, the error of a cancelled context, or an error of another package.
pub data Error : Type 0 where
  policy_error : (code file : Text) (row column : ℕ) → Error
  context_error : Error
  foreign_error : Text → Error

-- Failure(code)
abbrev pub failure : String → Error
failure code = policy_error (codes "ng.policy." ++ codes code) [] 0 0

-- What a function with an `error` result does. A nil dereference panics.
pub data Try {ℓ} (A : Type ℓ) : Type ℓ where
  ok : A → Try A
  err : Error → Try A
  panic : Try A

pub Try-cases {ℓ} :
    {A : Type ℓ} (r : Try A) → ((a : A) × (r ≡ ok a)) ⊎ (((e : Error) × (r ≡ err e)) ⊎ (r ≡ panic))
Try-cases (ok a) = inl (a, refl)
Try-cases (err e) = inr (inl (e, refl))
Try-cases panic = inr (inr refl)

pub ok-injective : {A : Type 0} (x y : A) → ok x ≡ ok y → x ≡ y
ok-injective x y h = cc

infixl 5 ◌>>=◌ ◌>>◌
abbrev pub ◌>>=◌ {ℓ κ} : {A : Type ℓ} {B : Type κ} → Try A → (A → Try B) → Try B
ok a >>= f = f a
err e >>= f = err e
panic >>= f = panic

abbrev pub ◌>>◌ {κ} : {B : Type κ} → Try (Unit {0}) → Try B → Try B
m >> k = m >>= λ _. k

-- If the call returns, what it returns has the property.
abbrev pub Yields : {A : Type 0} → (A → Type 0) → Try A → Type 0
Yields P (ok a) = P a
Yields P (err e) = Unit
Yields P panic = Unit

pub >>=-Yields :
    {A B : Type 0} (P : A → Type 0) (Q : B → Type 0) (r : Try A) (k : A → Try B)
    → Yields P r
    → ((a : A) → P a → Yields Q (k a))
    → Yields Q (r >>= k)
>>=-Yields P Q (ok a) k h g = g a h
>>=-Yields P Q (err e) k h g = tt
>>=-Yields P Q panic k h g = tt

pub Yields-Unit : {A : Type 0} (r : Try A) → Yields (λ a. Unit) r
Yields-Unit (ok a) = tt
Yields-Unit (err e) = tt
Yields-Unit panic = tt

-- An error return unless the test holds.
abbrev pub require : Bool → Error → Try (Unit {0})
require true e = ok tt
require false e = err e

pub record Contribution : Type 0 where
  pub layer : Text
  pub rule_id : Text
  pub outcome : Text
  pub reason_codes : Slice Text
  pub obligations : Slice Obligation

pub record Result : Type 0 where
  pub outcome : Text
  pub reason_codes : List Text
  pub obligations : List Obligation

abbrev pub contribution_keys : List Text
contribution_keys =
    codes "layer"
    ∷ codes "rule_id"
    ∷ codes "outcome"
    ∷ codes "reason_codes"
    ∷ codes "obligations"
    ∷ []

abbrev pub contribution_fields : Contribution → List (Option Value)
contribution_fields p =
    some (str p.layer)
    ∷ some (str p.rule_id)
    ∷ some (str p.outcome)
    ∷ some (slice_value str p.reason_codes)
    ∷ some (slice_value obligation_value p.obligations)
    ∷ []

-- The JSON of a contribution.
unfoldable pub contribution_value : Contribution → Value
contribution_value p = obj (struct contribution_keys (contribution_fields p))
