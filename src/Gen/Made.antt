-- ===== src/Gen/Made.antt =====
-- A run of the generator: `fail` prints a message and exits, so a step makes a value or fails. The
-- messages are constructors here, with what they name.
use terraform_provider_uapi.Base.{String, ◌≡◌, refl, ℕ}
use terraform_provider_uapi.Any.{Any}

pub data Fault : Type 0 where
  no_response_schema no_request_schema : (schema : String) → Fault
  union_undeclared union_flagged union_required union_deprecated : (field resource : String) → Fault
  no_computed_emission : (field resource type : String) → Fault
  deprecated_field clear_on_singleton : (field resource : String) → Fault
  clear_type write_only_type : (field : String) → Fault
  mixed_entry : (resource : String) → Fault
  many_discriminators : (resource : String) (count : ℕ) → Fault
  two_discriminators : (resource first second : String) → Fault
  const_not_text : (resource field : String) (value : Any) → Fault
  scopes_unwritable : (resource field : String) → Fault
  no_enum : (resource field : String) → Fault
  enum_not_text : (resource field : String) (value : Any) → Fault
  never_taken : (resource discriminator field : String) → Fault

pub data Made {ℓ} (A : Type ℓ) : Type ℓ where
  made : A → Made A
  fails : Fault → Made A

infixl 5 ◌>>=◌ ◌>>◌
abbrev pub ◌>>=◌ {ℓ κ} : {A : Type ℓ} {B : Type κ} → Made A → (A → Made B) → Made B
made a >>= f = f a
fails e >>= f = fails e

abbrev pub ◌>>◌ {ℓ} : {B : Type ℓ} → Made (Unit {0}) → Made B → Made B
m >> k = m >>= λ _. k

-- The two parts of a run that makes a value.
pub >>=-eq-made {ℓ κ} :
    {A : Type ℓ} {B : Type κ} (m : Made A) (f : A → Made B) {b : B}
    → (m >>= f) ≡ made b
    → (a : A) × (m ≡ made a) × (f a ≡ made b)
>>=-eq-made (made a) f h = (a, refl, h)
>>=-eq-made (fails e) f h = cc
