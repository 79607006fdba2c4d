-- ===== src/Provider/FieldScope/Validation.antt =====
-- What validateConfig reports, for a configuration that the framework reads without diagnostics.
use terraform_provider_uapi.Base.{
  ◌≡◌, ◌↔◌, refl, String, true, List, [], ◌∷◌, All, Bool-cases, inl, inr, if◌then◌else◌,
}
use terraform_provider_uapi.Framework.{Attr, known, Diagnostic, has_error}
use terraform_provider_uapi.Platform.{Platform}
use terraform_provider_uapi.Provider.FieldScope.{
  FieldScope, Config, excluded, check_fields, validate_config, does_not_apply, passes,
}

pub record IsQuiet (c : Config) : Type 0 where
  pub no_string_diags : (f : String) → (c.string_at f).1 ≡ []
  pub no_value_diags : (f : String) → (c.value_at f).1 ≡ []

-- The first of the fields whose value uapi would refuse.
abbrev pub first_refused :
    Platform → FieldScope → Config → Attr String → List String → List Diagnostic
first_refused p s c v [] = []
first_refused p s c v (f ∷ fs) =
    let rest = first_refused p s c v fs in
    if passes (c.value_at f).0 then rest else does_not_apply p s v f ∷ []

module _ (p : Platform) (s : FieldScope) (c : Config) (q : IsQuiet c) where
  check_fields_failed :
      (v : Attr String) (fs : List String) (f : String)
      → check_fields p s c v fs (does_not_apply p s v f ∷ []) ≡ does_not_apply p s v f ∷ []
  unfolding check_fields has_error
  check_fields_failed v [] f = refl
  check_fields_failed v (g ∷ fs) f = rw (q.no_value_diags g)

  check_fields-first :
      (v : Attr String) (fs : List String) → check_fields p s c v fs [] ≡ first_refused p s c v fs
  unfolding check_fields has_error
  check_fields-first v [] = refl
  check_fields-first v (f ∷ fs) = elim (Bool-cases (passes (c.value_at f).0)) [
    | inl e ↦ rw (q.no_value_diags f, e) (check_fields-first v fs)
    | inr e ↦ rw (q.no_value_diags f, e) (check_fields_failed v fs f)
  ]

  first_refused-nil_iff :
      (v : Attr String) (fs : List String)
      → (first_refused p s c v fs ≡ []) ↔ All (λ f. passes (c.value_at f).0 ≡ true) fs
  first_refused-nil_iff v [] = (λ _. tt, λ _. refl)
  first_refused-nil_iff v (f ∷ fs) = elim (Bool-cases (passes (c.value_at f).0)) [
    | inl e ↦ (
      λ h. (e, (first_refused-nil_iff v fs).0 (rw e at h)),
      λ h. rw e ((first_refused-nil_iff v fs).1 h.1),
    )
    | inr e ↦ (λ h. cc (rw e at h), λ h. cc (e, h.0))
  ]

  -- With a known discriminator, and a configuration that the framework reads without diagnostics,
  -- validateConfig reports the first excluded field whose value is set, not unknown and not an
  -- empty list, and nothing else.
  pub validate_config-first :
      (v : String)
      → (c.string_at s.field).0 ≡ known v
      → validate_config p s c [] ≡ first_refused p s c (known v) (excluded s v)
  unfolding validate_config has_error
  validate_config-first v h =
      rw (q.no_string_diags s.field, h) (check_fields-first (known v) (excluded s v))

  -- With a known discriminator, and a configuration that the framework reads without diagnostics,
  -- validateConfig reports nothing exactly if the value of every excluded field is null, unknown
  -- or an empty list.
  pub validate_config-nil_iff :
      (v : String)
      → (c.string_at s.field).0 ≡ known v
      → (validate_config p s c [] ≡ []) ↔ All (λ f. passes (c.value_at f).0 ≡ true) (excluded s v)
  validate_config-nil_iff v h =
      rw (validate_config-first v h) (first_refused-nil_iff (known v) (excluded s v))
