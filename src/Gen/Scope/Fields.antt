-- ===== src/Gen/Scope/Fields.antt =====
-- applyScope changes the descriptions of the fields, and nothing else of them.
use terraform_provider_uapi.Base.{
  ◌≡◌, refl, String, List, [], ◌∷◌, map, nat_eq, length, All, if◌then◌else◌, arith, Bool-cases, inl,
  inr,
}
use terraform_provider_uapi.Base.Text.{is_empty}
use terraform_provider_uapi.Provider.FieldScope.{ScopeRule}
use terraform_provider_uapi.Gen.Made.{made, >>=-eq-made}
use terraform_provider_uapi.Gen.Spec.{SpecProp, SpecCond, find, Field}
use terraform_provider_uapi.Gen.Field.{ResModel}
use terraform_provider_uapi.Gen.Scope.{
  Table, read_rules, set_scope, apply_scope, enum_of, known_values, annotate, annotated, takes,
  is_free_field,
}

pub made-inj : {A : Type 0} {a b : A} → made a ≡ made b → a ≡ b
made-inj h = cc h

-- A property of fields that does not read their descriptions.
module _ (P : Field → Type 0)
    (keeps : (f : Field) (t : String) → P f → P (record f { desc = t })) where
  module _ (type discriminator : String) (rules : List ScopeRule) (known : List String) where
    annotated-keeps :
        (f g : Field) (vs : List String)
        → annotated type discriminator f vs ≡ made g
        → P f
        → P g × (g.name ≡ f.name)
    annotated-keeps f g [] h pf = cc h
    annotated-keeps f g (v ∷ vs) h pf = rw (← made-inj h) (keeps f _ pf, refl)

    one :
        (f g : Field)
        → (if is_free_field rules f.name
            then made f
            else annotated type discriminator f (takes rules f.name known))
          ≡ made g
        → P f
        → P g × (g.name ≡ f.name)
    one f g h pf = elim (Bool-cases (is_free_field rules f.name)) [
      | inl e ↦ rw (← made-inj (rw e at h)) (pf, refl)
      | inr e ↦ annotated-keeps f g (takes rules f.name known) (rw e at h) pf
    ]

    annotate-All :
        (fs gs : List Field)
        → annotate type discriminator rules known fs ≡ made gs
        → All P fs
        → All P gs × (map (λ (f : Field). f.name) gs ≡ map (λ (f : Field). f.name) fs)
    unfolding annotate
    annotate-All [] gs h ps = let same : gs ≡ [] = ground arith in rw same (tt, refl)
    annotate-All (f ∷ fs) gs h ps =
        let (g, hg, h1) =
          >>=-eq-made
            (if is_free_field rules f.name
              then made f
              else annotated type discriminator f (takes rules f.name known))
            _ h in
        let (rest, hr, h2) = >>=-eq-made (annotate type discriminator rules known fs) _ h1 in
        let (others, names) = annotate-All fs rest hr ps.1 in
        let (first, name) = one f g hg ps.0 in
        let same : gs ≡ g ∷ rest = ground arith in rw same ((first, others), rw (name, names))

  set_scope-All :
      (r r' : ResModel) (props : List (String × SpecProp)) (t : Table)
      → set_scope r props t ≡ made r'
      → All P r.fields
      → All P r'.fields
        × (map (λ (f : Field). f.name) r'.fields ≡ map (λ (f : Field). f.name) r.fields)
  unfolding set_scope
  set_scope-All r r' props (name, rules) h ps = elim (Bool-cases (is_empty name)) [
    | inl q ↦ rw (← made-inj (rw q at h)) (ps, refl)
    | inr q ↦ elim (Bool-cases (nat_eq (length (enum_of (find name props))) 0)) [
      | inl z ↦ cc (rw (q, z) at h)
      | inr z ↦
          let (known, hk, h1) =
            >>=-eq-made (known_values r.type name (enum_of (find name props))) _ (rw (q, z) at h) in
          let (fields, hf, h2) = >>=-eq-made (annotate r.type name rules known r.fields) _ h1 in
          rw (← made-inj h2) (annotate-All r.type name rules known r.fields fields hf ps)
    ]
  ]

  pub apply_scope-All :
      (r r' : ResModel) (conds : List SpecCond) (props : List (String × SpecProp))
      → apply_scope r conds props ≡ made r'
      → All P r.fields
      → All P r'.fields
        × (map (λ (f : Field). f.name) r'.fields ≡ map (λ (f : Field). f.name) r.fields)
  unfolding apply_scope
  apply_scope-All r r' conds props h ps =
      let (t, ht, h1) = >>=-eq-made (read_rules r.type r.fields conds ("", [])) _ h in
      set_scope-All r r' props t h1 ps
