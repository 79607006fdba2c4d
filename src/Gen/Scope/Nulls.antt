-- ===== src/Gen/Scope/Nulls.antt =====
-- The scope that the generator writes is what the document says: a value excludes a field exactly
-- if an entry of the document makes the field null at that value.
use terraform_provider_uapi.Base.{
  ◌≡◌, refl, ◌∙◌, ap, String, Bool, true, false, ◌&&◌, ◌||◌, none, some, List, [], ◌∷◌, ◌++◌, ◌==◌,
  any, contains, nat_eq, length, arith, Bool-cases, inl, inr,
}
use terraform_provider_uapi.Base.Text.{is_empty}
use terraform_provider_uapi.Any.{Any, null, str}
use terraform_provider_uapi.Provider.FieldScope.{FieldScope, ScopeRule, excluded}
use terraform_provider_uapi.Provider.FieldScope.Excluded.{bars, contains-excluded}
use terraform_provider_uapi.Gen.Made.{made, >>=-eq-made}
use terraform_provider_uapi.Gen.Names.{sort_strings, contains-sort_strings}
use terraform_provider_uapi.Gen.Spec.{SpecProp, CondValue, SpecCond, Field, Descriptor, find}
use terraform_provider_uapi.Gen.Field.{ResModel, build_fields, build_resource}
use terraform_provider_uapi.Gen.Scope.{
  is_null_prop, is_other_prop, nulls_only, const_values, rule_values, scoped_names, switch_of,
  Table, add_rule, step, read_rules, set_scope, apply_scope, is_writable, enum_of, known_values,
  annotate,
}

-- The `if` of an entry holds at a value: the value is its const, or stands in its enum.
abbrev const_matches : String → List String → Any → Bool
const_matches v enum null = contains enum v
const_matches v enum (str s) = s == v
const_matches v enum _ = false

abbrev pub matches : String → String × CondValue → Bool
matches v (name, cv) = const_matches v cv.enum cv.const

-- The `then` of an entry makes a field null.
abbrev pub nulls : String → String × SpecProp → Bool
nulls f (name, p) = (name == f) && is_null_prop (name, p)

abbrev pub entry_nulls : String → String → SpecCond → Bool
entry_nulls v f c = any (matches v) c.condition && any (nulls f) c.consequence

any_null :
    (f : String) (props : List (String × SpecProp))
    → any is_null_prop props ≡ false
    → any (nulls f) props ≡ false
any_null f [] h = refl
any_null f ((name, p) ∷ rest) h = ground (arith, any_null f rest)

module _ (type : String) (fields : List Field) where
  contains-scoped_names :
      (f : String) (props : List (String × SpecProp)) (names : List String)
      → scoped_names type fields props ≡ made names
      → any is_other_prop props ≡ false
      → contains names f ≡ any (nulls f) props
  unfolding scoped_names
  contains-scoped_names f [] names h o = ground arith
  contains-scoped_names f ((name, p) ∷ rest) names h o =
      elim (Bool-cases (is_writable fields name)) [
        | inr e ↦ cc (rw e at h)
        | inl e ↦
            let (ns, hn, hm) =
              >>=-eq-made (scoped_names type fields rest) (λ ns. made (name ∷ ns)) (rw e at h) in
            ground (arith, contains-scoped_names f rest ns hn)
      ]

  contains-const_values :
      (name v : String) (enum : List String) (a : Any) (values : List String)
      → const_values type name enum a ≡ made values
      → contains values v ≡ const_matches v enum a
  contains-const_values name v enum null values h = ground arith
  contains-const_values name v enum (str s) values h = ground arith
  contains-const_values name v enum _ values h = cc h

  switch_of-single :
      (field : String) (entries : List (String × CondValue)) (name : String) (cv : CondValue)
      → switch_of type field entries ≡ made (name, cv)
      → entries ≡ (name, cv) ∷ []
  unfolding switch_of
  switch_of-single field [] name cv h = cc h
  switch_of-single field ((n, v) ∷ (x ∷ xs)) name cv h = cc h
  switch_of-single field ((n, v) ∷ []) name cv h = ground arith

  -- One entry adds one rule, which bars a field from a value as the entry nulls it.
  bars-add_rule :
      (v f : String) (c : SpecCond) (t t' : Table)
      → add_rule type fields c t ≡ made t'
      → any is_other_prop c.consequence ≡ false
      → (r : ScopeRule) × (t'.1 ≡ t.1 ++ r ∷ []) × (bars v f r ≡ entry_nulls v f c)
  unfolding add_rule rule_values
  bars-add_rule v f c (field, rules) t' h o =
      let (nv, hs, h1) = >>=-eq-made (switch_of type field c.condition) _ h in
      let (values, hv, h2) = >>=-eq-made (rule_values type nv.0 nv.1) _ h1 in
      let (names, hn, h3) = >>=-eq-made (scoped_names type fields c.consequence) _ h2 in
      let single = switch_of-single field c.condition nv.0 nv.1 hs in
      (
        record { values = values; fields = sort_strings names },
        ground arith,
        rw
            (
              contains-sort_strings names f,
              contains-const_values nv.0 v nv.1.enum nv.1.const values hv,
              contains-scoped_names f c.consequence names hn o,
            )
            (rw single (ground arith)),
      )

  any-append :
      (P : ScopeRule → Bool) (xs ys : List ScopeRule) → any P (xs ++ ys) ≡ (any P xs || any P ys)
  any-append P [] ys = refl
  any-append P (x ∷ xs) ys = ground (arith, any-append P xs ys)

  -- What one entry adds to the table.
  bars-step :
      (v f : String) (c : SpecCond) (nulls : Bool) (t t' : Table)
      → nulls_only type c ≡ made nulls
      → step type fields c nulls t ≡ made t'
      → any (bars v f) t'.1 ≡ (any (bars v f) t.1 || entry_nulls v f c)
  unfolding nulls_only
  bars-step v f c false t t' hn h =
      let none_null = any_null f c.consequence (ground arith) in ground (arith, none_null)
  bars-step v f c true t t' hn h =
      let (r, added, same) = bars-add_rule v f c t t' h (ground arith) in
      rw (added, any-append (bars v f) t.1 (r ∷ []), same) (ground arith)

  bars-read_rules :
      (v f : String) (cs : List SpecCond) (t t' : Table)
      → read_rules type fields cs t ≡ made t'
      → any (bars v f) t'.1 ≡ (any (bars v f) t.1 || any (entry_nulls v f) cs)
  unfolding read_rules
  bars-read_rules v f [] t t' h = ground arith
  bars-read_rules v f (c ∷ cs) t t' h =
      let (nulls, hn, h1) = >>=-eq-made (nulls_only type c) _ h in
      let (t1, hs, h2) = >>=-eq-made (step type fields c nulls t) _ h1 in
      ground (arith, bars-read_rules v f cs t1 t' h2, bars-step v f c nulls t t1 hn hs)

set_scope-rules :
    (r r' : ResModel) (props : List (String × SpecProp)) (t : Table) (s : FieldScope)
    → r.scope ≡ none
    → set_scope r props t ≡ made r'
    → r'.scope ≡ some s
    → s.rules ≡ t.1
unfolding set_scope
set_scope-rules r r' props (name, rules) s blank h e = elim (Bool-cases (is_empty name)) [
  | inl q ↦ cc (rw q at h, blank, e)
  | inr q ↦ elim (Bool-cases (nat_eq (length (enum_of (find name props))) 0)) [
    | inl z ↦ cc (rw (q, z) at h)
    | inr z ↦
        let (known, hk, h1) =
          >>=-eq-made (known_values r.type name (enum_of (find name props))) _ (rw (q, z) at h) in
        let (fields, hf, h2) = >>=-eq-made (annotate r.type name rules known r.fields) _ h1 in
        ground arith
  ]
]

module _ (common : List (String × String)) (d : Descriptor) (writable : List (String × SpecProp))
    (required_names : List String) where
  pub build_resource-scope :
      (props : List (String × SpecProp)) (r : ResModel)
      → build_resource common d writable required_names props ≡ made r
      → r.scope ≡ none
  unfolding build_resource
  build_resource-scope props r h =
      let (fs, hf, h1) = >>=-eq-made (build_fields common d writable required_names props _) _ h in
      ground arith

  -- Where the generator gives a resource a scope, the provider excludes a field from a value
  -- exactly if some entry of the document makes the field null at that value.
  pub excluded-apply_scope :
      (props : List (String × SpecProp)) (conds : List SpecCond) (r r' : ResModel) (s : FieldScope)
      (v f : String)
      → build_resource common d writable required_names props ≡ made r
      → apply_scope r conds writable ≡ made r'
      → r'.scope ≡ some s
      → contains (excluded s v) f ≡ any (entry_nulls v f) conds
  unfolding apply_scope
  excluded-apply_scope props conds r r' s v f built h e =
      let (t, ht, h1) = >>=-eq-made (read_rules r.type r.fields conds ("", [])) _ h in
      contains-excluded s v f
      ∙ (ap (any (bars v f))
            (set_scope-rules r r' writable t s (build_resource-scope props r built) h1 e)
          ∙ bars-read_rules r.type r.fields v f conds ("", []) t ht)
