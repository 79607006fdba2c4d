-- ===== src/Gen/Scope/Unnamed.antt =====
-- applyScope leaves a resource without a scope only if no entry of the request schema nulls a field.
use terraform_provider_uapi.Base.{
  ◌≡◌, String, Bool, true, false, ◌&&◌, not, none, List, [], ◌∷◌, any, nat_eq, length, arith,
  eq_iff, inl, inr, Bool-cases,
}
use terraform_provider_uapi.Base.Text.{is_empty}
use terraform_provider_uapi.Gen.Made.{made, >>=-eq-made}
use terraform_provider_uapi.Gen.Spec.{SpecProp, CondValue, SpecCond, find, Field}
use terraform_provider_uapi.Gen.Field.{ResModel}
use terraform_provider_uapi.Gen.Scope.{
  Table, is_null_prop, nulls_only, switch_of, add_rule, rule_values, scoped_names, step, read_rules,
  known_values, annotate, enum_of, set_scope, apply_scope,
}

-- the field whose values an entry switches on
abbrev pub switch_name : List (String × CondValue) → String
switch_name [] = ""
switch_name ((name, v) ∷ entries) = name

-- An entry nulls some field at some values of a named field.
abbrev pub is_named_null : SpecCond → Bool
is_named_null c = any is_null_prop c.consequence && not (is_empty (switch_name c.condition))

module _ (type : String) (fields : List Field) where
  switch_of-named :
      (field : String) (entries : List (String × CondValue)) (name : String) (v : CondValue)
      → switch_of type field entries ≡ made (name, v)
      → is_empty name ≡ true
      → (is_empty field ≡ true) × (is_empty (switch_name entries) ≡ true)
  unfolding switch_of
  switch_of-named field [] name v h e = cc h
  switch_of-named field ((n, u) ∷ (x ∷ xs)) name v h e = cc h
  switch_of-named field ((n, u) ∷ []) name v h e = ground (arith, eq_iff field n)

  step-named :
      (c : SpecCond) (nulls : Bool) (t t' : Table)
      → nulls_only type c ≡ made nulls
      → step type fields c nulls t ≡ made t'
      → is_empty t'.0 ≡ true
      → (is_empty t.0 ≡ true) × (is_named_null c ≡ false)
  unfolding nulls_only add_rule
  step-named c false t t' hn h e = ground arith
  step-named c true (field, rules) t' hn h e =
      let (nv, hs, h1) = >>=-eq-made (switch_of type field c.condition) _ h in
      let (values, hv, h2) = >>=-eq-made (rule_values type nv.0 nv.1) _ h1 in
      let (names, hm, h3) = >>=-eq-made (scoped_names type fields c.consequence) _ h2 in
      let same : t'.0 ≡ nv.0 = ground arith in
      let (first, entry) = switch_of-named field c.condition nv.0 nv.1 hs (rw (← same) e) in
      (first, rw entry (ground arith))

  read_rules-named :
      (cs : List SpecCond) (t t' : Table)
      → read_rules type fields cs t ≡ made t'
      → is_empty t'.0 ≡ true
      → (is_empty t.0 ≡ true) × (any is_named_null cs ≡ false)
  unfolding read_rules
  read_rules-named [] t t' h e = ground arith
  read_rules-named (c ∷ cs) t t' h e =
      let (nulls, hn, h1) = >>=-eq-made (nulls_only type c) _ h in
      let (t1, hs, h2) = >>=-eq-made (step type fields c nulls t) _ h1 in
      let (first, rest) = read_rules-named cs t1 t' h2 e in
      let (before, one) = step-named c nulls t t1 hn hs first in (before, rw (one, rest))

set_scope-none :
    (r r' : ResModel) (props : List (String × SpecProp)) (t : Table)
    → set_scope r props t ≡ made r'
    → r'.scope ≡ none
    → is_empty t.0 ≡ true
unfolding set_scope
set_scope-none r r' props (name, rules) h e = elim (Bool-cases (is_empty name)) [
  | inl q ↦ q
  | inr q ↦ elim (Bool-cases (nat_eq (length (enum_of (find name props))) 0)) [
    | inl z ↦ cc (rw (q, z) at h)
    | inr z ↦
        let (known, hk, h1) =
          >>=-eq-made (known_values r.type name (enum_of (find name props))) _ (rw (q, z) at h) in
        let (fields, hf, h2) = >>=-eq-made (annotate r.type name rules known r.fields) _ h1 in
        absurd (ground arith)
  ]
]

pub apply_scope-none :
    (r r' : ResModel) (conds : List SpecCond) (props : List (String × SpecProp))
    → apply_scope r conds props ≡ made r'
    → r'.scope ≡ none
    → any is_named_null conds ≡ false
unfolding apply_scope
apply_scope-none r r' conds props h e =
    let (t, ht, h1) = >>=-eq-made (read_rules r.type r.fields conds ("", [])) _ h in
    (read_rules-named r.type r.fields conds ("", []) t ht (set_scope-none r r' props t h1 e)).1
