-- ===== src/Gen/Attributes/Sent.antt =====
-- A schema lets a configuration set exactly what body() sends.
use terraform_provider_uapi.Base.{
  ◌≡◌, refl, sym, ◌∙◌, ap, String, Bool, true, false, ◌&&◌, ◌||◌, not, none, Option, is_some, List,
  [], ◌∷◌, All, ℤ, if◌then◌else◌,
}
use terraform_provider_uapi.Any.{Any, lookup}
use terraform_provider_uapi.Any.Laws.{lookup-insert}
use terraform_provider_uapi.Framework.{Attr, known}
use terraform_provider_uapi.Platform.{Platform}
use terraform_provider_uapi.Provider.Values.{Body, empty_body, put_int_or_str}
use terraform_provider_uapi.Provider.Values.Laws.{
  lookup-put_str, lookup-put_bool, lookup-put_int64, lookup-put_list,
}
use terraform_provider_uapi.Provider.FieldScope.{AttrValue, string, boolean, number, list}
use terraform_provider_uapi.Provider.Schema.{Attribute, is_settable}
use terraform_provider_uapi.Gen.Made.{Made, made, fails}
use terraform_provider_uapi.Gen.Spec.{
  GoType, Kind, required, optcomp, optclear, writeonly, createonly, computedbool, computedstring,
  intstr, Field,
}
use terraform_provider_uapi.Gen.Render.{
  Values, is_create_only, put_typed, put_kind, body_stmt, body_stmts,
}
use terraform_provider_uapi.Gen.Render.Fits.{same_name, IsDistinct}
use terraform_provider_uapi.Gen.Render.Sends.{Lacks, next_body, body_stmts-other, Lacks-next}
use terraform_provider_uapi.Gen.Render.RoundTrip.{empty-Lacks}
use terraform_provider_uapi.Gen.Attributes.{kind_attr, res_attr}

-- Whether a configuration may set what a generated attribute stands for: at a create, and, as
-- `create` is false, at an update, which a change of an attribute that replaces never reaches.
abbrev pub settable : Bool → Made Attribute → Bool
settable create (made a) = is_settable a && (create || not a.replaces)
settable create (fails e) = false

abbrev pub is_made {ℓ} : {A : Type ℓ} → Made A → Bool
is_made (made a) = true
is_made (fails e) = false

-- A value of a Go type that is neither null nor unknown.
abbrev pub IsKnown : GoType → AttrValue → Type 0
IsKnown GoType.string v = (a : String) × (v ≡ string (known a))
IsKnown GoType.bool v = (a : Bool) × (v ≡ boolean (known a))
IsKnown GoType.int64 v = (a : ℤ) × (v ≡ number (known a))
IsKnown GoType.list v = (a : List (Attr String)) × (v ≡ list (known a))

-- The same for a field; an integer-or-string union is a text, and a computed field may hold anything.
abbrev pub IsGivenKind : Kind → GoType → AttrValue → Type 0
IsGivenKind intstr t v = IsKnown GoType.string v
IsGivenKind computedbool t v = Unit {0}
IsGivenKind computedstring t v = Unit {0}
IsGivenKind _ t v = IsKnown t v

abbrev pub IsGiven : Values → Field → Type 0
IsGiven m f = IsGivenKind f.kind f.go_type (m f.name)

or_true : (c : Bool) → (c || true) ≡ true
or_true true = refl
or_true false = refl

module _ (p : Platform) where
  put_typed-known :
      (t : GoType) (n : String) (v : AttrValue) (b : Body)
      → IsKnown t v
      → is_some (lookup n (put_typed p t n v b).0) ≡ true
  put_typed-known GoType.string n v b (a, e) = rw (e, lookup-put_str, same_name n)
  put_typed-known GoType.bool n v b (a, e) = rw (e, lookup-put_bool, same_name n)
  put_typed-known GoType.int64 n v b (a, e) = rw (e, lookup-put_int64, same_name n)
  put_typed-known GoType.list n v b (a, e) = rw (e, lookup-put_list, same_name n)

  put_int_or_str-known :
      (n s : String) (b : Body) → is_some (lookup n (put_int_or_str n (known s) b).0) ≡ true
  unfolding put_int_or_str
  put_int_or_str-known n s b = rw (lookup-insert, same_name n)

  kind_attr-sent :
      (k : Kind) (t : GoType) (n desc : String) (v : AttrValue) (create : Bool) (b : Body)
      → is_made (kind_attr k t n desc) ≡ true
      → IsGivenKind k t v
      → lookup n b.0 ≡ none
      → is_some (lookup n (if is_create_only k && not create then b else put_kind p k t n v b).0)
        ≡ settable create (kind_attr k t n desc)
  kind_attr-sent required t n desc v create b ok given lacks =
      put_typed-known t n v b given ∙ sym (or_true create)
  kind_attr-sent optcomp GoType.string n desc v create b ok given lacks =
      put_typed-known GoType.string n v b given ∙ sym (or_true create)
  kind_attr-sent optcomp GoType.int64 n desc v create b ok given lacks =
      put_typed-known GoType.int64 n v b given ∙ sym (or_true create)
  kind_attr-sent optcomp GoType.bool n desc v create b ok given lacks =
      put_typed-known GoType.bool n v b given ∙ sym (or_true create)
  kind_attr-sent optcomp GoType.list n desc v create b ok given lacks =
      put_typed-known GoType.list n v b given ∙ sym (or_true create)
  kind_attr-sent optclear GoType.string n desc v create b ok given lacks =
      put_typed-known GoType.string n v b given ∙ sym (or_true create)
  kind_attr-sent optclear GoType.list n desc v create b ok given lacks =
      put_typed-known GoType.list n v b given ∙ sym (or_true create)
  kind_attr-sent optclear GoType.int64 n desc v create b ok given lacks = cc ok
  kind_attr-sent optclear GoType.bool n desc v create b ok given lacks = cc ok
  kind_attr-sent writeonly GoType.string n desc v create b ok given lacks =
      put_typed-known GoType.string n v b given ∙ sym (or_true create)
  kind_attr-sent writeonly GoType.list n desc v create b ok given lacks =
      put_typed-known GoType.list n v b given ∙ sym (or_true create)
  kind_attr-sent writeonly GoType.int64 n desc v create b ok given lacks = cc ok
  kind_attr-sent writeonly GoType.bool n desc v create b ok given lacks = cc ok
  kind_attr-sent intstr t n desc v create b ok (a, e) lacks =
      rw e (put_int_or_str-known n a b) ∙ sym (or_true create)
  kind_attr-sent createonly t n desc v true b ok given lacks = put_typed-known t n v b given
  kind_attr-sent createonly t n desc v false b ok given lacks = rw lacks
  kind_attr-sent computedbool t n desc v create b ok given lacks = rw lacks
  kind_attr-sent computedstring t n desc v create b ok given lacks = rw lacks

  IsGiven-next :
      (create : Bool) (f : Field) (m : Values) (b : Body)
      → is_made (res_attr f) ≡ true
      → IsGiven m f
      → lookup f.name b.0 ≡ none
      → is_some (lookup f.name (next_body p create f m b).0) ≡ settable create (res_attr f)
  unfolding res_attr body_stmt
  IsGiven-next create f m b ok given lacks =
      kind_attr-sent f.kind f.go_type f.name f.desc (m f.name) create b ok given lacks

  abbrev IsMade : Field → Type 0
  IsMade f = is_made (res_attr f) ≡ true

  body_stmts-settable :
      (create : Bool) (fs : List Field) (m : Values) (b : Body)
      → IsDistinct p fs
      → All IsMade fs
      → All (IsGiven m) fs
      → All (Lacks p b.0) fs
      → All
          (λ (f : Field).
            is_some (lookup f.name (body_stmts p create fs m b).0) ≡ settable create (res_attr f))
          fs
  unfolding body_stmts
  body_stmts-settable create [] m b d ok g l = tt
  body_stmts-settable create (f ∷ fs) m b d ok g l = (
    ap (λ (o : Option Any). is_some o)
          (body_stmts-other p create fs f.name m (next_body p create f m b) d.0)
        ∙ IsGiven-next create f m b ok.0 g.0 l.0,
    body_stmts-settable create fs m (next_body p create f m b) d.1 ok.1 g.1
        (Lacks-next p create f fs m b d.0 l.1),
  )

  -- If the generator makes an attribute for each field, the names differ, and each field that is
  -- not computed holds a known value, the body of a create has exactly the fields that the schema
  -- lets a configuration set, and the body of an update those of them whose change does not
  -- replace the resource.
  pub body_stmts-res_attr :
      (create : Bool) (fs : List Field) (m : Values)
      → IsDistinct p fs
      → All (λ (f : Field). is_made (res_attr f) ≡ true) fs
      → All (IsGiven m) fs
      → All
          (λ (f : Field).
            is_some (lookup f.name (body_stmts p create fs m empty_body).0)
            ≡ settable create (res_attr f))
          fs
  body_stmts-res_attr create fs m d ok g =
      body_stmts-settable create fs m empty_body d ok g (empty-Lacks p fs)
