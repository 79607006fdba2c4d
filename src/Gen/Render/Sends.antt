-- ===== src/Gen/Render/Sends.antt =====
-- What the statements of body() put, field by field.
use terraform_provider_uapi.Base.{
  ◌≡◌, refl, ◌∙◌, String, Bool, true, false, ◌&&◌, not, none, some, List, [], ◌∷◌, ◌==◌, map,
  contains, All, if◌then◌else◌, arith, Bool-cases, inl, inr, eq_iff,
}
use terraform_provider_uapi.Any.{Object, lookup}
use terraform_provider_uapi.Any.Laws.{lookup-insert}
use terraform_provider_uapi.Framework.{Attr, known, unknown, null as no_value}
use terraform_provider_uapi.Platform.{Platform}
use terraform_provider_uapi.Provider.Values.{Body, put_int_or_str}
use terraform_provider_uapi.Provider.Values.Laws.{
  lookup-put_str, lookup-put_bool, lookup-put_int64, lookup-put_list,
}
use terraform_provider_uapi.Provider.FieldScope.{AttrValue}
use terraform_provider_uapi.Gen.Spec.{
  GoType, Kind, required, optcomp, optclear, computedbool, computedstring, intstr, Field,
}
use terraform_provider_uapi.Gen.Render.{
  Values, as_text, put_typed, put_kind, body_stmt, body_stmts, is_create_only,
}
use terraform_provider_uapi.Gen.Render.Fits.{
  HasType, is_stored, FitsKind-HasType, same_name, sent, IsDistinct, Fits,
}

module _ (p : Platform) where
  put_typed-own :
      (t : GoType) (n : String) (v : AttrValue) (b : Body)
      → HasType t v
      → lookup n b.0 ≡ none
      → lookup n (put_typed p t n v b).0 ≡ sent p v
  put_typed-own GoType.string n v b (none, e) h = rw (e, lookup-put_str, h, same_name n)
  put_typed-own GoType.string n v b (some a, e) h = rw (e, lookup-put_str, h, same_name n)
  put_typed-own GoType.bool n v b (none, e) h = rw (e, lookup-put_bool, h, same_name n)
  put_typed-own GoType.bool n v b (some a, e) h = rw (e, lookup-put_bool, h, same_name n)
  put_typed-own GoType.int64 n v b (none, e) h = rw (e, lookup-put_int64, h, same_name n)
  put_typed-own GoType.int64 n v b (some a, e) h = rw (e, lookup-put_int64, h, same_name n)
  put_typed-own GoType.list n v b (inl e) h = rw (e, lookup-put_list, h, same_name n)
  put_typed-own GoType.list n v b (inr (xs, e)) h = rw (e, lookup-put_list, h, same_name n)

  put_typed-other :
      (t : GoType) (n j : String) (v : AttrValue) (b : Body)
      → (n == j) ≡ false
      → lookup j (put_typed p t n v b).0 ≡ lookup j b.0
  put_typed-other GoType.string n j v b h = rw (lookup-put_str, h)
  put_typed-other GoType.bool n j v b h = rw (lookup-put_bool, h)
  put_typed-other GoType.int64 n j v b h = rw (lookup-put_int64, h)
  put_typed-other GoType.list n j v b h = rw (lookup-put_list, h)

  put_int_or_str-other :
      (n j : String) (v : Attr String) (b : Body)
      → (n == j) ≡ false
      → lookup j (put_int_or_str n v b).0 ≡ lookup j b.0
  unfolding put_int_or_str
  put_int_or_str-other n j (known a) b h = rw (lookup-insert, h)
  put_int_or_str-other n j no_value b h = refl
  put_int_or_str-other n j unknown b h = refl

  put_kind-other :
      (k : Kind) (t : GoType) (n j : String) (v : AttrValue) (b : Body)
      → (n == j) ≡ false
      → lookup j (put_kind p k t n v b).0 ≡ lookup j b.0
  put_kind-other computedbool t n j v b h = refl
  put_kind-other computedstring t n j v b h = refl
  put_kind-other intstr t n j v b h = put_int_or_str-other n j (as_text v) b h
  put_kind-other _ t n j v b h = put_typed-other t n j v b h

  put_kind-own :
      (k : Kind) (t : GoType) (n : String) (v : AttrValue) (b : Body)
      → is_stored k ≡ true
      → HasType t v
      → lookup n b.0 ≡ none
      → lookup n (put_kind p k t n v b).0 ≡ sent p v
  put_kind-own required t n v b s ty h = put_typed-own t n v b ty h
  put_kind-own optcomp t n v b s ty h = put_typed-own t n v b ty h
  put_kind-own optclear t n v b s ty h = put_typed-own t n v b ty h
  put_kind-own _ t n v b s ty h = cc s

  -- one statement of body() with its `if create`
  abbrev pub next_body : Bool → Field → Values → Body → Body
  next_body create f m b =
      if is_create_only f.kind && not create then b else body_stmt p f (m f.name) b

  pub next_body-other :
      (create : Bool) (f : Field) (j : String) (m : Values) (b : Body)
      → (f.name == j) ≡ false
      → lookup j (next_body create f m b).0 ≡ lookup j b.0
  unfolding body_stmt
  next_body-other create f j m b h = elim (Bool-cases (is_create_only f.kind && not create)) [
    | inl e ↦ rw e
    | inr e ↦ rw e (put_kind-other f.kind f.go_type f.name j (m f.name) b h)
  ]

  not_create_only : (k : Kind) (c : Bool) → is_stored k ≡ true → (is_create_only k && c) ≡ false
  not_create_only required c h = refl
  not_create_only optcomp c h = refl
  not_create_only optclear c h = refl
  not_create_only _ c h = cc

  next_body-own :
      (create : Bool) (f : Field) (m : Values) (b : Body)
      → is_stored f.kind ≡ true
      → HasType f.go_type (m f.name)
      → lookup f.name b.0 ≡ none
      → lookup f.name (next_body create f m b).0 ≡ sent p (m f.name)
  unfolding body_stmt
  next_body-own create f m b s ty h =
      rw (not_create_only f.kind (not create) s)
        (put_kind-own f.kind f.go_type f.name (m f.name) b s ty h)

  pub body_stmts-other :
      (create : Bool) (fs : List Field) (j : String) (m : Values) (b : Body)
      → contains (map (λ (f : Field). f.name) fs) j ≡ false
      → lookup j (body_stmts p create fs m b).0 ≡ lookup j b.0
  unfolding body_stmts
  body_stmts-other create [] j m b h = refl
  body_stmts-other create (f ∷ fs) j m b h =
      body_stmts-other create fs j m (next_body create f m b) (ground arith)
      ∙ next_body-other create f j m b (ground arith)

  -- What the body has at each stored field is what its value is sent as.
  abbrev pub Sends : Values → Object → Field → Type 0
  Sends m body f = is_stored f.kind ≡ true → lookup f.name body ≡ sent p (m f.name)

  abbrev pub Lacks : Object → Field → Type 0
  Lacks body f = lookup f.name body ≡ none

  pub Lacks-next :
      (create : Bool) (f : Field) (fs : List Field) (m : Values) (b : Body)
      → contains (map (λ (g : Field). g.name) fs) f.name ≡ false
      → All (Lacks b.0) fs
      → All (Lacks (next_body create f m b).0) fs
  Lacks-next create f [] m b d l = tt
  Lacks-next create f (g ∷ gs) m b d l = (
    next_body-other create f g.name m b (ground (arith, eq_iff f.name g.name, eq_iff g.name f.name))
        ∙ l.0,
    Lacks-next create f gs m b (ground arith) l.1,
  )

  pub body_stmts-Sends :
      (create : Bool) (fs : List Field) (m : Values) (b : Body)
      → IsDistinct p fs
      → All (Fits p m) fs
      → All (Lacks b.0) fs
      → All (Sends m (body_stmts p create fs m b).0) fs
  unfolding body_stmts
  body_stmts-Sends create [] m b d t l = tt
  body_stmts-Sends create (f ∷ fs) m b d t l = (
    λ s.
        body_stmts-other create fs f.name m (next_body create f m b) d.0
        ∙ next_body-own create f m b s (FitsKind-HasType f.kind f.go_type (m f.name) s t.0) l.0,
    body_stmts-Sends create fs m (next_body create f m b) d.1 t.1
        (Lacks-next create f fs m b d.0 l.1),
  )
