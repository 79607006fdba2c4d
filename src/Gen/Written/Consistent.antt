-- ===== src/Gen/Written/Consistent.antt =====
-- A write of a network interface leaves the state that was planned.
use terraform_provider_uapi.Base.{
  ◌≡◌, refl, ◌∙◌, String, Bool, true, false, List, [], ◌∷◌, map, contains, All, if◌then◌else◌,
  arith, eq_iff,
}
use terraform_provider_uapi.Any.{Object, lookup}
use terraform_provider_uapi.Framework.{Attr}
use terraform_provider_uapi.Platform.{Platform, Lawful}
use terraform_provider_uapi.Provider.Values.{Body, empty_body, put_str}
use terraform_provider_uapi.Provider.Values.Laws.{lookup-put_str}
use terraform_provider_uapi.Provider.FieldScope.{AttrValue}
use terraform_provider_uapi.Resources.NetworkInterface.{Model, body, fill}
use terraform_provider_uapi.Gen.Spec.{Field}
use terraform_provider_uapi.Gen.Render.{read_stmts}
use terraform_provider_uapi.Gen.Render.Fits.{is_distinct-IsDistinct, Fits, Keeps, expected}
use terraform_provider_uapi.Gen.Render.Sends.{Lacks}
use terraform_provider_uapi.Gen.Render.RoundTrip.{read_stmts-after}
use terraform_provider_uapi.Gen.Written.NetworkInterface.{fields, values, body_lem, fill_lem}

module _ (p : Platform) where
  abbrev id_body : Bool → Attr String → Body
  id_body create id = if create then put_str "id" id empty_body else empty_body

  id_body-Lacks :
      (create : Bool) (id : Attr String) (fs : List Field)
      → contains (map (λ (f : Field). f.name) fs) "id" ≡ false
      → All (Lacks p (id_body create id).0) fs
  unfolding lookup
  id_body-Lacks create id [] h = tt
  id_body-Lacks false id (f ∷ fs) h = (refl, id_body-Lacks false id fs (ground arith))
  id_body-Lacks true id (f ∷ fs) h = (
    rw (lookup-put_str) (ground (arith, eq_iff "id" f.name, eq_iff f.name "id")),
    id_body-Lacks true id fs (ground arith),
  )

  -- Two equations at each field make one.
  All-trans :
      (u v w : Field → AttrValue) (fs : List Field)
      → All (λ (f : Field). u f ≡ v f) fs
      → All (λ (f : Field). v f ≡ w f) fs
      → All (λ (f : Field). u f ≡ w f) fs
  All-trans u v w [] a b = tt
  All-trans u v w (f ∷ fs) a b = (a.0 ∙ b.0, All-trans u v w fs a.1 b.1)

  -- After a write, the state of a network interface has each attribute as it was planned, but for
  -- the computed ones, which are what the router answers, and the reading reports nothing: if every
  -- planned attribute is known or null (a list, of known texts), and the answer holds each stored
  -- field of the body as it was sent (a number as the float64 that converts to it, null for an empty list, and null or
  -- nothing for what was not sent). The framework is assumed to convert lists of known texts
  -- without a diagnostic.
  pub fill-body :
      (m : Model) (create : Bool) (obj : Object)
      → Lawful p
      → All (Fits p (values m)) fields
      → All (Keeps p (body p m create).0 obj) fields
      → All
          (λ (f : Field).
            values (fill p obj m).0 f.name ≡ expected p f.kind f.name obj (values m f.name))
          fields
        × ((fill p obj m).1 ≡ [])
  fill-body m create obj l fits keeps =
      let distinct = is_distinct-IsDistinct p fields refl in
      let (filled, clean) = fill_lem p m obj in
      let (taken, quiet) =
        read_stmts-after p create fields (values m) (id_body create m.id) obj l distinct
          (id_body-Lacks create m.id fields refl) fits (rw (← body_lem p m create) keeps) in
      (
        All-trans (λ f. values (fill p obj m).0 f.name)
            (λ f. (read_stmts p fields obj (values m)).0 f.name)
            (λ f. expected p f.kind f.name obj (values m f.name)) fields filled taken,
        clean ∙ quiet,
      )
