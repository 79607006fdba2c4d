-- ===== src/Gen/Document/Resources.antt =====
-- What the generator makes of a descriptor and a document: the attributes and the scope of a
-- resource.
use terraform_provider_uapi.Base.{
  ◌≡◌, String, Option, none, some, List, map, any, contains, All, false,
}
use terraform_provider_uapi.Base.Text.{◌<>◌}
use terraform_provider_uapi.Provider.FieldScope.{FieldScope, excluded}
use terraform_provider_uapi.Gen.Names.{sort_strings}
use terraform_provider_uapi.Gen.Spec.{SpecProp, find, Field, Descriptor}
use terraform_provider_uapi.Gen.Field.{ResModel}
use terraform_provider_uapi.Gen.Field.Kinds.{Belongs, attributes}
use terraform_provider_uapi.Gen.Scope.Nulls.{entry_nulls}
use terraform_provider_uapi.Gen.Scope.Unnamed.{is_named_null}
use terraform_provider_uapi.Gen.Document.{SpecSchema}

module _ (common : List (String × String)) (schemas : List (String × SpecSchema))
    (d : Descriptor) where
  -- The schemas that a resource is made from.
  abbrev pub IsMadeFrom : SpecSchema → SpecSchema → Type 0
  IsMadeFrom response request =
      (find (d.schema <> "Response") schemas ≡ some response)
      × (find (d.schema <> "Request") schemas ≡ some request)

  -- The attributes of a resource are those of its response schema, each of a kind that it can have
  -- beside the request schema.
  abbrev pub HasAttributes : SpecSchema → SpecSchema → ResModel → Type 0
  HasAttributes response request r =
      All (Belongs common d request.properties request.required response.properties) r.fields
      × (map (λ (f : Field). f.name) r.fields
          ≡ attributes common d request.properties request.required response.properties
              (sort_strings (map (λ (e : String × SpecProp). e.0) response.properties)))

  -- A scope excludes a field from a value exactly if an entry of the request schema nulls it there.
  -- Without a scope no entry nulls a field at values of a named one.
  abbrev pub HasScope : SpecSchema → Option FieldScope → Type 0
  HasScope request none = any is_named_null request.all_of ≡ false
  HasScope request (some s) =
      (v f : String) → contains (excluded s v) f ≡ any (entry_nulls v f) request.all_of
