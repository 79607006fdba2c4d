-- ===== src/Gen/Document.antt =====
-- internal/gen/main.go: main's loop over the descriptors, from the schemas of the document to the
-- resources, and the constructors that renderRegistration lists.
pub mod Resources
use terraform_provider_uapi.Base.{String, Option, none, some, List, [], ◌∷◌, if◌then◌else◌}
use terraform_provider_uapi.Base.Text.{◌<>◌}
use terraform_provider_uapi.Gen.Made.{
  Fault, no_response_schema, no_request_schema, Made, made, fails, ◌>>=◌,
}
use terraform_provider_uapi.Gen.Spec.{SpecProp, SpecCond, find, Descriptor}
use terraform_provider_uapi.Gen.Field.{ResModel, build_resource}
use terraform_provider_uapi.Gen.Scope.{apply_scope}

pub record SpecSchema : Type 0 where
  pub properties : List (String × SpecProp)
  pub required : List String
  pub all_of : List SpecCond

abbrev given_schema : Fault → Option SpecSchema → Made SpecSchema
given_schema e none = fails e
given_schema e (some s) = made s

module _ (common : List (String × String)) (schemas : List (String × SpecSchema)) where
  -- the loop's body, up to what is rendered
  unfoldable pub resource_of : Descriptor → Made ResModel
  resource_of d = do
    res ← given_schema (no_response_schema d.schema) (find (d.schema <> "Response") schemas)
    req ← given_schema (no_request_schema d.schema) (find (d.schema <> "Request") schemas)
    r ← build_resource common d req.properties req.required res.properties
    apply_scope r req.all_of req.properties

  -- the loop over the descriptors
  unfoldable pub resources_of : List Descriptor → Made (List ResModel)
  resources_of [] = made []
  resources_of (d ∷ ds) = do r ← resource_of d; rs ← resources_of ds; made (r ∷ rs)

-- the constructors of the resources and of the data sources: resCtors and dsCtors
unfoldable pub resource_constructors : List ResModel → List String
resource_constructors [] = []
resource_constructors (r ∷ rs) = ("New" <> r.pascal_name <> "Resource") ∷ resource_constructors rs

unfoldable pub source_constructors : List ResModel → List String
source_constructors [] = []
source_constructors (r ∷ rs) =
    let rest = source_constructors rs in
    if r.gen_ds then ("New" <> r.pascal_name <> "DataSource") ∷ rest else rest
