-- ===== src/DataSources/Package/Refused.antt =====
-- The data source of a package reads into a model with a field that its schema lacks.
use terraform_provider_uapi.Base.{◌≡◌, ◌∙◌, refl, String, true, false, List, ◌++◌, contains, arith}
use terraform_provider_uapi.Framework.{Diagnostic, has_error}
use terraform_provider_uapi.Platform.{Platform}
use terraform_provider_uapi.Client.World.{Env, World}
use terraform_provider_uapi.Client.Request.{Client}
use terraform_provider_uapi.Client.Request.Answers.{has_error-append}
use terraform_provider_uapi.Provider.Crud.{kept}
use terraform_provider_uapi.Provider.DataSource
use terraform_provider_uapi.Resources.Package
use terraform_provider_uapi.DataSources.Package.{look_up, schema_attributes, model_fields}

-- The framework decodes a configuration into a struct: a field of the struct that the schema has no
-- attribute for is an error.
abbrev pub RefusesUndeclared : (List String → List String → List Diagnostic) → Type 0
RefusesUndeclared get =
    (attributes fields : List String) (f : String)
    → contains fields f ≡ true
    → contains attributes f ≡ false
    → has_error (get attributes fields) ≡ true

-- The Read of the data source of a package ends with the error of decoding its configuration: it
-- sends nothing and gives no state, for every configuration and router, if the framework refuses a
-- struct with a field that the schema lacks.
pub look_up-refused :
    (get : List String → List String → List Diagnostic)
    (set_state : Package.Model → List Diagnostic) (p : Platform) (c : Client) (m : Package.Model)
    (env : Env) (w : World)
    → RefusesUndeclared get
    → look_up set_state p c (m, get schema_attributes model_fields) env w
      ≡ (kept, record w { diags = w.diags ++ get schema_attributes model_fields })
unfolding look_up DataSource.look_up
look_up-refused get set_state p c m env w refuses =
    let refused : has_error (w.diags ++ get schema_attributes model_fields) ≡ true =
      has_error-append w.diags (get schema_attributes model_fields)
      ∙ ground (arith, refuses schema_attributes model_fields "pre_existed" refl refl) in
    rw (refused, DataSource.look_up)
