-- ===== src/Provider/DataSource.antt =====
-- The Read of a data source: the ones that internal/gen writes beside each resource, those of
-- internal/provider/*_data_source.go that read one object, and those that read a list.
pub mod Refreshes
pub mod Outcomes
use terraform_provider_uapi.Base.{String, true, false, List, [], ◌∷◌, if◌then◌else◌}
use terraform_provider_uapi.Base.Text.{◌<>◌}
use terraform_provider_uapi.Any.{Object}
use terraform_provider_uapi.Framework.{known, Diagnostic, value_string}
use terraform_provider_uapi.Platform.{Platform}
use terraform_provider_uapi.Client.Error.{error_text}
use terraform_provider_uapi.Client.World.{Action, pure, ◌>>=◌, ◌>>◌, append, add_error, has_errors}
use terraform_provider_uapi.Client.Request.{Client}
use terraform_provider_uapi.Client.Objects.{
  Fetched, missing, found, Listed, listed, get_object, get_list,
}
use terraform_provider_uapi.Provider.Values.{Read}
use terraform_provider_uapi.Provider.Crud.{Resource, StateChange, kept, Decoded, save, item_path}
use terraform_provider_uapi.Provider.Singleton.{Singleton}

-- What a data source that reads one object gives, for a configuration of type C and a state of
-- type M: the object's path, its error texts, and the state from the object and its ETag.
pub record Source (C M : Type 0) : Type 0 where
  pub path : C → String
  pub failure : String
  pub missing_summary : String
  pub missing_detail : C → String
  pub fill : Platform → Object → String → C → Read M

module _ {C M : Type 0} (set_state : M → List Diagnostic) (p : Platform) (src : Source C M) where
  -- Read behind its GET
  unfoldable pub save_found : C → Fetched → Action (StateChange M)
  save_found cfg (Fetched.failure err) = do add_error src.failure (error_text err); pure kept
  save_found cfg missing = do add_error src.missing_summary (src.missing_detail cfg); pure kept
  save_found cfg (found obj etag) = do
    append (src.fill p obj etag cfg).1
    save set_state (src.fill p obj etag cfg).0

  -- Read behind the decoding of its configuration
  unfoldable pub fetch : Client → C → Action (StateChange M)
  fetch c cfg = do r ← get_object p c false (src.path cfg); save_found cfg r

  unfoldable pub look_up : Client → Decoded C → Action (StateChange M)
  look_up c cfg = do append cfg.1; failed ← has_errors; if failed then pure kept else fetch c cfg.0

module _ {M : Type 0} (set_state : M → List Diagnostic) (p : Platform) where
  -- a Read of a list
  unfoldable pub save_listed : String → (List Object → M) → Listed → Action (StateChange M)
  save_listed failure of (Listed.failure err) = do add_error failure (error_text err); pure kept
  save_listed failure of (listed objs) = save set_state (of objs)

  unfoldable pub list_all : Client → String → String → (List Object → M) → Action (StateChange M)
  list_all c path failure of = do r ← get_list p c false path; save_listed failure of r

-- The data source that the generator writes beside a resource without a runtime block: it reads into
-- the resource's model, by the resource's read().
module _ {M : Type 0} where
  abbrev with_etag : (M → String → M) → String → Read M → Read M
  with_etag set etag r = (set r.0 etag, r.1)

  abbrev pub of_resource : Resource M → Source M M
  of_resource res = record {
    path = λ m. "/" <> res.collection <> "/" <> value_string (res.id m);
    failure = "Error reading " <> res.label;
    missing_summary = res.label <> " not found";
    missing_detail = λ m. "not found";
    fill = λ p obj etag m. with_etag (λ m' e. res.with_etag m' (known e)) etag (res.fill p obj m);
  }

  abbrev pub of_singleton : Singleton M → Source M M
  of_singleton res = record {
    path = λ m. res.path;
    failure = "Error reading " <> res.label;
    missing_summary = res.label <> " not found";
    missing_detail = λ m. "not found";
    fill = λ p obj etag m. with_etag (λ m' e. res.with_etag m' (known e)) etag (res.fill p obj m);
  }
