-- ===== src/DataSources/Diagnostics.antt =====
-- internal/provider/diagnostics_data_source.go: the runtime diagnostics of the uapi service, with
-- an optional sweep for sections that a write would reject. A JSON object has distinct keys.
pub mod Shape
use terraform_provider_uapi.Base.{
  ℕ, ℤ, String, Bool, true, false, Option, none, some, List, [], ◌∷◌, ◌++◌, map, if◌then◌else◌,
}
use terraform_provider_uapi.Base.Text.{◌<>◌}
use terraform_provider_uapi.Any.{Any, null as no_any, bool, obj, Object, end, entry, lookup}
use terraform_provider_uapi.Framework.{
  Attr, null, known, ListAttr, Diagnostic, value_string, value_bool,
}
use terraform_provider_uapi.Platform.{Platform}
use terraform_provider_uapi.Client.World.{Action}
use terraform_provider_uapi.Client.Request.{Client}
use terraform_provider_uapi.Provider.Values.{
  Read, str_val, bool_val, bool_val_default, int64_val, list_val, object_at,
}
use terraform_provider_uapi.Provider.Crud.{StateChange, Decoded}
use terraform_provider_uapi.Provider.DataSource
use terraform_provider_uapi.Provider.DataSource.{Source}
use terraform_provider_uapi.DataSources.Runtime.{objects, appended, objects_of, kernel_string_list}
use terraform_provider_uapi.Gen.Names.{sort_strings}
use terraform_provider_uapi.DataSources.Diagnostics.Shape.{
  LockState, RecentError, ManagementPath, InvalidSectionError, InvalidSection, Model,
}

-- the keys of per_package, before they are sorted
abbrev keys : Object → List String
keys end = []
keys (entry k v m) = k ∷ keys m

abbrev package_names : Option Any → List String
package_names (some (obj m)) = keys m
package_names _ = []

-- the value of a state directory: null stays null, and a value that is no bool is false
abbrev dir_state : Any → Attr Bool
dir_state no_any = null
dir_state (bool b) = known b
dir_state v = known false

abbrev dir_states : Object → List (String × Attr Bool)
dir_states end = []
dir_states (entry k v m) = (k, dir_state v) ∷ dir_states m

abbrev state_dirs_of : Option Any → Attr (List (String × Attr Bool))
state_dirs_of (some (obj m)) = known (dir_states m)
state_dirs_of _ = null

-- `if cfg.Validate.ValueBool() { out.InvalidSections = []invalidSectionModel{} }` and the appends
abbrev pub seeded : Bool → List InvalidSection → Option (List InvalidSection)
seeded true xs = some xs
seeded false xs = appended xs

module _ (p : Platform) where
  abbrev management_path_of : Option Any → Option ManagementPath
  management_path_of (some (obj m)) = some (record {
    address = str_val p m "address";
    device = str_val p m "device";
    interface = str_val p m "interface";
  })
  management_path_of _ = none

  abbrev item_of : Object → InvalidSectionError
  item_of m = record {
    field = str_val p m "field";
    code = str_val p m "code";
    message = str_val p m "message";
  }

  abbrev section_of : Object → InvalidSection
  section_of m = record {
    resource = str_val p m "resource";
    id = str_val p m "id";
    managed = bool_val m "managed";
    errors = appended (map item_of (objects_of (lookup "errors" m)));
  }

  -- the loop over invalid_sections
  unfoldable pub invalid_sections : Object → Bool → Option (List InvalidSection)
  invalid_sections m validate =
      seeded validate (map section_of (objects_of (lookup "invalid_sections" m)))

  abbrev held : Object → List Diagnostic × ListAttr
  held m = p.list_value_from (sort_strings (package_names (lookup "per_package" m)))

  abbrev lock_state_of : Option Any → Option LockState
  lock_state_of (some (obj m)) =
      some (record { global_held = bool_val_default m "global_held"; packages_held = (held m).1 })
  lock_state_of _ = none

  abbrev lock_diags : Option Any → List Diagnostic
  lock_diags (some (obj m)) = (held m).0
  lock_diags _ = []

  abbrev error_of : Object → RecentError
  error_of m = record {
    ts = int64_val p m "ts";
    request_id = str_val p m "request_id";
    code = str_val p m "code";
    status = int64_val p m "status";
    method = str_val p m "method";
    path = str_val p m "path";
    message = str_val p m "message";
  }

  -- Read behind its GET
  unfoldable pub fill : Object → Model → Read Model
  unfolding invalid_sections
  fill m cfg = (
    record {
      validate = cfg.validate;
      version = str_val p m "version";
      uptime_seconds = int64_val p m "uptime_seconds";
      resources_loaded = (list_val p m "resources_loaded").0;
      lock_state = lock_state_of (lookup "lock_state" m);
      recent_errors = appended (map error_of (objects_of (lookup "recent_errors" m)));
      management_path = management_path_of (lookup "management_path" m);
      invalid_sections = invalid_sections m (value_bool cfg.validate);
      swept_resources = (list_val p m "swept_resources").0;
      skipped_for_scope = (list_val p m "skipped_for_scope").0;
      request_id = str_val p m "request_id";
      state_dirs = state_dirs_of (lookup "state_dirs" m);
    },
    (list_val p m "resources_loaded").1
        ++ (list_val p m "swept_resources").1
        ++ (list_val p m "skipped_for_scope").1
        ++ lock_diags (lookup "lock_state" m),
  )

abbrev pub source : Source Model Model
source = record {
  path = λ cfg. if value_bool cfg.validate then "/diagnostics?validate=1" else "/diagnostics";
  failure = "Error reading diagnostics";
  missing_summary = "Error reading diagnostics";
  missing_detail = λ cfg. "endpoint returned not found";
  fill = λ p m etag cfg. fill p m cfg;
}

-- Read
unfoldable pub look_up :
    (Model → List Diagnostic) → Platform → Client → Decoded Model → Action (StateChange Model)
look_up set_state p c config = DataSource.look_up set_state p source c config
