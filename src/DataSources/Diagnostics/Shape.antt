-- ===== src/DataSources/Diagnostics/Shape.antt =====
-- internal/provider/diagnostics_data_source.go: the model of uapi_diagnostics. A slice is none
-- where it is nil.
use terraform_provider_uapi.Base.{ℤ, String, Bool, Option, List}
use terraform_provider_uapi.Framework.{Attr, ListAttr}

pub record LockState : Type 0 where
  pub global_held : Attr Bool
  pub packages_held : ListAttr

pub record RecentError : Type 0 where
  pub ts : Attr ℤ
  pub request_id : Attr String
  pub code : Attr String
  pub status : Attr ℤ
  pub method : Attr String
  pub path : Attr String
  pub message : Attr String

pub record ManagementPath : Type 0 where
  pub address : Attr String
  pub device : Attr String
  pub interface : Attr String

pub record InvalidSectionError : Type 0 where
  pub field : Attr String
  pub code : Attr String
  pub message : Attr String

pub record InvalidSection : Type 0 where
  pub resource : Attr String
  pub id : Attr String
  pub managed : Attr Bool
  pub errors : Option (List InvalidSectionError)

pub record Model : Type 0 where
  pub validate : Attr Bool
  pub version : Attr String
  pub uptime_seconds : Attr ℤ
  pub resources_loaded : ListAttr
  pub lock_state : Option LockState
  pub recent_errors : Option (List RecentError)
  pub management_path : Option ManagementPath
  pub invalid_sections : Option (List InvalidSection)
  pub swept_resources : ListAttr
  pub skipped_for_scope : ListAttr
  pub request_id : Attr String
  pub state_dirs : Attr (List (String × Attr Bool))
