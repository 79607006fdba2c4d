-- ===== src/Resources/Mwan3Interface.antt =====
-- internal/provider/mwan3_interface_resource.go: the model of uapi_mwan3_interface, its request body and its reading.
use terraform_provider_uapi.Base.{ℤ, String, Bool, false, Option, List, [], ◌++◌, if◌then◌else◌}
use terraform_provider_uapi.Any.{Object}
use terraform_provider_uapi.Framework.{Attr, ListAttr, Diagnostic}
use terraform_provider_uapi.Platform.{Platform}
use terraform_provider_uapi.Client.World.{Action}
use terraform_provider_uapi.Client.Request.{Client}
use terraform_provider_uapi.Provider.Values.{
  Read, Body, empty_body, ◌▹◌, put_str, put_bool, put_int64, put_list, str_val, bool_val, int64_val,
  list_val_keep_empty,
}
use terraform_provider_uapi.Provider.DataSource
use terraform_provider_uapi.Provider.Crud
use terraform_provider_uapi.Provider.Crud.{Resource, StateChange, Decoded}

pub record Model : Type 0 where
  pub id : Attr String
  pub managed : Attr Bool
  pub etag : Attr String
  pub check_quality : Attr Bool
  pub down : Attr ℤ
  pub enabled : Attr Bool
  pub failure_interval : Attr ℤ
  pub failure_latency : Attr ℤ
  pub failure_loss : Attr ℤ
  pub family : Attr String
  pub flush_conntrack : ListAttr
  pub interval : Attr ℤ
  pub keep_failure_interval : Attr Bool
  pub max_ttl : Attr ℤ
  pub probe_count : Attr ℤ
  pub recovery_interval : Attr ℤ
  pub recovery_latency : Attr ℤ
  pub recovery_loss : Attr ℤ
  pub reliability : Attr ℤ
  pub size : Attr ℤ
  pub timeout : Attr ℤ
  pub track_ip : ListAttr
  pub track_method : Attr String
  pub up : Attr ℤ

-- body()
unfoldable pub body : Platform → Model → Bool → Body
body p m for_create =
    empty_body
    ▹ (λ b. if for_create then put_str "id" m.id b else b)
    ▹ put_bool "check_quality" m.check_quality
    ▹ put_int64 "down" m.down
    ▹ put_bool "enabled" m.enabled
    ▹ put_int64 "failure_interval" m.failure_interval
    ▹ put_int64 "failure_latency" m.failure_latency
    ▹ put_int64 "failure_loss" m.failure_loss
    ▹ put_str "family" m.family
    ▹ put_list p "flush_conntrack" m.flush_conntrack
    ▹ put_int64 "interval" m.interval
    ▹ put_bool "keep_failure_interval" m.keep_failure_interval
    ▹ put_int64 "max_ttl" m.max_ttl
    ▹ put_int64 "probe_count" m.probe_count
    ▹ put_int64 "recovery_interval" m.recovery_interval
    ▹ put_int64 "recovery_latency" m.recovery_latency
    ▹ put_int64 "recovery_loss" m.recovery_loss
    ▹ put_int64 "reliability" m.reliability
    ▹ put_int64 "size" m.size
    ▹ put_int64 "timeout" m.timeout
    ▹ put_list p "track_ip" m.track_ip
    ▹ put_str "track_method" m.track_method
    ▹ put_int64 "up" m.up

-- read()
unfoldable pub fill : Platform → Object → Model → Read Model
fill p obj m =
    let (flush_conntrack, d0) = list_val_keep_empty p obj "flush_conntrack" m.flush_conntrack in
    let (track_ip, d1) = list_val_keep_empty p obj "track_ip" m.track_ip in
    (
      record m {
        id = str_val p obj "id";
        managed = bool_val obj "managed";
        check_quality = bool_val obj "check_quality";
        down = int64_val p obj "down";
        enabled = bool_val obj "enabled";
        failure_interval = int64_val p obj "failure_interval";
        failure_latency = int64_val p obj "failure_latency";
        failure_loss = int64_val p obj "failure_loss";
        family = str_val p obj "family";
        flush_conntrack = flush_conntrack;
        interval = int64_val p obj "interval";
        keep_failure_interval = bool_val obj "keep_failure_interval";
        max_ttl = int64_val p obj "max_ttl";
        probe_count = int64_val p obj "probe_count";
        recovery_interval = int64_val p obj "recovery_interval";
        recovery_latency = int64_val p obj "recovery_latency";
        recovery_loss = int64_val p obj "recovery_loss";
        reliability = int64_val p obj "reliability";
        size = int64_val p obj "size";
        timeout = int64_val p obj "timeout";
        track_ip = track_ip;
        track_method = str_val p obj "track_method";
        up = int64_val p obj "up";
      },
      d0 ++ d1,
    )

abbrev pub resource : Resource Model
resource = record {
  collection = "mwan3/interfaces";
  label = "mwan3 interface";
  body = body;
  fill = fill;
  id = λ m. m.id;
  etag = λ m. m.etag;
  with_etag = λ m e. record m { etag = e };
  patches = λ plan state. false;
  warnings = λ obj. [];
}

module _ (set_state : Model → List Diagnostic) (p : Platform) where
  -- Create
  unfoldable pub create : Client → Decoded Model → Action (StateChange Model)
  create c plan = Crud.create set_state p resource c plan

  -- Read
  unfoldable pub refresh : Client → Decoded Model → Action (StateChange Model)
  refresh c state = Crud.refresh set_state p resource c state

  -- Update
  unfoldable pub update : Client → Decoded Model → Decoded Model → Action (StateChange Model)
  update c plan state = Crud.update set_state p resource c plan state

  -- Delete
  unfoldable pub destroy : Client → Decoded Model → Action (StateChange Model)
  destroy c state = Crud.destroy set_state p resource c state

  -- ImportState
  unfoldable pub import_state : Client → String → Action (Option String)
  import_state c id = Crud.import_state set_state p resource c id

  -- Read of the data source
  unfoldable pub look_up : Client → Decoded Model → Action (StateChange Model)
  look_up c config = DataSource.look_up set_state p (DataSource.of_resource resource) c config
