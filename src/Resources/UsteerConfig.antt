-- ===== src/Resources/UsteerConfig.antt =====
-- internal/provider/usteer_config_resource.go: the model of uapi_usteer_config, its request body and its reading.
use terraform_provider_uapi.Base.{ℤ, String, Bool, List, ◌++◌}
use terraform_provider_uapi.Any.{Object}
use terraform_provider_uapi.Framework.{Attr, ListAttr, Diagnostic}
use terraform_provider_uapi.Platform.{Platform}
use terraform_provider_uapi.Client.World.{Action}
use terraform_provider_uapi.Client.Request.{Client}
use terraform_provider_uapi.Provider.Values.{
  Read, Body, empty_body, ◌▹◌, put_str, put_bool, put_int64, put_list, str_val, bool_val, int64_val,
  list_val_keep_empty,
}
use terraform_provider_uapi.Provider.DataSource
use terraform_provider_uapi.Provider.Singleton
use terraform_provider_uapi.Provider.Singleton.{Singleton}
use terraform_provider_uapi.Provider.Crud.{StateChange, Decoded}

pub record Model : Type 0 where
  pub id : Attr String
  pub managed : Attr Bool
  pub etag : Attr String
  pub assoc_steering : Attr Bool
  pub band_steering_threshold : Attr ℤ
  pub debug_level : Attr ℤ
  pub enabled : Attr Bool
  pub event_log_types : ListAttr
  pub ipv6 : Attr Bool
  pub load_balancing_threshold : Attr ℤ
  pub local_sta_timeout : Attr ℤ
  pub local_sta_update : Attr ℤ
  pub max_neighbor_reports : Attr ℤ
  pub max_retry_band : Attr ℤ
  pub measurement_report_timeout : Attr ℤ
  pub min_connect_snr : Attr ℤ
  pub min_snr : Attr ℤ
  pub min_snr_kick_delay : Attr ℤ
  pub network : Attr String
  pub node_up_script : Attr String
  pub remote_node_timeout : Attr ℤ
  pub remote_update_interval : Attr ℤ
  pub roam_kick_delay : Attr ℤ
  pub roam_process_timeout : Attr ℤ
  pub roam_scan_interval : Attr ℤ
  pub roam_scan_snr : Attr ℤ
  pub roam_scan_tries : Attr ℤ
  pub roam_trigger_interval : Attr ℤ
  pub roam_trigger_snr : Attr ℤ
  pub seen_policy_timeout : Attr ℤ
  pub signal_diff_threshold : Attr ℤ
  pub ssid_list : ListAttr
  pub sta_block_timeout : Attr ℤ
  pub syslog : Attr Bool

-- body()
unfoldable pub body : Platform → Model → Body
body p m =
    empty_body
    ▹ put_bool "assoc_steering" m.assoc_steering
    ▹ put_int64 "band_steering_threshold" m.band_steering_threshold
    ▹ put_int64 "debug_level" m.debug_level
    ▹ put_bool "enabled" m.enabled
    ▹ put_list p "event_log_types" m.event_log_types
    ▹ put_bool "ipv6" m.ipv6
    ▹ put_int64 "load_balancing_threshold" m.load_balancing_threshold
    ▹ put_int64 "local_sta_timeout" m.local_sta_timeout
    ▹ put_int64 "local_sta_update" m.local_sta_update
    ▹ put_int64 "max_neighbor_reports" m.max_neighbor_reports
    ▹ put_int64 "max_retry_band" m.max_retry_band
    ▹ put_int64 "measurement_report_timeout" m.measurement_report_timeout
    ▹ put_int64 "min_connect_snr" m.min_connect_snr
    ▹ put_int64 "min_snr" m.min_snr
    ▹ put_int64 "min_snr_kick_delay" m.min_snr_kick_delay
    ▹ put_str "network" m.network
    ▹ put_str "node_up_script" m.node_up_script
    ▹ put_int64 "remote_node_timeout" m.remote_node_timeout
    ▹ put_int64 "remote_update_interval" m.remote_update_interval
    ▹ put_int64 "roam_kick_delay" m.roam_kick_delay
    ▹ put_int64 "roam_process_timeout" m.roam_process_timeout
    ▹ put_int64 "roam_scan_interval" m.roam_scan_interval
    ▹ put_int64 "roam_scan_snr" m.roam_scan_snr
    ▹ put_int64 "roam_scan_tries" m.roam_scan_tries
    ▹ put_int64 "roam_trigger_interval" m.roam_trigger_interval
    ▹ put_int64 "roam_trigger_snr" m.roam_trigger_snr
    ▹ put_int64 "seen_policy_timeout" m.seen_policy_timeout
    ▹ put_int64 "signal_diff_threshold" m.signal_diff_threshold
    ▹ put_list p "ssid_list" m.ssid_list
    ▹ put_int64 "sta_block_timeout" m.sta_block_timeout
    ▹ put_bool "syslog" m.syslog

-- read()
unfoldable pub fill : Platform → Object → Model → Read Model
fill p obj m =
    let (event_log_types, d0) = list_val_keep_empty p obj "event_log_types" m.event_log_types in
    let (ssid_list, d1) = list_val_keep_empty p obj "ssid_list" m.ssid_list in
    (
      record m {
        id = str_val p obj "id";
        managed = bool_val obj "managed";
        assoc_steering = bool_val obj "assoc_steering";
        band_steering_threshold = int64_val p obj "band_steering_threshold";
        debug_level = int64_val p obj "debug_level";
        enabled = bool_val obj "enabled";
        event_log_types = event_log_types;
        ipv6 = bool_val obj "ipv6";
        load_balancing_threshold = int64_val p obj "load_balancing_threshold";
        local_sta_timeout = int64_val p obj "local_sta_timeout";
        local_sta_update = int64_val p obj "local_sta_update";
        max_neighbor_reports = int64_val p obj "max_neighbor_reports";
        max_retry_band = int64_val p obj "max_retry_band";
        measurement_report_timeout = int64_val p obj "measurement_report_timeout";
        min_connect_snr = int64_val p obj "min_connect_snr";
        min_snr = int64_val p obj "min_snr";
        min_snr_kick_delay = int64_val p obj "min_snr_kick_delay";
        network = str_val p obj "network";
        node_up_script = str_val p obj "node_up_script";
        remote_node_timeout = int64_val p obj "remote_node_timeout";
        remote_update_interval = int64_val p obj "remote_update_interval";
        roam_kick_delay = int64_val p obj "roam_kick_delay";
        roam_process_timeout = int64_val p obj "roam_process_timeout";
        roam_scan_interval = int64_val p obj "roam_scan_interval";
        roam_scan_snr = int64_val p obj "roam_scan_snr";
        roam_scan_tries = int64_val p obj "roam_scan_tries";
        roam_trigger_interval = int64_val p obj "roam_trigger_interval";
        roam_trigger_snr = int64_val p obj "roam_trigger_snr";
        seen_policy_timeout = int64_val p obj "seen_policy_timeout";
        signal_diff_threshold = int64_val p obj "signal_diff_threshold";
        ssid_list = ssid_list;
        sta_block_timeout = int64_val p obj "sta_block_timeout";
        syslog = bool_val obj "syslog";
      },
      d0 ++ d1,
    )

abbrev pub resource : Singleton Model
resource = record {
  path = "/usteer/config";
  label = "usteer config";
  body = body;
  fill = fill;
  etag = λ m. m.etag;
  with_etag = λ m e. record m { etag = e };
}

module _ (set_state : Model → List Diagnostic) (p : Platform) where
  -- Create
  unfoldable pub create : Client → Decoded Model → Action (StateChange Model)
  create c plan = Singleton.create set_state p resource c plan

  -- Read
  unfoldable pub refresh : Client → Decoded Model → Action (StateChange Model)
  refresh c state = Singleton.refresh set_state p resource c state

  -- Update
  unfoldable pub update : Client → Decoded Model → Decoded Model → Action (StateChange Model)
  update c plan state = Singleton.update set_state p resource c plan state

  -- Delete
  unfoldable pub destroy : Client → Decoded Model → Action (StateChange Model)
  destroy c state = Singleton.destroy set_state p resource c state

  -- Read of the data source
  unfoldable pub look_up : Client → Decoded Model → Action (StateChange Model)
  look_up c config = DataSource.look_up set_state p (DataSource.of_singleton resource) c config
