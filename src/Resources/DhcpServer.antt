-- ===== src/Resources/DhcpServer.antt =====
-- internal/provider/dhcp_server_resource.go: the model of uapi_dhcp_server, its request body and its reading.
use terraform_provider_uapi.Base.{ℤ, String, Bool, false, Option, List, [], ◌++◌, if◌then◌else◌}
use terraform_provider_uapi.Any.{Object}
use terraform_provider_uapi.Framework.{Attr, ListAttr, Diagnostic}
use terraform_provider_uapi.Platform.{Platform}
use terraform_provider_uapi.Client.World.{Action}
use terraform_provider_uapi.Client.Request.{Client}
use terraform_provider_uapi.Provider.Values.{
  Read, Body, empty_body, ◌▹◌, put_str, put_bool, put_int64, put_list, str_val, bool_val, int64_val,
  list_val_keep_empty,
}
use terraform_provider_uapi.Provider.DataSource
use terraform_provider_uapi.Provider.Crud
use terraform_provider_uapi.Provider.Crud.{Resource, StateChange, Decoded}

pub record Model : Type 0 where
  pub id : Attr String
  pub managed : Attr Bool
  pub etag : Attr String
  pub dhcp_option : ListAttr
  pub dhcpv4 : Attr String
  pub dhcpv6 : Attr String
  pub domain : Attr String
  pub dynamicdhcp : Attr Bool
  pub force : Attr Bool
  pub ignore : Attr Bool
  pub interface : Attr String
  pub leasetime : Attr String
  pub limit : Attr ℤ
  pub ra : Attr String
  pub ra_default : Attr ℤ
  pub ra_flags : ListAttr
  pub ra_slaac : Attr Bool
  pub start : Attr ℤ

-- body()
unfoldable pub body : Platform → Model → Bool → Body
body p m for_create =
    empty_body
    ▹ (λ b. if for_create then put_str "id" m.id b else b)
    ▹ put_list p "dhcp_option" m.dhcp_option
    ▹ put_str "dhcpv4" m.dhcpv4
    ▹ put_str "dhcpv6" m.dhcpv6
    ▹ put_str "domain" m.domain
    ▹ put_bool "dynamicdhcp" m.dynamicdhcp
    ▹ put_bool "force" m.force
    ▹ put_bool "ignore" m.ignore
    ▹ put_str "interface" m.interface
    ▹ put_str "leasetime" m.leasetime
    ▹ put_int64 "limit" m.limit
    ▹ put_str "ra" m.ra
    ▹ put_int64 "ra_default" m.ra_default
    ▹ put_list p "ra_flags" m.ra_flags
    ▹ put_bool "ra_slaac" m.ra_slaac
    ▹ put_int64 "start" m.start

-- read()
unfoldable pub fill : Platform → Object → Model → Read Model
fill p obj m =
    let (dhcp_option, d0) = list_val_keep_empty p obj "dhcp_option" m.dhcp_option in
    let (ra_flags, d1) = list_val_keep_empty p obj "ra_flags" m.ra_flags in
    (
      record m {
        id = str_val p obj "id";
        managed = bool_val obj "managed";
        dhcp_option = dhcp_option;
        dhcpv4 = str_val p obj "dhcpv4";
        dhcpv6 = str_val p obj "dhcpv6";
        domain = str_val p obj "domain";
        dynamicdhcp = bool_val obj "dynamicdhcp";
        force = bool_val obj "force";
        ignore = bool_val obj "ignore";
        interface = str_val p obj "interface";
        leasetime = str_val p obj "leasetime";
        limit = int64_val p obj "limit";
        ra = str_val p obj "ra";
        ra_default = int64_val p obj "ra_default";
        ra_flags = ra_flags;
        ra_slaac = bool_val obj "ra_slaac";
        start = int64_val p obj "start";
      },
      d0 ++ d1,
    )

abbrev pub resource : Resource Model
resource = record {
  collection = "dhcp/servers";
  label = "dhcp server";
  body = body;
  fill = fill;
  id = λ m. m.id;
  etag = λ m. m.etag;
  with_etag = λ m e. record m { etag = e };
  patches = λ plan state. false;
  warnings = λ obj. [];
}

module _ (set_state : Model → List Diagnostic) (p : Platform) where
  -- Create
  unfoldable pub create : Client → Decoded Model → Action (StateChange Model)
  create c plan = Crud.create set_state p resource c plan

  -- Read
  unfoldable pub refresh : Client → Decoded Model → Action (StateChange Model)
  refresh c state = Crud.refresh set_state p resource c state

  -- Update
  unfoldable pub update : Client → Decoded Model → Decoded Model → Action (StateChange Model)
  update c plan state = Crud.update set_state p resource c plan state

  -- Delete
  unfoldable pub destroy : Client → Decoded Model → Action (StateChange Model)
  destroy c state = Crud.destroy set_state p resource c state

  -- ImportState
  unfoldable pub import_state : Client → String → Action (Option String)
  import_state c id = Crud.import_state set_state p resource c id

  -- Read of the data source
  unfoldable pub look_up : Client → Decoded Model → Action (StateChange Model)
  look_up c config = DataSource.look_up set_state p (DataSource.of_resource resource) c config
