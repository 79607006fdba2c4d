-- ===== src/Resources/FirewallNat.antt =====
-- internal/provider/firewall_nat_resource.go: the model of uapi_firewall_nat, its request body and its reading.
use terraform_provider_uapi.Base.{String, Bool, false, Option, none, some, List, [], if◌then◌else◌}
use terraform_provider_uapi.Any.{Object}
use terraform_provider_uapi.Framework.{Attr, null, ListAttr, Diagnostic}
use terraform_provider_uapi.Platform.{Platform}
use terraform_provider_uapi.Client.World.{Action}
use terraform_provider_uapi.Client.Request.{Client}
use terraform_provider_uapi.Provider.Values.{
  Read, Body, empty_body, ◌▹◌, put_str, put_bool, put_list, put_object, object_at, str_val,
  bool_val, list_val_keep_empty,
}
use terraform_provider_uapi.Provider.DataSource
use terraform_provider_uapi.Provider.Crud
use terraform_provider_uapi.Provider.Crud.{Resource, StateChange, Decoded}

pub record Match : Type 0 where
  pub src_zone : Attr String
  pub device : Attr String
  pub src_ip : Attr String
  pub src_port : Attr String
  pub dest_ip : Attr String
  pub dest_port : Attr String
  pub proto : ListAttr
  pub mark : Attr String
  pub family : Attr String

abbrev pub empty_match : Match
empty_match = record {
  src_zone = null;
  device = null;
  src_ip = null;
  src_port = null;
  dest_ip = null;
  dest_port = null;
  proto = null;
  mark = null;
  family = null;
}

pub record Model : Type 0 where
  pub id : Attr String
  pub managed : Attr Bool
  pub etag : Attr String
  pub enabled : Attr Bool
  pub name : Attr String
  pub snat_ip : Attr String
  pub snat_port : Attr String
  pub target : Attr String
  pub match : Option Match

-- the nested map of body()
unfoldable pub match_body : Platform → Option Match → Body
match_body p none = empty_body
match_body p (some n) =
    empty_body
    ▹ put_str "src_zone" n.src_zone
    ▹ put_str "device" n.device
    ▹ put_str "src_ip" n.src_ip
    ▹ put_str "src_port" n.src_port
    ▹ put_str "dest_ip" n.dest_ip
    ▹ put_str "dest_port" n.dest_port
    ▹ put_list p "proto" n.proto
    ▹ put_str "mark" n.mark
    ▹ put_str "family" n.family

-- body()
unfoldable pub body : Platform → Model → Bool → Body
unfolding match_body
body p m for_create =
    empty_body
    ▹ (λ b. if for_create then put_str "id" m.id b else b)
    ▹ put_bool "enabled" m.enabled
    ▹ put_str "name" m.name
    ▹ put_str "snat_ip" m.snat_ip
    ▹ put_str "snat_port" m.snat_port
    ▹ put_str "target" m.target
    ▹ put_object "match" (match_body p m.match)

-- the nested part of read()
unfoldable pub fill_match : Platform → Object → Match → Read Match
fill_match p obj m =
    let (proto, d0) = list_val_keep_empty p obj "proto" m.proto in
    (
      record m {
        src_zone = str_val p obj "src_zone";
        device = str_val p obj "device";
        src_ip = str_val p obj "src_ip";
        src_port = str_val p obj "src_port";
        dest_ip = str_val p obj "dest_ip";
        dest_port = str_val p obj "dest_port";
        proto = proto;
        mark = str_val p obj "mark";
        family = str_val p obj "family";
      },
      d0,
    )

-- read()
unfoldable pub fill : Platform → Object → Model → Read Model
unfolding fill_match
fill p obj m =
    let before : Match = elim m.match [ none ↦ empty_match | some n ↦ n ] in
    let (match, nested) = fill_match p (object_at obj "match") before in
    (
      record m {
        id = str_val p obj "id";
        managed = bool_val obj "managed";
        enabled = bool_val obj "enabled";
        name = str_val p obj "name";
        snat_ip = str_val p obj "snat_ip";
        snat_port = str_val p obj "snat_port";
        target = str_val p obj "target";
        match = some match;
      },
      nested,
    )

abbrev pub resource : Resource Model
resource = record {
  collection = "firewall/nat";
  label = "firewall NAT rule";
  body = body;
  fill = fill;
  id = λ m. m.id;
  etag = λ m. m.etag;
  with_etag = λ m e. record m { etag = e };
  patches = λ plan state. false;
  warnings = λ obj. [];
}

module _ (set_state : Model → List Diagnostic) (p : Platform) where
  -- Create
  unfoldable pub create : Client → Decoded Model → Action (StateChange Model)
  create c plan = Crud.create set_state p resource c plan

  -- Read
  unfoldable pub refresh : Client → Decoded Model → Action (StateChange Model)
  refresh c state = Crud.refresh set_state p resource c state

  -- Update
  unfoldable pub update : Client → Decoded Model → Decoded Model → Action (StateChange Model)
  update c plan state = Crud.update set_state p resource c plan state

  -- Delete
  unfoldable pub destroy : Client → Decoded Model → Action (StateChange Model)
  destroy c state = Crud.destroy set_state p resource c state

  -- ImportState
  unfoldable pub import_state : Client → String → Action (Option String)
  import_state c id = Crud.import_state set_state p resource c id

  -- Read of the data source
  unfoldable pub look_up : Client → Decoded Model → Action (StateChange Model)
  look_up c config = DataSource.look_up set_state p (DataSource.of_resource resource) c config
