-- ===== src/Resources/FirewallRedirect.antt =====
-- internal/provider/firewall_redirect_resource.go: the model of uapi_firewall_redirect, its request body and its reading.
use terraform_provider_uapi.Base.{
  String, Bool, false, Option, none, some, List, [], ◌++◌, if◌then◌else◌,
}
use terraform_provider_uapi.Any.{Object}
use terraform_provider_uapi.Framework.{Attr, null, ListAttr, Diagnostic}
use terraform_provider_uapi.Platform.{Platform}
use terraform_provider_uapi.Client.World.{Action}
use terraform_provider_uapi.Client.Request.{Client}
use terraform_provider_uapi.Provider.Values.{
  Read, Body, empty_body, ◌▹◌, put_str, put_bool, put_list, put_object, object_at, str_val,
  bool_val, list_val_keep_empty,
}
use terraform_provider_uapi.Provider.DataSource
use terraform_provider_uapi.Provider.Crud
use terraform_provider_uapi.Provider.Crud.{Resource, StateChange, Decoded}

pub record Match : Type 0 where
  pub src_zone : Attr String
  pub dest_zone : Attr String
  pub src_ip : Attr String
  pub src_port : Attr String
  pub src_dport : Attr String
  pub src_dip : Attr String
  pub dest_ip : Attr String
  pub dest_port : Attr String
  pub proto : ListAttr
  pub family : Attr String
  pub mark : Attr String

abbrev pub empty_match : Match
empty_match = record {
  src_zone = null;
  dest_zone = null;
  src_ip = null;
  src_port = null;
  src_dport = null;
  src_dip = null;
  dest_ip = null;
  dest_port = null;
  proto = null;
  family = null;
  mark = null;
}

pub record Model : Type 0 where
  pub id : Attr String
  pub managed : Attr Bool
  pub etag : Attr String
  pub enabled : Attr Bool
  pub name : Attr String
  pub reflection : Attr Bool
  pub reflection_src : Attr String
  pub reflection_zone : ListAttr
  pub target : Attr String
  pub match : Option Match

-- the zero value, in which every attribute is null
abbrev pub empty : Model
empty = record {
  id = null;
  managed = null;
  etag = null;
  enabled = null;
  name = null;
  reflection = null;
  reflection_src = null;
  reflection_zone = null;
  target = null;
  match = none;
}

-- the nested map of body()
unfoldable pub match_body : Platform → Option Match → Body
match_body p none = empty_body
match_body p (some n) =
    empty_body
    ▹ put_str "src_zone" n.src_zone
    ▹ put_str "dest_zone" n.dest_zone
    ▹ put_str "src_ip" n.src_ip
    ▹ put_str "src_port" n.src_port
    ▹ put_str "src_dport" n.src_dport
    ▹ put_str "src_dip" n.src_dip
    ▹ put_str "dest_ip" n.dest_ip
    ▹ put_str "dest_port" n.dest_port
    ▹ put_list p "proto" n.proto
    ▹ put_str "family" n.family
    ▹ put_str "mark" n.mark

-- body()
unfoldable pub body : Platform → Model → Bool → Body
unfolding match_body
body p m for_create =
    empty_body
    ▹ (λ b. if for_create then put_str "id" m.id b else b)
    ▹ put_bool "enabled" m.enabled
    ▹ put_str "name" m.name
    ▹ put_bool "reflection" m.reflection
    ▹ put_str "reflection_src" m.reflection_src
    ▹ put_list p "reflection_zone" m.reflection_zone
    ▹ put_str "target" m.target
    ▹ put_object "match" (match_body p m.match)

-- the nested part of read()
unfoldable pub fill_match : Platform → Object → Match → Read Match
fill_match p obj m =
    let (proto, d0) = list_val_keep_empty p obj "proto" m.proto in
    (
      record m {
        src_zone = str_val p obj "src_zone";
        dest_zone = str_val p obj "dest_zone";
        src_ip = str_val p obj "src_ip";
        src_port = str_val p obj "src_port";
        src_dport = str_val p obj "src_dport";
        src_dip = str_val p obj "src_dip";
        dest_ip = str_val p obj "dest_ip";
        dest_port = str_val p obj "dest_port";
        proto = proto;
        family = str_val p obj "family";
        mark = str_val p obj "mark";
      },
      d0,
    )

-- read()
unfoldable pub fill : Platform → Object → Model → Read Model
unfolding fill_match
fill p obj m =
    let (reflection_zone, d0) = list_val_keep_empty p obj "reflection_zone" m.reflection_zone in
    let before : Match = elim m.match [ none ↦ empty_match | some n ↦ n ] in
    let (match, nested) = fill_match p (object_at obj "match") before in
    (
      record m {
        id = str_val p obj "id";
        managed = bool_val obj "managed";
        enabled = bool_val obj "enabled";
        name = str_val p obj "name";
        reflection = bool_val obj "reflection";
        reflection_src = str_val p obj "reflection_src";
        reflection_zone = reflection_zone;
        target = str_val p obj "target";
        match = some match;
      },
      d0 ++ nested,
    )

abbrev pub resource : Resource Model
resource = record {
  collection = "firewall/redirects";
  label = "firewall redirect";
  body = body;
  fill = fill;
  id = λ m. m.id;
  etag = λ m. m.etag;
  with_etag = λ m e. record m { etag = e };
  patches = λ plan state. false;
  warnings = λ obj. [];
}

module _ (set_state : Model → List Diagnostic) (p : Platform) where
  -- Create
  unfoldable pub create : Client → Decoded Model → Action (StateChange Model)
  create c plan = Crud.create set_state p resource c plan

  -- Read
  unfoldable pub refresh : Client → Decoded Model → Action (StateChange Model)
  refresh c state = Crud.refresh set_state p resource c state

  -- Update
  unfoldable pub update : Client → Decoded Model → Decoded Model → Action (StateChange Model)
  update c plan state = Crud.update set_state p resource c plan state

  -- Delete
  unfoldable pub destroy : Client → Decoded Model → Action (StateChange Model)
  destroy c state = Crud.destroy set_state p resource c state

  -- ImportState
  unfoldable pub import_state : Client → String → Action (Option String)
  import_state c id = Crud.import_state set_state p resource c id

  -- Read of the data source
  unfoldable pub look_up : Client → Decoded Model → Action (StateChange Model)
  look_up c config = DataSource.look_up set_state p (DataSource.of_resource resource) c config
