-- ===== src/Resources/NetworkRule.antt =====
-- internal/provider/network_rule_resource.go: the model of uapi_network_rule, its request body and its reading.
use terraform_provider_uapi.Base.{ℤ, String, Bool, false, Option, List, [], if◌then◌else◌}
use terraform_provider_uapi.Any.{Object}
use terraform_provider_uapi.Framework.{Attr, Diagnostic}
use terraform_provider_uapi.Platform.{Platform}
use terraform_provider_uapi.Client.World.{Action}
use terraform_provider_uapi.Client.Request.{Client}
use terraform_provider_uapi.Provider.Values.{
  Read, Body, empty_body, ◌▹◌, put_str, put_bool, put_int64, put_int_or_str, str_val, bool_val,
  int64_val,
}
use terraform_provider_uapi.Provider.DataSource
use terraform_provider_uapi.Provider.Crud
use terraform_provider_uapi.Provider.Crud.{Resource, StateChange, Decoded}

pub record Model : Type 0 where
  pub id : Attr String
  pub managed : Attr Bool
  pub etag : Attr String
  pub action : Attr String
  pub dest : Attr String
  pub disabled : Attr Bool
  pub dport : Attr String
  pub goto : Attr ℤ
  pub in_field : Attr String
  pub invert : Attr Bool
  pub ipproto : Attr String
  pub lookup : Attr ℤ
  pub mark : Attr String
  pub out : Attr String
  pub priority : Attr ℤ
  pub sport : Attr String
  pub src : Attr String
  pub suppress_prefixlength : Attr ℤ
  pub tos : Attr ℤ
  pub uidrange : Attr String

-- body()
unfoldable pub body : Platform → Model → Bool → Body
body p m for_create =
    empty_body
    ▹ (λ b. if for_create then put_str "id" m.id b else b)
    ▹ put_str "action" m.action
    ▹ put_str "dest" m.dest
    ▹ put_bool "disabled" m.disabled
    ▹ put_str "dport" m.dport
    ▹ put_int64 "goto" m.goto
    ▹ put_str "in" m.in_field
    ▹ put_bool "invert" m.invert
    ▹ put_int_or_str "ipproto" m.ipproto
    ▹ put_int64 "lookup" m.lookup
    ▹ put_str "mark" m.mark
    ▹ put_str "out" m.out
    ▹ put_int64 "priority" m.priority
    ▹ put_str "sport" m.sport
    ▹ put_str "src" m.src
    ▹ put_int64 "suppress_prefixlength" m.suppress_prefixlength
    ▹ put_int64 "tos" m.tos
    ▹ put_str "uidrange" m.uidrange

-- read()
unfoldable pub fill : Platform → Object → Model → Read Model
fill p obj m = (
  record m {
    id = str_val p obj "id";
    managed = bool_val obj "managed";
    action = str_val p obj "action";
    dest = str_val p obj "dest";
    disabled = bool_val obj "disabled";
    dport = str_val p obj "dport";
    goto = int64_val p obj "goto";
    in_field = str_val p obj "in";
    invert = bool_val obj "invert";
    ipproto = str_val p obj "ipproto";
    lookup = int64_val p obj "lookup";
    mark = str_val p obj "mark";
    out = str_val p obj "out";
    priority = int64_val p obj "priority";
    sport = str_val p obj "sport";
    src = str_val p obj "src";
    suppress_prefixlength = int64_val p obj "suppress_prefixlength";
    tos = int64_val p obj "tos";
    uidrange = str_val p obj "uidrange";
  },
  [],
)

abbrev pub resource : Resource Model
resource = record {
  collection = "network/rules";
  label = "network rule";
  body = body;
  fill = fill;
  id = λ m. m.id;
  etag = λ m. m.etag;
  with_etag = λ m e. record m { etag = e };
  patches = λ plan state. false;
  warnings = λ obj. [];
}

module _ (set_state : Model → List Diagnostic) (p : Platform) where
  -- Create
  unfoldable pub create : Client → Decoded Model → Action (StateChange Model)
  create c plan = Crud.create set_state p resource c plan

  -- Read
  unfoldable pub refresh : Client → Decoded Model → Action (StateChange Model)
  refresh c state = Crud.refresh set_state p resource c state

  -- Update
  unfoldable pub update : Client → Decoded Model → Decoded Model → Action (StateChange Model)
  update c plan state = Crud.update set_state p resource c plan state

  -- Delete
  unfoldable pub destroy : Client → Decoded Model → Action (StateChange Model)
  destroy c state = Crud.destroy set_state p resource c state

  -- ImportState
  unfoldable pub import_state : Client → String → Action (Option String)
  import_state c id = Crud.import_state set_state p resource c id

  -- Read of the data source
  unfoldable pub look_up : Client → Decoded Model → Action (StateChange Model)
  look_up c config = DataSource.look_up set_state p (DataSource.of_resource resource) c config
