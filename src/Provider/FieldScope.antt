-- ===== src/Provider/FieldScope.antt =====
-- internal/provider/field_scope.go: the fields that some values of one discriminator attribute do
-- not take. What the framework answers about a configuration, a plan and a schema is an argument.
pub mod Validation
pub mod Excluded
pub mod Planning
use terraform_provider_uapi.Base.{
  String, Bool, true, false, ◌&&◌, ◌||◌, not, List, [], ◌∷◌, ◌++◌, ◌==◌, if◌then◌else◌, contains,
}
use terraform_provider_uapi.Base.Text.{◌<>◌}
use terraform_provider_uapi.Base.{ℤ}
use terraform_provider_uapi.Framework.{
  Attr, null, unknown, known, is_null, is_unknown, elements, ListAttr, Diagnostic, attribute_error,
  has_error, value_string,
}
use terraform_provider_uapi.Platform.{Platform, Called, ok, failed}

pub record ScopeRule : Type 0 where
  pub values : List String
  pub fields : List String

pub record FieldScope : Type 0 where
  pub field : String
  pub known_values : List String
  pub rules : List ScopeRule

excluded_by : List ScopeRule → String → List String
excluded_by [] v = []
excluded_by (r ∷ rs) v =
    let rest = excluded_by rs v in if contains r.values v then r.fields ++ rest else rest

unfoldable pub excluded : FieldScope → String → List String
unfolding excluded_by
excluded s v = excluded_by s.rules v

-- types.String.Equal
abbrev pub attr_eq : Attr String → Attr String → Bool
attr_eq (known a) (known b) = a == b
attr_eq null null = true
attr_eq unknown unknown = true
attr_eq _ _ = false

unfoldable pub patches : FieldScope → Attr String → Attr String → Bool
patches s planned prior =
    not (is_null planned)
    && (not (is_unknown planned)
        && (attr_eq planned prior && not (contains s.known_values (value_string planned))))

scoped_by : List ScopeRule → List String
scoped_by [] = []
scoped_by (r ∷ rs) = r.fields ++ scoped_by rs

unfoldable pub scoped : FieldScope → List String
unfolding scoped_by
scoped s = scoped_by s.rules

-- attr.Value, of the attribute types that the resources have
pub data AttrValue : Type 0 where
  string : Attr String → AttrValue
  boolean : Attr Bool → AttrValue
  number : Attr ℤ → AttrValue
  list : ListAttr → AttrValue

abbrev pub is_null_value : AttrValue → Bool
is_null_value (string v) = is_null v
is_null_value (boolean v) = is_null v
is_null_value (number v) = is_null v
is_null_value (list v) = is_null v

abbrev pub is_unknown_value : AttrValue → Bool
is_unknown_value (string v) = is_unknown v
is_unknown_value (boolean v) = is_unknown v
is_unknown_value (number v) = is_unknown v
is_unknown_value (list v) = is_unknown v

abbrev is_nil : List (Attr String) → Bool
is_nil [] = true
is_nil (x ∷ xs) = false

abbrev pub is_empty_list : AttrValue → Bool
is_empty_list (list v) = is_nil (elements v)
is_empty_list _ = false

-- GetAttribute: a value with diagnostics
abbrev pub Got : Type 0 → Type 0
Got A = A × List Diagnostic

pub record Config : Type 0 where
  pub string_at : String → Got (Attr String)
  pub value_at : String → Got AttrValue

abbrev pub does_not_apply : Platform → FieldScope → Attr String → String → Diagnostic
does_not_apply p s v f = attribute_error f ("Attribute does not apply to this " <> s.field) (
    s.field
    <> " "
    <> p.quote (value_string v)
    <> " does not take "
    <> f
    <> ", and uapi refuses a value for it. Remove "
    <> f
    <> " from the configuration, or set it to null.")

-- Whether the loop of validateConfig passes a value over.
abbrev pub passes : AttrValue → Bool
passes cfg = is_null_value cfg || is_unknown_value cfg || is_empty_list cfg

-- the loop of validateConfig
unfoldable pub check_fields :
    Platform → FieldScope → Config → Attr String → List String → List Diagnostic → List Diagnostic
check_fields p s c v [] ds = ds
check_fields p s c v (f ∷ fs) ds =
    let (cfg, d) = c.value_at f in
    let ds' = ds ++ d in
    let rest =
      check_fields p s c v fs (if passes cfg then ds' else ds' ++ does_not_apply p s v f ∷ []) in
    if has_error ds' then ds' else rest

-- validateConfig: the diagnostics of the response, from those before it
unfoldable pub validate_config : Platform → FieldScope → Config → List Diagnostic → List Diagnostic
validate_config p s c ds =
    let (v, d) = c.string_at s.field in
    let ds' = ds ++ d in
    if has_error ds' || is_null v || is_unknown v
    then ds'
    else check_fields p s c v (excluded s (value_string v)) ds'

-- What a plan sets a field to.
pub data Mark : Type 0 where
  to_null to_unknown : Mark

pub record PlanRequest : Type 0 where
  -- req.Plan.Raw.IsNull and req.State.Raw.IsNull
  pub destroys : Bool
  pub creates : Bool
  pub config : Config
  pub plan : Config
  pub prior : Config
  -- AttributeAtPath(…).IsComputed
  pub computed : String → Got Bool
  -- ValueFromTerraform of null or unknown, at the type of a value
  pub convert : Mark → AttrValue → Called AttrValue
  -- SetAttribute's diagnostics
  pub set_diags : String → AttrValue → List Diagnostic

pub record PlanResponse : Type 0 where
  pub planned : String → AttrValue
  pub diags : List Diagnostic

abbrev pub set_at : String → AttrValue → (String → AttrValue) → String → AttrValue
set_at f v plan g = if f == g then v else plan g

abbrev converted : PlanRequest → String → Called AttrValue → PlanResponse → PlanResponse
converted req f (failed t) resp = record resp {
  diags = resp.diags ++ attribute_error f ("Error planning " <> f) t ∷ [];
}
converted req f (ok v) resp = record {
  planned = set_at f v resp.planned;
  diags = resp.diags ++ req.set_diags f v;
}

abbrev stops : Called AttrValue → Bool
stops (failed t) = true
stops (ok v) = false

-- plan, the loop over the fields
unfoldable pub plan_fields : PlanRequest → List String → Mark → PlanResponse → PlanResponse
plan_fields req [] raw resp = resp
plan_fields req (f ∷ fs) raw resp =
    let (computed, d) = req.computed f in
    let (cfg, e) = req.config.value_at f in
    let (planned, g) = req.plan.value_at f in
    let resp' = record resp { diags = ((resp.diags ++ d) ++ e) ++ g } in
    let nv = req.convert raw planned in
    let next =
      if not computed || not (is_null_value cfg) then resp' else converted req f nv resp' in
    let rest = plan_fields req fs raw next in
    if has_error resp'.diags
    then resp'
    else if (computed && is_null_value cfg) && stops nv
    then next
    else rest

-- slices.DeleteFunc of the elements of the second list
unfoldable pub without : List String → List String → List String
without [] ys = []
without (x ∷ xs) ys = let rest = without xs ys in if contains ys x then rest else x ∷ rest

abbrev pub no_string : Got (Attr String)
no_string = (null, [])

-- the end of modifyPlan, for a known value
unfoldable pub plan_known :
    FieldScope → PlanRequest → Attr String → Attr String → PlanResponse → PlanResponse
plan_known s req v prior resp =
    let out = excluded s (value_string v) in
    let nulled = plan_fields req out to_null resp in
    if is_null prior || attr_eq prior v
    then nulled
    else plan_fields req (without (excluded s (value_string prior)) out) to_unknown nulled

-- modifyPlan
unfoldable pub modify_plan : FieldScope → PlanRequest → PlanResponse → PlanResponse
modify_plan s req resp =
    if req.destroys
    then resp
    else (let (v, d) = req.plan.string_at s.field in
        let (prior, e) = if req.creates then no_string else req.prior.string_at s.field in
        let resp' = record resp { diags = (resp.diags ++ d) ++ e } in
        if has_error resp'.diags || is_null v
        then resp'
        else if is_unknown v
        then plan_fields req (scoped s) to_unknown resp'
        else plan_known s req v prior resp')
