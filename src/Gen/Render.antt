-- ===== src/Gen/Render.antt =====
-- internal/gen/renderers.go: the statements that the generator writes into body() and read(). A
-- statement of body() is a call of a put of helpers.go, and one of read() is an assignment from a
-- read of helpers.go; a statement is its text's meaning here, on the attributes of a model by name.
pub mod Fits
pub mod Sends
pub mod Reads
pub mod RoundTrip
use terraform_provider_uapi.Base.{
  ℤ, String, Bool, true, false, ◌&&◌, ◌||◌, not, Option, none, some, List, [], ◌∷◌, ◌++◌, ◌==◌, any,
  if◌then◌else◌,
}
use terraform_provider_uapi.Any.{Object}
use terraform_provider_uapi.Framework.{Attr, null, ListAttr, Diagnostic}
use terraform_provider_uapi.Platform.{Platform}
use terraform_provider_uapi.Provider.Values.{
  Read, Body, empty_body, put_str, put_bool, put_int64, put_int_or_str, put_list, str_val, bool_val,
  bool_val_default, int64_val, list_val_keep_empty,
}
use terraform_provider_uapi.Provider.FieldScope.{AttrValue, string, boolean, number, list}
use terraform_provider_uapi.Gen.Spec.{
  GoType, Kind, required, optcomp, optclear, writeonly, createonly, computedbool, computedstring,
  intstr, Field, ResourceKind, collection, singleton,
}
use terraform_provider_uapi.Gen.Field.{ResModel, is_singleton}

abbrev pub is_create_only : Kind → Bool
is_create_only createonly = true
is_create_only _ = false

-- hasCreateOnly
unfoldable pub has_create_only : ResModel → Bool
has_create_only r = any (λ (f : Field). is_create_only f.kind) r.fields

-- needsCreateFlag
unfoldable pub needs_create_flag : ResModel → Bool
unfolding has_create_only
needs_create_flag r = not (is_singleton r.kind) || has_create_only r

-- dsFields
unfoldable pub ds_fields : List Field → List Field
ds_fields [] = []
ds_fields (f ∷ fs) = let rest = ds_fields fs in if is_create_only f.kind then rest else f ∷ rest

-- The attributes of a model, by name.
abbrev pub Values : Type 0
Values = String → AttrValue

-- A Go field of one type holds no value of another; a read of the wrong type finds nothing.
abbrev pub as_text : AttrValue → Attr String
as_text (string v) = v
as_text _ = null

abbrev pub as_flag : AttrValue → Attr Bool
as_flag (boolean v) = v
as_flag _ = null

abbrev pub as_number : AttrValue → Attr ℤ
as_number (number v) = v
as_number _ = null

abbrev pub as_texts : AttrValue → ListAttr
as_texts (list v) = v
as_texts _ = null

module _ (p : Platform) where
  -- bodyStmt by the type of a field
  abbrev pub put_typed : GoType → String → AttrValue → Body → Body
  put_typed GoType.list n v b = put_list p n (as_texts v) b
  put_typed GoType.int64 n v b = put_int64 n (as_number v) b
  put_typed GoType.bool n v b = put_bool n (as_flag v) b
  put_typed GoType.string n v b = put_str n (as_text v) b

  -- bodyStmt by the kind of a field
  abbrev pub put_kind : Kind → GoType → String → AttrValue → Body → Body
  put_kind computedbool t n v b = b
  put_kind computedstring t n v b = b
  put_kind intstr t n v b = put_int_or_str n (as_text v) b
  put_kind _ t n v b = put_typed t n v b

  -- bodyStmt
  unfoldable pub body_stmt : Field → AttrValue → Body → Body
  body_stmt f v b = put_kind f.kind f.go_type f.name v b

  -- readStmt by the type of a field
  abbrev pub read_typed : GoType → String → Object → AttrValue → Read AttrValue
  read_typed GoType.list n obj v =
      let (l, ds) = list_val_keep_empty p obj n (as_texts v) in (list l, ds)
  read_typed GoType.int64 n obj v = (number (int64_val p obj n), [])
  read_typed GoType.bool n obj v = (boolean (bool_val obj n), [])
  read_typed GoType.string n obj v = (string (str_val p obj n), [])

  -- readStmt by the kind of a field
  abbrev pub read_kind : Kind → GoType → String → Object → AttrValue → Read AttrValue
  read_kind writeonly t n obj v = (v, [])
  read_kind createonly t n obj v = (v, [])
  read_kind computedbool t n obj v = (boolean (bool_val_default obj n), [])
  read_kind _ t n obj v = read_typed t n obj v

  -- readStmt
  unfoldable pub read_stmt : Field → Object → AttrValue → Read AttrValue
  read_stmt f obj v = read_kind f.kind f.go_type f.name obj v

  -- the statements of body() for the fields, the create-only ones under `if create`
  unfoldable pub body_stmts : Bool → List Field → Values → Body → Body
  body_stmts create [] m b = b
  body_stmts create (f ∷ fs) m b =
      body_stmts create fs m
        (if is_create_only f.kind && not create then b else body_stmt f (m f.name) b)

  -- the statements of read() for the fields
  unfoldable pub read_stmts : List Field → Object → Values → Values × List Diagnostic
  read_stmts [] obj m = (m, [])
  read_stmts (f ∷ fs) obj m =
      let (v, ds) = read_stmt f obj (m f.name) in
      let (m', es) = read_stmts fs obj (λ n. if f.name == n then v else m n) in (m', ds ++ es)
