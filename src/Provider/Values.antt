-- ===== src/Provider/Values.antt =====
-- internal/provider/helpers.go: reading attributes from a JSON object, and putting attributes into
-- a request body. A read of a list and a put of a list come with diagnostics; a body under
-- construction carries those so far.
pub mod Laws
pub mod Lists
use terraform_provider_uapi.Base.{
  ℤ, String, Bool, true, false, ◌&&◌, not, Option, none, some, List, [], ◌∷◌, ◌++◌, if◌then◌else◌,
}
use terraform_provider_uapi.Base.Decimal.{atoi}
use terraform_provider_uapi.Any.{
  Any, null, bool, float64, int64, int, str, strs, arr, obj, Anys, nil, cons, Object, end, lookup,
  insert,
}
use terraform_provider_uapi.Framework.{
  Attr, known, unknown, null as no_value, is_null, is_unknown, elements, ListAttr, Diagnostic,
}
use terraform_provider_uapi.Platform.{Platform}
use terraform_provider_uapi.Provider.Print.{sprint}

-- The values that a read returns, with its diagnostics.
abbrev pub Read : Type 0 → Type 0
Read A = A × List Diagnostic

-- A body under construction.
abbrev pub Body : Type 0
Body = Object × List Diagnostic

abbrev pub empty_body : Body
empty_body = (end, [])

-- The next statement of a sequence.
infixl 1 ◌▹◌
abbrev pub ◌▹◌ {ℓ κ} : {A : Type ℓ} {B : Type κ} → A → (A → B) → B
x ▹ f = f x

abbrev as_bool : Option Any → Attr Bool
as_bool (some (bool b)) = known b
as_bool _ = no_value

-- boolVal
unfoldable pub bool_val : Object → String → Attr Bool
bool_val m key = as_bool (lookup key m)

abbrev or_false : Attr Bool → Attr Bool
or_false no_value = known false
or_false v = v

-- boolValDefault
unfoldable pub bool_val_default : Object → String → Attr Bool
unfolding bool_val
bool_val_default m key = or_false (bool_val m key)

abbrev set_value {ℓ} : {A : Type ℓ} → (A → Any) → String → Attr A → Body → Body
set_value of key (known v) (m, ds) = (insert key (of v) m, ds)
set_value of key _ b = b

-- putStr, putBool and putInt64: a null or unknown value puts nothing
unfoldable pub put_str : String → Attr String → Body → Body
put_str key v b = set_value str key v b

unfoldable pub put_bool : String → Attr Bool → Body → Body
put_bool key v b = set_value bool key v b

unfoldable pub put_int64 : String → Attr ℤ → Body → Body
put_int64 key v b = set_value int64 key v b

abbrev int_or_str : String → Option ℤ → Any
int_or_str s (some n) = int n
int_or_str s none = str s

-- putIntOrStr: a whole number goes as a number, all else as the text
unfoldable pub put_int_or_str : String → Attr String → Body → Body
put_int_or_str key v b = set_value (λ s. int_or_str s (atoi s)) key v b

-- out[key] = a nested body, whose diagnostics come behind those so far
unfoldable pub put_object : String → Body → Body → Body
put_object key (n, after) (m, ds) = (insert key (obj n) m, ds ++ after)

abbrev as_object : Option Any → Object
as_object (some (obj m)) = m
as_object _ = end

-- `nested, _ := m[key].(map[string]any)`, an empty map for nil
unfoldable pub object_at : Object → String → Object
object_at m key = as_object (lookup key m)

module _ (p : Platform) where
  abbrev as_string : Option Any → Attr String
  as_string none = no_value
  as_string (some null) = no_value
  as_string (some (str s)) = known s
  as_string (some v) = known (sprint p v)

  -- strVal
  unfoldable pub str_val : Object → String → Attr String
  str_val m key = as_string (lookup key m)

  abbrev as_int64 : Option Any → Attr ℤ
  as_int64 (some (float64 n)) = known (p.float_to_int64 n)
  as_int64 (some (int64 n)) = known n
  as_int64 (some (int n)) = known n
  as_int64 _ = no_value

  -- int64Val
  unfoldable pub int64_val : Object → String → Attr ℤ
  int64_val m key = as_int64 (lookup key m)

  -- The loop of listVal: null entries are left out.
  unfoldable pub list_items : Anys → List String
  list_items nil = []
  list_items (cons null vs) = list_items vs
  list_items (cons (str s) vs) = s ∷ list_items vs
  list_items (cons v vs) = sprint p v ∷ list_items vs

  abbrev swapped : List Diagnostic × ListAttr → Read ListAttr
  swapped (ds, v) = (v, ds)

  abbrev as_list : Option Any → Read ListAttr
  as_list (some (arr vs)) = swapped (p.list_value_from (list_items vs))
  as_list _ = (no_value, [])

  -- listVal
  unfoldable pub list_val : Object → String → Read ListAttr
  unfolding list_items
  list_val m key = as_list (lookup key m)

  abbrev is_nil {ℓ} : {A : Type ℓ} → List A → Bool
  is_nil [] = true
  is_nil (x ∷ xs) = false

  -- listValKeepEmpty: a known empty prior stays where the read is null
  unfoldable pub list_val_keep_empty : Object → String → ListAttr → Read ListAttr
  unfolding list_val
  list_val_keep_empty m key prior =
      let (v, ds) = list_val m key in
      if is_null v && (not (is_null prior) && (not (is_unknown prior) && is_nil (elements prior)))
      then (prior, ds)
      else (v, ds)

  abbrev set_list : String → List Diagnostic × List String → Body → Body
  set_list key (ds, items) (m, before) = (insert key (strs items) m, before ++ ds)

  -- putList
  unfoldable pub put_list : String → ListAttr → Body → Body
  put_list key (known xs) b = set_list key (p.elements_as xs) b
  put_list key _ b = b
