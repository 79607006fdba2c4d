-- ===== src/Framework.antt =====
-- The types of terraform-plugin-framework that the provider's code handles: three-valued
-- attributes and diagnostics. The framework itself is not in this repository; what the code calls
-- of it with an answer of its own is a field of `Platform`.
use terraform_provider_uapi.Base.{String, Bool, true, false, List, [], ◌∷◌, ◌||◌}

-- types.String, types.Bool, types.Int64 and types.List: null, unknown, or a value
pub data Attr {ℓ} (A : Type ℓ) : Type ℓ where
  null : Attr A
  unknown : Attr A
  known : A → Attr A

-- types.List of types.String
abbrev pub ListAttr : Type 0
ListAttr = Attr (List (Attr String))

module _ {ℓ} {A : Type ℓ} where
  abbrev pub is_null : Attr A → Bool
  is_null null = true
  is_null _ = false

  abbrev pub is_unknown : Attr A → Bool
  is_unknown unknown = true
  is_unknown _ = false

-- ValueString() and ValueBool(): the zero value where there is none
abbrev pub value_string : Attr String → String
value_string (known s) = s
value_string _ = ""

abbrev pub value_bool : Attr Bool → Bool
value_bool (known b) = b
value_bool _ = false

-- Elements() of a list: none where it is null or unknown
abbrev pub elements : ListAttr → List (Attr String)
elements (known xs) = xs
elements _ = []

pub data Diagnostic : Type 0 where
  error warning : (summary detail : String) → Diagnostic
  attribute_error : (path summary detail : String) → Diagnostic

abbrev pub is_error : Diagnostic → Bool
is_error (warning s d) = false
is_error _ = true

-- diag.Diagnostics.HasError
unfoldable pub has_error : List Diagnostic → Bool
has_error [] = false
has_error (d ∷ ds) = is_error d || has_error ds
