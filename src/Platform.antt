-- ===== src/Platform.antt =====
-- What the source calls of code outside this repository, as one record that the definitions take.
-- encoding/json, url.QueryEscape, http.NewRequest, the formatting of floats, the status texts, and
-- the list conversions of terraform-plugin-framework. `Lawful` names what the proofs rely on.
use terraform_provider_uapi.Base.{
  ℕ, ℤ, String, ◌≡◌, refl, ◌⊎◌, inl, inr, Bool, false, Option, List, [], map,
}
use terraform_provider_uapi.Base.Text.{is_empty}
use terraform_provider_uapi.Any.{Object}
use terraform_provider_uapi.Framework.{Attr, known, ListAttr, Diagnostic}
use terraform_provider_uapi.Client.Error.{ApiError}

-- A library call's value, or the text of its error.
pub data Called {ℓ} (A : Type ℓ) : Type ℓ where
  ok : A → Called A
  failed : String → Called A

pub Called-cases {ℓ} :
    {A : Type ℓ} (c : Called A) → ((a : A) × (c ≡ ok a)) ⊎ ((t : String) × (c ≡ failed t))
Called-cases (ok a) = inl (a, refl)
Called-cases (failed t) = inr (t, refl)

pub record Platform : Type 0 where
  -- json.Marshal of a request body, and json.Unmarshal into a map, a list of maps, an APIError
  pub marshal : Object → Called String
  pub unmarshal_object : String → Called Object
  pub unmarshal_list : String → Called (List Object)
  -- what the target holds afterwards, and whether the call succeeded
  pub unmarshal_error : String → ApiError → ApiError × Bool
  -- json.Marshal of a text, and json.Unmarshal into one
  pub marshal_text : String → String
  pub unmarshal_text : String → Called String
  pub query_escape : String → String
  -- the error of http.NewRequestWithContext, if it refuses the target
  pub request_error : String → Option String
  pub status_text : ℕ → String
  -- runtime.GOOS and runtime.GOARCH
  pub goos : String
  pub goarch : String
  -- fmt's %q of a text
  pub quote : String → String
  -- fmt's %v of a float64, and Go's conversion of one to int64
  pub format_float : ℕ → String
  pub float_to_int64 : ℕ → ℤ
  -- == of two float64
  pub float_eq : ℕ → ℕ → Bool
  -- types.List.ElementsAs into a []string, and types.ListValueFrom of a []string
  pub elements_as : List (Attr String) → List Diagnostic × List String
  pub list_value_from : List String → List Diagnostic × ListAttr

-- The framework converts a list of known strings without a diagnostic, both ways, and a text that
-- is encoded as JSON is not empty and decodes to itself.
pub record Lawful (p : Platform) : Type 0 where
  pub elements_as_known : (xs : List String) → p.elements_as (map known xs) ≡ ([], xs)
  pub list_value_from_known : (xs : List String) → p.list_value_from xs ≡ ([], known (map known xs))
  pub marshal_text_given : (s : String) → is_empty (p.marshal_text s) ≡ false
  pub unmarshal-marshal_text : (s : String) → p.unmarshal_text (p.marshal_text s) ≡ ok s
