-- ===== src/Client/Error.antt =====
-- client.go: APIError, the errors of a call, and their classification.
use terraform_provider_uapi.Base.{
  ℕ, String, Bool, false, ◌&&◌, ◌||◌, Option, none, some, List, [], ◌∷◌, ◌==◌, nat_eq, any, pos,
}
use terraform_provider_uapi.Base.Text.{◌<>◌}
use terraform_provider_uapi.Base.Decimal.{itoa}

pub record FieldError : Type 0 where
  pub field : String
  pub code : String
  pub message : String

pub record ApiError : Type 0 where
  pub status : ℕ
  pub code : String
  pub message : String
  pub errors : List FieldError

-- How a context ended.
pub data Ended : Type 0 where
  canceled deadline_exceeded : Ended

pub data Error : Type 0 where
  api : ApiError → Error
  -- ctx.Err()
  context : Ended → Error
  -- an error of another library, by its text
  other : String → Error
  -- fmt.Errorf("<text>: %w", err)
  wrapped : String → Error → Error
  -- the model's request loop ran out of fuel
  out_of_fuel : Error

error_lines : List FieldError → String
error_lines [] = ""
error_lines (fe ∷ rest) =
    "\n  - " <> fe.field <> ": " <> fe.message <> " (" <> fe.code <> ")" <> error_lines rest

-- (*APIError).Error
unfoldable pub api_error_text : ApiError → String
unfolding error_lines itoa
api_error_text e =
    "uapi " <> itoa (pos e.status) <> " " <> e.code <> ": " <> e.message <> error_lines e.errors

-- err.Error()
unfoldable pub error_text : Error → String
unfolding api_error_text
error_text (api e) = api_error_text e
error_text (context canceled) = "context canceled"
error_text (context deadline_exceeded) = "context deadline exceeded"
error_text (other t) = t
error_text (wrapped t e) = t <> ": " <> error_text e
error_text out_of_fuel = ""

-- errors.As(err, &apiErr)
abbrev pub as_api : Error → Option ApiError
as_api (api e) = some e
as_api (wrapped t e) = as_api e
as_api _ = none

abbrev pub has_status : ℕ → Option ApiError → Bool
has_status code none = false
has_status code (some e) = nat_eq e.status code

abbrev pub status_is : Error → ℕ → Bool
status_is err code = has_status code (as_api err)

abbrev pub is_not_found : Error → Bool
is_not_found err = status_is err 404

abbrev pub is_precondition_failed : Error → Bool
is_precondition_failed err = status_is err 412

abbrev pub is_conflict : Error → Bool
is_conflict err = status_is err 409

abbrev pub is_identity_conflict : FieldError → Bool
is_identity_conflict fe = fe.code == "conflict" && (fe.field == "id" || fe.field == "name")

abbrev field_conflict : Option ApiError → Bool
field_conflict none = false
field_conflict (some e) = nat_eq e.status 422 && any is_identity_conflict e.errors

abbrev pub is_field_conflict : Error → Bool
is_field_conflict err = field_conflict (as_api err)
