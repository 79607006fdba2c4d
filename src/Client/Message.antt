-- ===== src/Client/Message.antt =====
-- client.go: New, newIdempotencyKey, decodeError, and the request that each round of `do` builds.
use terraform_provider_uapi.Base.{
  ℕ, ◌/◌, ◌%◌, String, Bool, ◌&&◌, not, Option, none, some, List, [], ◌∷◌, ◌++◌, if◌then◌else◌,
  nat_eq,
}
use terraform_provider_uapi.Base.Text.{◌<>◌, is_empty, has_char, trim_right, trim_space}
use terraform_provider_uapi.Platform.{Platform}
use terraform_provider_uapi.Client.Error.{ApiError}
use terraform_provider_uapi.Client.World.{Method, Request}

pub record Client : Type 0 where
  pub base_url : String
  pub token : String
  pub user_agent : String
  -- TLSClientConfig.InsecureSkipVerify of the transport
  pub insecure : Bool

hex_digit : ℕ → String
hex_digit d =
    if nat_eq d 10
    then "a"
    else if nat_eq d 11
    then "b"
    else if nat_eq d 12
    then "c"
    else if nat_eq d 13
    then "d"
    else if nat_eq d 14
    then "e"
    else if nat_eq d 15
    then "f"
    else if nat_eq d 0
    then "0"
    else if nat_eq d 1
    then "1"
    else if nat_eq d 2
    then "2"
    else if nat_eq d 3
    then "3"
    else if nat_eq d 4
    then "4"
    else if nat_eq d 5
    then "5"
    else if nat_eq d 6
    then "6"
    else if nat_eq d 7
    then "7"
    else if nat_eq d 8
    then "8"
    else "9"

-- hex.EncodeToString
hex : List ℕ → String
hex [] = ""
hex (b ∷ bs) = hex_digit (b / 16) <> (hex_digit (b % 16) <> hex bs)

-- newIdempotencyKey: "" if the random source fails
unfoldable pub idempotency_key : Option (List ℕ) → String
unfolding hex_digit hex
idempotency_key none = ""
idempotency_key (some bytes) = hex bytes

abbrev header_if : String → String → List (String × String)
header_if name value = if is_empty value then [] else (name, value) ∷ []

abbrev content_type : Option String → List (String × String)
content_type none = []
content_type (some payload) = ("Content-Type", "application/json") ∷ []

or_status_text : String → String → String
or_status_text text standard = if is_empty text then standard else text

module _ (p : Platform) where
  -- client.New
  unfoldable pub new_client : String → String → Bool → String → Client
  new_client base_url token insecure version =
      let v = if is_empty version then "dev" else version in
      record {
        base_url = trim_right (λ c. nat_eq c b'/') base_url;
        token = token;
        user_agent = "terraform-provider-uapi/" <> v <> " (" <> p.goos <> "/" <> p.goarch <> ")";
        insecure = insecure;
      }

  -- decodeError
  unfoldable pub decode_error : ℕ → String → ApiError
  unfolding or_status_text
  decode_error status body =
      let blank : ApiError = record { status = status; code = ""; message = ""; errors = [] } in
      let (e, decoded) = p.unmarshal_error body blank in
      let target = if is_empty body then blank else e in
      if not (is_empty body) && decoded && not (is_empty e.code) then e else record target {
        code = "unknown";
        message = or_status_text (trim_space body) (p.status_text status);
      }

  -- the closure addQuery of `do`
  unfoldable pub add_query : String → String → String → String
  add_query target key value =
      if is_empty value
      then target
      else target
        <> (if has_char b'?' target then "&" else "?")
        <> key
        <> "="
        <> p.query_escape value

  -- the request that each round of the loop builds
  unfoldable pub build_request :
      Client → Method → String → Option String → String → String → Request
  unfolding add_query
  build_request c method path payload if_match key = record {
    method = method;
    target = add_query (add_query (c.base_url <> path) "if_match" if_match) "idempotency_key" key;
    headers =
        ("Authorization", "Bearer " <> c.token)
        ∷ ("Accept", "application/json")
        ∷ ("User-Agent", c.user_agent)
        ∷ (header_if "If-Match" if_match
            ++ (header_if "Idempotency-Key" key ++ content_type payload));
    body = payload;
  }
