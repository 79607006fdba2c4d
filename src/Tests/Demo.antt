-- ===== src/Tests/Demo.antt =====
-- A platform, a client and a router to run the model against.
use terraform_provider_uapi.Base.{
  ℕ, pos, String, false, none, List, [], ◌∷◌, map, nat_eq, if◌then◌else◌, ◌==◌, ◌≡◌, refl, ap,
}
use terraform_provider_uapi.Any.{bool, str, Object, end, entry}
use terraform_provider_uapi.Framework.{known, value_string}
use terraform_provider_uapi.Platform.{Platform, Lawful, Called, ok, failed}
use terraform_provider_uapi.Client.World.{Request, Response, Failure, Outcome, Attempt, Env}
use terraform_provider_uapi.Client.Request.{Client}

abbrev pub lan_object : Object
lan_object = entry "id" (str "lan") end

abbrev pub token_object : Object
token_object = entry "name" (str "ci") (entry "bearer" (str "b1") end)

abbrev decoded : String → Object
decoded s =
    if s == "unmanaged"
    then entry "managed" (bool false) lan_object
    else if s == "token"
    then token_object
    else lan_object

-- An encoding of texts that puts one letter in front.
abbrev unquoted : String → Called String
unquoted String.[] = failed "unexpected end of JSON input"
unquoted (String.◌∷◌ c s) = ok s

abbrev pub demo : Platform
demo = record {
  marshal = λ o. ok "{}";
  unmarshal_object = λ s. ok (decoded s);
  unmarshal_list = λ s. ok (lan_object ∷ []);
  unmarshal_error = λ s e. (e, false);
  marshal_text = λ s. String.◌∷◌ "q" s;
  unmarshal_text = λ s. unquoted s;
  query_escape = λ s. s;
  request_error = λ s. none;
  status_text = λ n. "Status";
  goos = "linux";
  goarch = "amd64";
  quote = λ s. s;
  format_float = λ n. "0";
  float_to_int64 = λ n. pos n;
  float_eq = nat_eq;
  elements_as = λ xs. ([], map value_string xs);
  list_value_from = λ xs. ([], known (map known xs));
}

abbrev pub client : Client
client = record {
  base_url = "http://router";
  token = "secret";
  user_agent = "demo";
  insecure = false;
}

abbrev pub response : ℕ → String → String → Response
response status body cursor = record {
  status = status;
  retry_after = "";
  etag = "v2";
  next_cursor = cursor;
  mgmt_path_warning = "";
  body = body;
}

abbrev pub attempt : Outcome → Attempt
attempt o = record { outcome = o; now = 0; later = 0; jitter = 0; ended = none }

abbrev pub lost : Failure
lost = record { text = "connection reset"; ended = none }

-- A router that meets every attempt with one outcome.
abbrev pub always : Outcome → Env
always o = record { respond = λ sent. attempt o; random = λ sent. none }

pub demo-Lawful : Lawful demo
demo-Lawful = record {
  elements_as_known = λ xs. ap (λ ys. ([], ys)) (values xs);
  list_value_from_known = λ xs. refl;
  marshal_text_given = λ s. refl;
  unmarshal-marshal_text = λ s. refl;
}
  where
    values : (xs : List String) → map value_string (map known xs) ≡ xs
    values [] = refl
    values (x ∷ xs) = ap (λ (l : List String). x ∷ l) (values xs)

abbrev on_request : Outcome → Outcome → List Request → Attempt
on_request first next [] = attempt first
on_request first next (req ∷ []) = attempt first
on_request first next (req ∷ sent) = attempt next

-- A router that meets the first request with one outcome, and the later ones with another.
abbrev pub once_then : Outcome → Outcome → Env
once_then first next = record { respond = on_request first next; random = λ sent. none }
