-- ===== src/Client/Objects.antt =====
-- client.go: GetObject, GetList, Post, Put, Patch and Delete.
pub mod Pages
use terraform_provider_uapi.Base.{
  ℕ, zero, suc, String, Bool, Option, none, some, List, [], ◌++◌, if◌then◌else◌,
}
use terraform_provider_uapi.Base.Text.{◌<>◌, is_empty, has_char}
use terraform_provider_uapi.Any.{Object, end}
use terraform_provider_uapi.Platform.{Platform, ok, failed}
use terraform_provider_uapi.Client.Error.{Error, other, wrapped, is_not_found}
use terraform_provider_uapi.Client.World.{Method, get, delete, Action, pure, ◌>>=◌}
use terraform_provider_uapi.Client.Request.{Client, Reply, do_request}

-- The results of GetObject: an error, not found, or the object with its ETag.
pub data Fetched : Type 0 where
  failure : Error → Fetched
  missing : Fetched
  found : Object → String → Fetched

-- The results of a write: an error, or the object with its ETag.
pub data Written : Type 0 where
  failure : Error → Written
  written : Object → String → Written

pub data Listed : Type 0 where
  failure : Error → Listed
  listed : List Object → Listed

-- maxPages
abbrev pub max_pages : ℕ
max_pages = 1000

abbrev decoding : String → Error
decoding t = wrapped "decoding response" (other t)

module _ (p : Platform) where
  -- GetObject behind `do`
  unfoldable pub fetched : Reply → Fetched
  fetched r = elim r.err [
    | some e ↦ if is_not_found e then missing else failure e
    | none ↦ elim (p.unmarshal_object r.raw) [
      | failed t ↦ failure (decoding t)
      | ok obj ↦ found obj r.etag
    ]
  ]

  unfoldable pub get_object : Client → Bool → String → Action Fetched
  unfolding fetched
  get_object c warned path = do r ← do_request p c warned get path none ""; pure (fetched r)

  -- writeObject behind `do`
  unfoldable pub outcome : Reply → Written
  outcome r = elim r.err [
    | some e ↦ failure e
    | none ↦ if is_empty r.raw then written end r.etag else elim (p.unmarshal_object r.raw) [
      | failed t ↦ failure (decoding t)
      | ok obj ↦ written obj r.etag
    ]
  ]

  unfoldable pub write_object :
      Client → Bool → Method → String → Option Object → String → Action Written
  unfolding outcome
  write_object c warned method path body if_match = do
    r ← do_request p c warned method path body if_match
    pure (outcome r)

  -- Delete: a 404 is success
  unfoldable pub deleted : Reply → Option Error
  deleted r = elim r.err [ none ↦ none | some e ↦ if is_not_found e then none else some e ]

  unfoldable pub delete_object : Client → Bool → String → String → Action (Option Error)
  unfolding deleted
  delete_object c warned path if_match = do
    r ← do_request p c warned delete path none if_match
    pure (deleted r)

  unfoldable pub page_path : String → String → String
  page_path path next =
      path
      <> (if has_char b'?' path then "&" else "?")
      <> "limit=500"
      <> (if is_empty next then "" else "&cursor=" <> p.query_escape next)

  -- the loop of GetList over the pages left
  unfoldable pub list_pages : Client → Bool → String → ℕ → List Object → String → Action Listed
  list_pages c warned path zero all next env w = (listed all, w)
  list_pages c warned path (suc left) all next env w =
      let (r, w') = do_request p c warned get (page_path path next) none "" env w in
      elim r.err [
        | some e ↦ (failure e, w')
        | none ↦ elim (p.unmarshal_list r.raw) [
          | failed t ↦ (failure (decoding t), w')
          | ok page ↦
              let rest = list_pages c warned path left (all ++ page) r.next_cursor env w' in
              if is_empty r.next_cursor then (listed (all ++ page), w') else rest
        ]
      ]

  unfoldable pub get_list : Client → Bool → String → Action Listed
  get_list c warned path = list_pages c warned path max_pages [] ""
