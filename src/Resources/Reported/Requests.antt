-- ===== src/Resources/Reported/Requests.antt =====
-- What becomes of the requests of the hand-written resources.
use terraform_provider_uapi.Base.{String, Bool, false, not, some, is_some, List}
use terraform_provider_uapi.Any.{Object}
use terraform_provider_uapi.Framework.{Diagnostic}
use terraform_provider_uapi.Platform.{Platform}
use terraform_provider_uapi.Client.World.{Env, World, post}
use terraform_provider_uapi.Client.Request.{Client}
use terraform_provider_uapi.Client.Objects.{get_object, write_object, delete_object}
use terraform_provider_uapi.Provider.Crud.{StateChange}
use terraform_provider_uapi.Provider.Reported.{
  IsReported, is_refused, is_unread, is_missing, fails_behind, gone_behind,
}

-- A POST is refused, a GET fails, or finds nothing, and a DELETE is refused.
module _ (p : Platform) (c : Client) (path : String) (env : Env) where
  abbrev pub post_refused : Object → World → Bool
  post_refused body w = is_refused (write_object p c false post path (some body) "" env w).0

  abbrev pub get_fails : World → Bool
  get_fails w = is_unread (get_object p c false path env w).0

  abbrev pub get_misses : World → Bool
  get_misses w = is_missing (get_object p c false path env w).0

  abbrev pub delete_refused : World → Bool
  delete_refused w = is_some (delete_object p c false path "" env w).0

  abbrev pub delete_accepted : World → Bool
  delete_accepted w = not (delete_refused w)

-- What the handlers of a resource come to: a create with its POST, a refresh and a delete on a path,
-- and an update, each with the diagnostics before it.
abbrev pub AllReported :
    {M : Type 0}
    → Platform
    → Client
    → Env
    → World
    → (path item : String) → Object
    → (ds : List Diagnostic) → (created refreshed destroyed : StateChange M × World) → Type 0
AllReported p c env w path item body ds created refreshed destroyed =
    IsReported (fails_behind ds (post_refused p c path env body) w) false created
    × IsReported (fails_behind ds (get_fails p c item env) w)
        (gone_behind ds (get_misses p c item env) w) refreshed
    × IsReported (fails_behind ds (delete_refused p c item env) w)
        (gone_behind ds (delete_accepted p c item env) w) destroyed
