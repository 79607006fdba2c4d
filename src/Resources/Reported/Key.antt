-- ===== src/Resources/Reported/Key.antt =====
-- internal/provider/authorized_key_resource.go: the handlers of an authorized key, against what they report.
use terraform_provider_uapi.Base.{false, refl, not, none, some, is_some, Option, List}
use terraform_provider_uapi.Base.Text.{◌<>◌}
use terraform_provider_uapi.Any.{str, end, entry}
use terraform_provider_uapi.Framework.{Diagnostic, value_string}
use terraform_provider_uapi.Platform.{Platform}
use terraform_provider_uapi.Client.Error.{Error}
use terraform_provider_uapi.Client.World.{Env, World}
use terraform_provider_uapi.Client.Request.{Client}
use terraform_provider_uapi.Client.Objects.{Fetched, missing, found, Written, written}
use terraform_provider_uapi.Provider.Crud.{Decoded}
use terraform_provider_uapi.Provider.Reported.{
  IsReported, is_refused, is_unread, is_missing, fails_behind, always_sent, error-IsReported,
  save-IsReported, guarded-IsReported, guarded_write-IsReported, write_err-is_error,
}
use terraform_provider_uapi.Resources.AuthorizedKey
use terraform_provider_uapi.Resources.Reported.Requests.{
  post_refused, get_fails, get_misses, delete_refused, delete_accepted, AllReported,
}

module _ (set_state : AuthorizedKey.Model → List Diagnostic) (p : Platform) (c : Client) where
  authorized_key_save_created-IsReported :
      (m : AuthorizedKey.Model) (r : Written) (env : Env) (w : World)
      → IsReported (is_refused r) false (AuthorizedKey.save_created set_state p m r env w)
  unfolding AuthorizedKey.save_created
  authorized_key_save_created-IsReported m (Written.failure e) env w =
      error-IsReported AuthorizedKey.Model w _ (write_err-is_error "creating" "authorized key" e)
  authorized_key_save_created-IsReported m (written obj etag) env w =
      save-IsReported set_state _ env _

  authorized_key_save_fetched-IsReported :
      (m : AuthorizedKey.Model) (r : Fetched) (env : Env) (w : World)
      → IsReported (is_unread r) (is_missing r) (AuthorizedKey.save_fetched set_state p m r env w)
  unfolding AuthorizedKey.save_fetched
  authorized_key_save_fetched-IsReported m (Fetched.failure e) env w =
      error-IsReported AuthorizedKey.Model w _ refl
  authorized_key_save_fetched-IsReported m missing env w = (refl, refl, refl)
  authorized_key_save_fetched-IsReported m (found obj etag) env w =
      save-IsReported set_state _ env _

  authorized_key_deleted-IsReported :
      (r : Option Error) (env : Env) (w : World)
      → IsReported (is_some r) (not (is_some r)) (AuthorizedKey.deleted set_state p r env w)
  unfolding AuthorizedKey.deleted
  authorized_key_deleted-IsReported none env w = (refl, refl, refl)
  authorized_key_deleted-IsReported (some e) env w =
      error-IsReported AuthorizedKey.Model w _ (write_err-is_error "deleting" "authorized key" e)

  pub authorized_key-AllReported :
      (plan : Decoded AuthorizedKey.Model) (env : Env) (w : World)
      → AllReported p c env w
          ("/" <> AuthorizedKey.collection)
          ("/" <> AuthorizedKey.collection <> "/" <> value_string plan.0.id)
          (entry "key" (str (value_string plan.0.key)) end)
          plan.1
          (AuthorizedKey.create set_state p c plan env w)
          (AuthorizedKey.refresh set_state p c plan env w)
          (AuthorizedKey.destroy set_state p c plan env w)
  unfolding AuthorizedKey.create AuthorizedKey.refresh AuthorizedKey.destroy
  authorized_key-AllReported plan env w = (
    guarded_write-IsReported plan.1 _
        (post_refused p c ("/" <> AuthorizedKey.collection) env
          (entry "key" (str (value_string plan.0.key)) end))
        env w (authorized_key_save_created-IsReported plan.0 _ env _),
    guarded-IsReported plan.1 _
        (get_fails p c ("/" <> AuthorizedKey.collection <> "/" <> value_string plan.0.id) env)
        (get_misses p c ("/" <> AuthorizedKey.collection <> "/" <> value_string plan.0.id) env) env
        w (authorized_key_save_fetched-IsReported plan.0 _ env _),
    guarded-IsReported plan.1 _
        (delete_refused p c ("/" <> AuthorizedKey.collection <> "/" <> value_string plan.0.id) env)
        (delete_accepted p c ("/" <> AuthorizedKey.collection <> "/" <> value_string plan.0.id) env)
        env w (authorized_key_deleted-IsReported _ env _),
  )

  pub authorized_key_update-IsReported :
      (plan : Decoded AuthorizedKey.Model) (env : Env) (w : World)
      → IsReported
          (fails_behind plan.1 always_sent w)
          false
          (AuthorizedKey.update set_state p plan env w)
  unfolding AuthorizedKey.update
  authorized_key_update-IsReported plan env w =
      guarded_write-IsReported plan.1 _ always_sent env w (save-IsReported set_state plan.0 env _)
