-- ===== src/Resources/Reported/Feed.antt =====
-- internal/provider/package_feed_resource.go: the handlers of a package feed, against what they report.
use terraform_provider_uapi.Base.{false, refl, not, none, some, is_some, Option, List}
use terraform_provider_uapi.Base.Text.{◌<>◌}
use terraform_provider_uapi.Any.{str, end, entry}
use terraform_provider_uapi.Framework.{Diagnostic, value_string}
use terraform_provider_uapi.Platform.{Platform}
use terraform_provider_uapi.Client.Error.{Error}
use terraform_provider_uapi.Client.World.{Env, World}
use terraform_provider_uapi.Client.Request.{Client}
use terraform_provider_uapi.Client.Objects.{Fetched, missing, found, Written, written}
use terraform_provider_uapi.Provider.Crud.{Decoded}
use terraform_provider_uapi.Provider.Reported.{
  IsReported, is_refused, is_unread, is_missing, fails_behind, gone_behind, error-IsReported,
  save-IsReported, guarded-IsReported, guarded_write-IsReported,
}
use terraform_provider_uapi.Resources.PackageFeed
use terraform_provider_uapi.Resources.Reported.Requests.{
  post_refused, get_fails, get_misses, delete_refused, delete_accepted, AllReported,
}

module _ (set_state : PackageFeed.Model → List Diagnostic) (p : Platform) (c : Client) where
  package_feed_save_created-IsReported :
      (m : PackageFeed.Model) (r : Written) (env : Env) (w : World)
      → IsReported (is_refused r) false (PackageFeed.save_created set_state p m r env w)
  unfolding PackageFeed.save_created
  package_feed_save_created-IsReported m (Written.failure e) env w =
      error-IsReported PackageFeed.Model w _ refl
  package_feed_save_created-IsReported m (written obj etag) env w =
      save-IsReported set_state _ env _

  package_feed_save_fetched-IsReported :
      (m : PackageFeed.Model) (r : Fetched) (env : Env) (w : World)
      → IsReported (is_unread r) (is_missing r) (PackageFeed.save_fetched set_state p m r env w)
  unfolding PackageFeed.save_fetched
  package_feed_save_fetched-IsReported m (Fetched.failure e) env w =
      error-IsReported PackageFeed.Model w _ refl
  package_feed_save_fetched-IsReported m missing env w = (refl, refl, refl)
  package_feed_save_fetched-IsReported m (found obj etag) env w = save-IsReported set_state _ env _

  package_feed_deleted-IsReported :
      (r : Option Error) (env : Env) (w : World)
      → IsReported (is_some r) (not (is_some r)) (PackageFeed.deleted set_state p r env w)
  unfolding PackageFeed.deleted
  package_feed_deleted-IsReported none env w = (refl, refl, refl)
  package_feed_deleted-IsReported (some e) env w = error-IsReported PackageFeed.Model w _ refl

  pub package_feed-AllReported :
      (plan : Decoded PackageFeed.Model) (env : Env) (w : World)
      → AllReported p c env w
          ("/" <> PackageFeed.collection)
          ("/" <> PackageFeed.collection <> "/" <> value_string plan.0.id)
          (entry "name"
            (str (value_string plan.0.name))
            (entry "url" (str (value_string plan.0.url)) end))
          plan.1
          (PackageFeed.create set_state p c plan env w)
          (PackageFeed.refresh set_state p c plan env w)
          (PackageFeed.destroy set_state p c plan env w)
  unfolding PackageFeed.create PackageFeed.refresh PackageFeed.destroy
  package_feed-AllReported plan env w = (
    guarded_write-IsReported plan.1 _
        (post_refused p c ("/" <> PackageFeed.collection) env (
          entry "name" (str (value_string plan.0.name))
            (entry "url" (str (value_string plan.0.url)) end)))
        env w (package_feed_save_created-IsReported plan.0 _ env _),
    guarded-IsReported plan.1 _
        (get_fails p c ("/" <> PackageFeed.collection <> "/" <> value_string plan.0.id) env)
        (get_misses p c ("/" <> PackageFeed.collection <> "/" <> value_string plan.0.id) env) env w
        (package_feed_save_fetched-IsReported plan.0 _ env _),
    guarded-IsReported plan.1 _
        (delete_refused p c ("/" <> PackageFeed.collection <> "/" <> value_string plan.0.id) env)
        (delete_accepted p c ("/" <> PackageFeed.collection <> "/" <> value_string plan.0.id) env)
        env w (package_feed_deleted-IsReported _ env _),
  )

  pub package_feed_update-IsReported :
      (plan : Decoded PackageFeed.Model) (env : Env) (w : World)
      → IsReported
          (fails_behind plan.1
            (get_fails p c ("/" <> PackageFeed.collection <> "/" <> value_string plan.0.id) env)
            w)
          (gone_behind plan.1
            (get_misses p c ("/" <> PackageFeed.collection <> "/" <> value_string plan.0.id) env)
            w)
          (PackageFeed.update set_state p c plan env w)
  unfolding PackageFeed.update
  package_feed_update-IsReported plan env w =
      guarded-IsReported plan.1 _
        (get_fails p c ("/" <> PackageFeed.collection <> "/" <> value_string plan.0.id) env)
        (get_misses p c ("/" <> PackageFeed.collection <> "/" <> value_string plan.0.id) env) env w
        (package_feed_save_fetched-IsReported plan.0 _ env _)
