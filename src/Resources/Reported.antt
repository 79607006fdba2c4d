-- ===== src/Resources/Reported.antt =====
-- The hand-written resources never leave a state as it was without an error, and leave it where a
-- request fails.
pub mod Requests
pub mod Feed
pub mod Key
pub mod Job
pub mod Password
use terraform_provider_uapi.Base.{
  String, Bool, true, false, ◌≡◌, refl, not, none, some, is_some, Option, List, [], ◌∷◌, ◌++◌,
  arith,
}
use terraform_provider_uapi.Base.Text.{◌<>◌}
use terraform_provider_uapi.Any.{Object, str, end, entry}
use terraform_provider_uapi.Framework.{Diagnostic, is_error, value_string}
use terraform_provider_uapi.Platform.{Platform}
use terraform_provider_uapi.Client.Error.{Error}
use terraform_provider_uapi.Client.World.{Env, World, post}
use terraform_provider_uapi.Client.Request.{Client}
use terraform_provider_uapi.Client.Objects.{
  Fetched, missing, found, Written, written, get_object, write_object, delete_object,
}
use terraform_provider_uapi.Provider.Crud.{Decoded, StateChange}
use terraform_provider_uapi.Provider.Reported.{
  IsReported, is_refused, is_unread, is_missing, fails_behind, gone_behind, always_sent,
  error-IsReported, save-IsReported, guarded-IsReported, guarded_write-IsReported,
  write_err-is_error,
}
use terraform_provider_uapi.Resources.CronJob
use terraform_provider_uapi.Resources.PackageFeed
use terraform_provider_uapi.Resources.AuthorizedKey
use terraform_provider_uapi.Resources.SystemPassword
use terraform_provider_uapi.Resources.Reported.Requests.{
  post_refused, get_fails, get_misses, delete_refused, delete_accepted, AllReported,
}
use terraform_provider_uapi.Resources.Reported.Feed
use terraform_provider_uapi.Resources.Reported.Key
use terraform_provider_uapi.Resources.Reported.Job
use terraform_provider_uapi.Resources.Reported.Password

-- The creates, refreshes, updates and deletes of a package feed, an authorized key and a cron job,
-- and the setting and the refresh of a password: one whose input does not decode, or whose request
-- is refused, leaves the state alone, and none leaves it alone without an error shown. A state is
-- removed exactly by a delete that is accepted, and by a refresh, or a feed's update, that finds
-- the object gone. The update of a key or a job and the refresh of a password send nothing.
pub hand_written-IsReported :
    (set_feed : PackageFeed.Model → List Diagnostic)
    (set_key : AuthorizedKey.Model → List Diagnostic) (set_job : CronJob.Model → List Diagnostic)
    (set_user : SystemPassword.Model → List Diagnostic) (feed : Decoded PackageFeed.Model)
    (key : Decoded AuthorizedKey.Model) (job : Decoded CronJob.Model)
    (password config : Decoded SystemPassword.Model) (p : Platform) (c : Client) (env : Env)
    (w : World)
    → AllReported p c env w
        ("/" <> PackageFeed.collection)
        ("/" <> PackageFeed.collection <> "/" <> value_string feed.0.id)
        (entry "name"
          (str (value_string feed.0.name))
          (entry "url" (str (value_string feed.0.url)) end))
        feed.1
        (PackageFeed.create set_feed p c feed env w)
        (PackageFeed.refresh set_feed p c feed env w)
        (PackageFeed.destroy set_feed p c feed env w)
      × IsReported
          (fails_behind feed.1
            (get_fails p c ("/" <> PackageFeed.collection <> "/" <> value_string feed.0.id) env)
            w)
          (gone_behind feed.1
            (get_misses p c ("/" <> PackageFeed.collection <> "/" <> value_string feed.0.id) env)
            w)
          (PackageFeed.update set_feed p c feed env w)
      × AllReported p c env w
          ("/" <> AuthorizedKey.collection)
          ("/" <> AuthorizedKey.collection <> "/" <> value_string key.0.id)
          (entry "key" (str (value_string key.0.key)) end)
          key.1
          (AuthorizedKey.create set_key p c key env w)
          (AuthorizedKey.refresh set_key p c key env w)
          (AuthorizedKey.destroy set_key p c key env w)
      × IsReported
          (fails_behind key.1 always_sent w)
          false
          (AuthorizedKey.update set_key p key env w)
      × AllReported p c env w CronJob.collection
          (CronJob.collection <> "/" <> value_string job.0.id)
          (entry "schedule"
            (str (value_string job.0.schedule))
            (entry "command" (str (value_string job.0.command)) end))
          job.1
          (CronJob.create set_job p c job env w)
          (CronJob.refresh set_job p c job env w)
          (CronJob.destroy set_job p c job env w)
      × IsReported (fails_behind job.1 always_sent w) false (CronJob.update set_job p job env w)
      × IsReported
          (fails_behind config.1
            (post_refused p c "/system/password" env (
              entry "user"
                (str (value_string password.0.user))
                (entry "password" (str (value_string config.0.password_wo)) end)))
            (record w { diags = w.diags ++ password.1 }))
          false
          (SystemPassword.set_password set_user p c password config env w)
      × IsReported
          (fails_behind password.1 always_sent w)
          false
          (SystemPassword.refresh set_user p password env w)
hand_written-IsReported set_feed set_key set_job set_user feed key job password config p c env w = (
  Feed.package_feed-AllReported set_feed p c feed env w,
  Feed.package_feed_update-IsReported set_feed p c feed env w,
  Key.authorized_key-AllReported set_key p c key env w,
  Key.authorized_key_update-IsReported set_key p c key env w,
  Job.cron_job-AllReported set_job p c job env w,
  Job.cron_job_update-IsReported set_job p c job env w,
  (Password.system_password-IsReported set_user p c password config env w).0,
  (Password.system_password-IsReported set_user p c password config env w).1,
)
