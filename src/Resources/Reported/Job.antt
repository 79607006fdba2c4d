-- ===== src/Resources/Reported/Job.antt =====
-- internal/provider/cron_job_resource.go: the handlers of a cron job, against what they report.
use terraform_provider_uapi.Base.{
  true, false, ◌≡◌, refl, not, none, some, is_some, Option, List, arith,
}
use terraform_provider_uapi.Base.Text.{◌<>◌}
use terraform_provider_uapi.Any.{str, end, entry}
use terraform_provider_uapi.Framework.{Diagnostic, is_error, value_string}
use terraform_provider_uapi.Platform.{Platform}
use terraform_provider_uapi.Client.Error.{Error}
use terraform_provider_uapi.Client.World.{Env, World}
use terraform_provider_uapi.Client.Request.{Client}
use terraform_provider_uapi.Client.Objects.{Fetched, missing, found, Written, written}
use terraform_provider_uapi.Provider.Crud.{Decoded}
use terraform_provider_uapi.Provider.Reported.{
  IsReported, is_refused, is_unread, is_missing, fails_behind, always_sent, error-IsReported,
  save-IsReported, guarded-IsReported, guarded_write-IsReported, write_err-is_error,
}
use terraform_provider_uapi.Resources.CronJob
use terraform_provider_uapi.Resources.Reported.Requests.{
  post_refused, get_fails, get_misses, delete_refused, delete_accepted, AllReported,
}

create_error-is_error :
    (set_state : CronJob.Model → List Diagnostic) (p : Platform) (e : Error)
    → is_error (CronJob.create_error set_state p e) ≡ true
unfolding CronJob.create_error
create_error-is_error set_state p e = ground (arith, write_err-is_error "creating" "cron job" e)

module _ (set_state : CronJob.Model → List Diagnostic) (p : Platform) (c : Client) where
  cron_job_save_created-IsReported :
      (m : CronJob.Model) (r : Written) (env : Env) (w : World)
      → IsReported (is_refused r) false (CronJob.save_created set_state p m r env w)
  unfolding CronJob.save_created
  cron_job_save_created-IsReported m (Written.failure e) env w =
      error-IsReported CronJob.Model w _ (create_error-is_error set_state p e)
  cron_job_save_created-IsReported m (written obj etag) env w = save-IsReported set_state _ env _

  cron_job_save_fetched-IsReported :
      (m : CronJob.Model) (r : Fetched) (env : Env) (w : World)
      → IsReported (is_unread r) (is_missing r) (CronJob.save_fetched set_state p m r env w)
  unfolding CronJob.save_fetched
  cron_job_save_fetched-IsReported m (Fetched.failure e) env w =
      error-IsReported CronJob.Model w _ refl
  cron_job_save_fetched-IsReported m missing env w = (refl, refl, refl)
  cron_job_save_fetched-IsReported m (found obj etag) env w = save-IsReported set_state _ env _

  cron_job_deleted-IsReported :
      (r : Option Error) (env : Env) (w : World)
      → IsReported (is_some r) (not (is_some r)) (CronJob.deleted set_state p r env w)
  unfolding CronJob.deleted
  cron_job_deleted-IsReported none env w = (refl, refl, refl)
  cron_job_deleted-IsReported (some e) env w =
      error-IsReported CronJob.Model w _ (write_err-is_error "deleting" "cron job" e)

  pub cron_job-AllReported :
      (plan : Decoded CronJob.Model) (env : Env) (w : World)
      → AllReported p c env w CronJob.collection
          (CronJob.collection <> "/" <> value_string plan.0.id)
          (entry "schedule"
            (str (value_string plan.0.schedule))
            (entry "command" (str (value_string plan.0.command)) end))
          plan.1
          (CronJob.create set_state p c plan env w)
          (CronJob.refresh set_state p c plan env w)
          (CronJob.destroy set_state p c plan env w)
  unfolding CronJob.create CronJob.refresh CronJob.destroy
  cron_job-AllReported plan env w = (
    guarded_write-IsReported plan.1 _
        (post_refused p c CronJob.collection env (
          entry "schedule" (str (value_string plan.0.schedule))
            (entry "command" (str (value_string plan.0.command)) end)))
        env w (cron_job_save_created-IsReported plan.0 _ env _),
    guarded-IsReported plan.1 _
        (get_fails p c (CronJob.collection <> "/" <> value_string plan.0.id) env)
        (get_misses p c (CronJob.collection <> "/" <> value_string plan.0.id) env) env w
        (cron_job_save_fetched-IsReported plan.0 _ env _),
    guarded-IsReported plan.1 _
        (delete_refused p c (CronJob.collection <> "/" <> value_string plan.0.id) env)
        (delete_accepted p c (CronJob.collection <> "/" <> value_string plan.0.id) env) env w
        (cron_job_deleted-IsReported _ env _),
  )

  pub cron_job_update-IsReported :
      (plan : Decoded CronJob.Model) (env : Env) (w : World)
      → IsReported (fails_behind plan.1 always_sent w) false (CronJob.update set_state p plan env w)
  unfolding CronJob.update
  cron_job_update-IsReported plan env w =
      guarded_write-IsReported plan.1 _ always_sent env w (save-IsReported set_state plan.0 env _)
