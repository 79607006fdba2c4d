-- ===== src/Resources/CronJob.antt =====
-- internal/provider/cron_job_resource.go: one line of the root crontab.
use terraform_provider_uapi.Base.{
  String, Bool, true, false, none, some, List, [], ◌∷◌, ◌++◌, if◌then◌else◌, Option,
}
use terraform_provider_uapi.Base.Text.{◌<>◌}
use terraform_provider_uapi.Any.{str, Object, end, entry}
use terraform_provider_uapi.Framework.{Attr, known, Diagnostic, warning, error, value_string}
use terraform_provider_uapi.Platform.{Platform}
use terraform_provider_uapi.Client.Error.{Error, error_text, is_conflict}
use terraform_provider_uapi.Client.World.{
  post, Action, pure, ◌>>=◌, ◌>>◌, append, add_error, has_errors,
}
use terraform_provider_uapi.Client.Request.{Client}
use terraform_provider_uapi.Client.Objects.{
  Fetched, missing, found, Written, written, get_object, write_object, delete_object,
}
use terraform_provider_uapi.Provider.Values.{str_val, bool_val, object_at}
use terraform_provider_uapi.Provider.WriteError.{write_err}
use terraform_provider_uapi.Provider.Crud.{StateChange, kept, removed, Decoded, save}

pub record Model : Type 0 where
  pub id : Attr String
  pub schedule : Attr String
  pub command : Attr String

abbrev pub collection : String
collection = "/system/cron_jobs"

-- `!v.IsNull() && !v.ValueBool()` of a value that is read
abbrev is_known_false : Attr Bool → Bool
is_known_false (known false) = true
is_known_false _ = false

module _ (set_state : Model → List Diagnostic) (p : Platform) where
  unfoldable pub fill : Object → Model → Model
  fill obj m = record m {
    id = str_val p obj "id";
    schedule = str_val p obj "schedule";
    command = str_val p obj "command";
  }

  -- cronJobWarnings
  unfoldable pub cron_job_warnings : Object → List Diagnostic
  cron_job_warnings obj =
      let rt = object_at obj "runtime" in
      (if is_known_false (bool_val rt "crond_running")
        then warning "crond is not running"
            "procd reports no running crond, so no cron job runs. The cron init script does not start crond while /etc/crontabs is empty, and stops it when system.cronloglevel is invalid."
          ∷ []
        else [])
      ++ (if is_known_false (bool_val rt "runs_as_written")
          then warning "Cron job does not run as written" (
              "busybox crond runs the schedule "
              <> p.quote (value_string (str_val p obj "schedule"))
              <> " differently from how it reads. uapi refuses such a schedule on write, so another writer added this line. Change the schedule to a form uapi accepts, which replaces the job.")
            ∷ []
          else [])

  abbrev job_body : Model → Object
  job_body m =
      entry "schedule" (str (value_string m.schedule))
        (entry "command" (str (value_string m.command)) end)

  -- the diagnostic of a failed create
  unfoldable pub create_error : Error → Diagnostic
  create_error err =
      if is_conflict err
      then error "Error creating cron job" (
          "The root crontab already holds this schedule and command, from another uapi_cron_job or from outside Terraform. "
          <> "To manage the existing line, `terraform import` it by the id in the message below.\n\n"
          <> error_text err)
      else write_err "creating" "cron job" err

  unfoldable pub save_created : Model → Written → Action (StateChange Model)
  save_created plan (Written.failure err) = do append (create_error err ∷ []); pure kept
  save_created plan (written obj etag) = do
    append (cron_job_warnings obj)
    save set_state (fill obj plan)

  unfoldable pub create : Client → Decoded Model → Action (StateChange Model)
  create c plan = do
    append plan.1
    failed ← has_errors
    if failed then pure kept else (do
      r ← write_object p c false post collection (some (job_body plan.0)) ""
      save_created plan.0 r)

  unfoldable pub save_fetched : Model → Fetched → Action (StateChange Model)
  save_fetched m (Fetched.failure err) = do
    add_error "Error reading cron job" (error_text err)
    pure kept
  save_fetched m missing = pure removed
  save_fetched m (found obj etag) = do append (cron_job_warnings obj); save set_state (fill obj m)

  unfoldable pub refresh : Client → Decoded Model → Action (StateChange Model)
  refresh c state = do
    append state.1
    failed ← has_errors
    if failed then pure kept else (do
      r ← get_object p c false (collection <> "/" <> value_string state.0.id)
      save_fetched state.0 r)

  -- Update sends nothing: a change of either field replaces the job.
  unfoldable pub update : Decoded Model → Action (StateChange Model)
  update plan = do
    append plan.1
    failed ← has_errors
    if failed then pure kept else save set_state plan.0

  unfoldable pub deleted : Option Error → Action (StateChange Model)
  deleted none = pure removed
  deleted (some err) = do append (write_err "deleting" "cron job" err ∷ []); pure kept

  unfoldable pub destroy : Client → Decoded Model → Action (StateChange Model)
  destroy c state = do
    append state.1
    failed ← has_errors
    if failed then pure kept else (do
      r ← delete_object p c false (collection <> "/" <> value_string state.0.id) ""
      deleted r)

  -- ImportState: the id that the state gets, without a look at the router
  unfoldable pub import_state : String → Action (Option String)
  import_state id = pure (some id)
