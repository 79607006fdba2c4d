-- ===== src/Resources/Reported/Password.antt =====
-- internal/provider/system_password_resource.go: the handlers of a password, against what they report.
use terraform_provider_uapi.Base.{false, List, ◌++◌}
use terraform_provider_uapi.Any.{str, end, entry}
use terraform_provider_uapi.Framework.{Diagnostic, value_string}
use terraform_provider_uapi.Platform.{Platform}
use terraform_provider_uapi.Client.World.{Env, World}
use terraform_provider_uapi.Client.Request.{Client}
use terraform_provider_uapi.Client.Objects.{Written, written}
use terraform_provider_uapi.Provider.Crud.{Decoded}
use terraform_provider_uapi.Provider.Reported.{
  IsReported, is_refused, fails_behind, always_sent, error-IsReported, save-IsReported,
  guarded_write-IsReported, write_err-is_error,
}
use terraform_provider_uapi.Resources.SystemPassword
use terraform_provider_uapi.Resources.Reported.Requests.{post_refused}

module _ (set_state : SystemPassword.Model → List Diagnostic) (p : Platform) (c : Client) where
  system_password_save_set-IsReported :
      (m : SystemPassword.Model) (r : Written) (env : Env) (w : World)
      → IsReported (is_refused r) false (SystemPassword.save_set set_state p m r env w)
  unfolding SystemPassword.save_set
  system_password_save_set-IsReported m (Written.failure e) env w =
      error-IsReported SystemPassword.Model w _ (write_err-is_error "setting" "system password" e)
  system_password_save_set-IsReported m (written obj etag) env w = save-IsReported set_state _ env _

  -- Setting a password, in Create and in Update, fails for its plan, its configuration or its POST, and a
  -- refresh for its state.
  pub system_password-IsReported :
      (plan config : Decoded SystemPassword.Model) (env : Env) (w : World)
      → IsReported
          (fails_behind config.1
            (post_refused p c "/system/password" env (
              entry "user"
                (str (value_string plan.0.user))
                (entry "password" (str (value_string config.0.password_wo)) end)))
            (record w { diags = w.diags ++ plan.1 }))
          false
          (SystemPassword.set_password set_state p c plan config env w)
        × IsReported
            (fails_behind plan.1 always_sent w)
            false
            (SystemPassword.refresh set_state p plan env w)
  unfolding SystemPassword.set_password SystemPassword.refresh
  system_password-IsReported plan config env w = (
    guarded_write-IsReported config.1 _
        (post_refused p c "/system/password" env (
          entry "user" (str (value_string plan.0.user))
            (entry "password" (str (value_string config.0.password_wo)) end)))
        env (record w { diags = w.diags ++ plan.1 })
        (system_password_save_set-IsReported plan.0 _ env _),
    guarded_write-IsReported plan.1 _ always_sent env w (save-IsReported set_state plan.0 env _),
  )
