-- ===== src/Provider/Singleton/Outcomes.antt =====
-- What the handlers of a singleton do to its state, against what they report.
use terraform_provider_uapi.Base.{String, Bool, false, true, some, refl, List, ◌++◌}
use terraform_provider_uapi.Framework.{Diagnostic, value_string}
use terraform_provider_uapi.Platform.{Platform}
use terraform_provider_uapi.Client.World.{Env, World, patch}
use terraform_provider_uapi.Client.Request.{Client}
use terraform_provider_uapi.Client.Objects.{
  Fetched, missing, found, Written, written, get_object, write_object,
}
use terraform_provider_uapi.Provider.Crud.{Decoded}
use terraform_provider_uapi.Provider.Reported.{
  IsReported, is_refused, is_unread, is_missing, fails_behind, gone_behind, error-IsReported,
  save-IsReported, guarded-IsReported, guarded_write-IsReported, write_err-is_error,
}
use terraform_provider_uapi.Provider.Singleton
use terraform_provider_uapi.Provider.Singleton.{Singleton as Section}

module _ {M : Type 0} (set_state : M → List Diagnostic) (p : Platform) (res : Section M)
    (c : Client) where
  section_written-IsReported :
      (action : String) (m : M) (r : Written) (env : Env) (w : World)
      → IsReported (is_refused r) false (Singleton.save_written set_state p res action m r env w)
  unfolding Singleton.save_written
  section_written-IsReported action m (Written.failure e) env w =
      error-IsReported M w _ (write_err-is_error action res.label e)
  section_written-IsReported action m (written obj etag) env w = save-IsReported set_state _ env _

  -- The PATCH of a plan fails: its body does not convert, or the router refuses it.
  abbrev pub patch_fails : M → String → Env → World → Bool
  patch_fails plan if_match env = fails_behind (res.body p plan).1 (λ v.
      is_refused (write_object p c true patch res.path (some (res.body p plan).0) if_match env v).0)

  section_planned-IsReported :
      (action : String) (plan : M) (if_match : String) (env : Env) (w : World)
      → IsReported
          (patch_fails plan if_match env w)
          false
          (Singleton.write_planned set_state p res c action plan if_match env w)
  unfolding Singleton.write_planned
  section_planned-IsReported action plan if_match env w =
      guarded_write-IsReported (res.body p plan).1 _
        (λ v.
          is_refused
            (write_object p c true patch res.path (some (res.body p plan).0) if_match env v).0)
        env w (section_written-IsReported action plan _ env _)

  section_fetched-IsReported :
      (m : M) (r : Fetched) (env : Env) (w : World)
      → IsReported (is_unread r) (is_missing r) (Singleton.save_fetched set_state p res m r env w)
  unfolding Singleton.save_fetched
  section_fetched-IsReported m (Fetched.failure e) env w = error-IsReported M w _ refl
  section_fetched-IsReported m missing env w = (refl, refl, refl)
  section_fetched-IsReported m (found obj etag) env w = save-IsReported set_state _ env _

  -- The answer to the GET of the section.
  abbrev pub section_for : Env → World → Fetched
  section_for env v = (get_object p c false res.path env v).0

  -- A create or an update of a singleton whose plan, body or PATCH fails and a refresh whose GET
  -- fails leave the state alone, and none leaves it alone without an error shown. Of these, a
  -- refresh alone removes the state, exactly where the router has no such section.
  pub singleton-IsReported :
      (plan state : Decoded M) (env : Env) (w : World)
      → IsReported
          (fails_behind plan.1 (patch_fails plan.0 "" env) w)
          false
          (Singleton.create set_state p res c plan env w)
        × IsReported
            (fails_behind state.1 (λ v. is_unread (section_for env v)) w)
            (gone_behind state.1 (λ v. is_missing (section_for env v)) w)
            (Singleton.refresh set_state p res c state env w)
        × IsReported
            (fails_behind state.1
              (patch_fails plan.0 (value_string (res.etag state.0)) env)
              (record w { diags = w.diags ++ plan.1 }))
            false
            (Singleton.update set_state p res c plan state env w)
  unfolding Singleton.create Singleton.refresh Singleton.update
  singleton-IsReported plan state env w = (
    guarded_write-IsReported plan.1 _ (patch_fails plan.0 "" env) env w
        (section_planned-IsReported "configuring" plan.0 "" env _),
    guarded-IsReported state.1 _ (λ v. is_unread (section_for env v))
        (λ v. is_missing (section_for env v)) env w (section_fetched-IsReported state.0 _ env _),
    guarded_write-IsReported state.1 _ (patch_fails plan.0 (value_string (res.etag state.0)) env)
        env (record w { diags = w.diags ++ plan.1 })
        (section_planned-IsReported "updating" plan.0 (value_string (res.etag state.0)) env _),
  )
