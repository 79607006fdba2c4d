-- ===== src/Provider/DataSource/Outcomes.antt =====
-- What the Read of any data source does to its state, against what it reports.
use terraform_provider_uapi.Base.{String, Bool, false, ◌||◌, List, refl}
use terraform_provider_uapi.Any.{Object}
use terraform_provider_uapi.Framework.{Diagnostic}
use terraform_provider_uapi.Platform.{Platform}
use terraform_provider_uapi.Client.World.{Env, World}
use terraform_provider_uapi.Client.Request.{Client}
use terraform_provider_uapi.Client.Objects.{
  Fetched, missing, found, Listed, listed, get_object, get_list,
}
use terraform_provider_uapi.Provider.Crud.{Decoded}
use terraform_provider_uapi.Provider.Reported.{
  IsReported, is_unread, is_missing, is_unlisted, fails_behind, error-IsReported, save-IsReported,
  guarded_write-IsReported,
}
use terraform_provider_uapi.Provider.DataSource.{
  Source, save_found, fetch, look_up, save_listed, list_all,
}

module _ {M : Type 0} (set_state : M → List Diagnostic) (p : Platform) where
  save_listed-IsReported :
      (failure : String) (of : List Object → M) (r : Listed) (env : Env) (w : World)
      → IsReported (is_unlisted r) false (save_listed set_state p failure of r env w)
  unfolding save_listed
  save_listed-IsReported failure of (Listed.failure e) env w = error-IsReported M w _ refl
  save_listed-IsReported failure of (listed objs) env w = save-IsReported set_state _ env _

-- The GET of a data source gives no object.
abbrev pub is_unfound : Fetched → Bool
is_unfound r = is_unread r || is_missing r

module _ {C M : Type 0} (set_state : M → List Diagnostic) (p : Platform) (src : Source C M) where
  save_found-IsReported :
      (cfg : C) (r : Fetched) (env : Env) (w : World)
      → IsReported (is_unfound r) false (save_found set_state p src cfg r env w)
  unfolding save_found
  save_found-IsReported cfg (Fetched.failure e) env w = error-IsReported M w _ refl
  save_found-IsReported cfg missing env w = error-IsReported M w _ refl
  save_found-IsReported cfg (found obj etag) env w = save-IsReported set_state _ env _

  -- The GET of a configuration gives no object.
  abbrev pub unfound_for : Client → C → Env → World → Bool
  unfound_for c cfg env v = is_unfound (get_object p c false (src.path cfg) env v).0

-- The Read of a data source gives no state where its configuration does not decode, where its GET
-- fails or finds no object, or where its list fails, and it never gives none without an error
-- shown. It reads one object with a configuration or without one, or a list.
pub reads-IsReported :
    {C M N : Type 0} (set_state : M → List Diagnostic) (set_list : N → List Diagnostic)
    (p : Platform) (src : Source C M) (c : Client) (cfg : Decoded C) (path failure : String)
    (of : List Object → N) (env : Env) (w : World)
    → IsReported
        (fails_behind cfg.1 (unfound_for set_state p src c cfg.0 env) w)
        false
        (look_up set_state p src c cfg env w)
      × IsReported
          (unfound_for set_state p src c cfg.0 env w)
          false
          (fetch set_state p src c cfg.0 env w)
      × IsReported
          (is_unlisted (get_list p c false path env w).0)
          false
          (list_all set_list p c path failure of env w)
unfolding look_up fetch list_all
reads-IsReported set_state set_list p src c cfg path failure of env w = (
  guarded_write-IsReported cfg.1 _ (unfound_for set_state p src c cfg.0 env) env w
      (save_found-IsReported set_state p src cfg.0 _ env _),
  save_found-IsReported set_state p src cfg.0 _ env _,
  save_listed-IsReported set_list p failure of _ env _,
)
