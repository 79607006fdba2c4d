-- ===== src/Resources/Package/Lifecycle.antt =====
-- A package that was there before its resource outlives it.
use terraform_provider_uapi.Base.{Bool, true, false, ◌≡◌, sym, List, ◌++◌, arith}
use terraform_provider_uapi.Base.Text.{◌<>◌}
use terraform_provider_uapi.Framework.{known, Diagnostic, has_error, value_string}
use terraform_provider_uapi.Platform.{Platform}
use terraform_provider_uapi.Client.World.{Env, World, ◌>>=◌}
use terraform_provider_uapi.Client.Request.{Client}
use terraform_provider_uapi.Client.Objects.{
  Fetched, missing, found, Written, written, delete_object,
}
use terraform_provider_uapi.Provider.Crud.{StateChange, removed, stored, save}
use terraform_provider_uapi.Resources.Package.{
  Model, install, save_installed, destroy, uninstalled, collection,
}

module _ (set_state : Model → List Diagnostic) (p : Platform) (c : Client) where
  save_pre_existed :
      (m n : Model) (env : Env) (w : World)
      → (save set_state m env w).0 ≡ stored n
      → m.pre_existed ≡ n.pre_existed
  unfolding save
  save_pre_existed m n env w h = ground arith

  save_installed-pre_existed :
      (plan m : Model) (b : Bool) (r : Written) (env : Env) (w : World)
      → (save_installed set_state p plan b r env w).0 ≡ stored m
      → known b ≡ m.pre_existed
  unfolding save_installed
  save_installed-pre_existed plan m b (Written.failure e) env w h = absurd (ground arith)
  save_installed-pre_existed plan m b (written obj etag) env w h = save_pre_existed _ m env w h

  destroy-pre_existed :
      (m : Model) (ds : List Diagnostic) (env : Env) (w : World)
      → m.pre_existed ≡ known true
      → has_error (w.diags ++ ds) ≡ false
      → destroy set_state p c (m, ds) env w ≡ (removed, record w { diags = w.diags ++ ds })
  unfolding destroy
  destroy-pre_existed m ds env w h quiet = rw (quiet, h, destroy)

  destroy-ours :
      (m : Model) (ds : List Diagnostic) (env : Env) (w : World)
      → m.pre_existed ≡ known false
      → has_error (w.diags ++ ds) ≡ false
      → destroy set_state p c (m, ds) env w
        ≡ (delete_object p c false (collection <> "/" <> value_string m.id) ""
              >>= uninstalled set_state p)
            env
            (record w { diags = w.diags ++ ds })
  unfolding destroy
  destroy-ours m ds env w h quiet = rw (quiet, h, destroy)

  -- What a destroy does next, by whether the create found the package.
  abbrev pub after_destroy : Fetched → Model → Env → World → StateChange Model × World
  after_destroy (found obj etag) m env w = (removed, w)
  after_destroy _ m env w =
      (delete_object p c false (collection <> "/" <> value_string m.id) ""
          >>= uninstalled set_state p)
        env w

  -- Where no error is shown before, a destroy of a package that its create found installed sends
  -- nothing and drops the state, and a destroy of one that its create did not find deletes it.
  pub install-destroy :
      (plan m : Model) (found_before : Fetched) (ds : List Diagnostic) (env later : Env)
      (w w' : World)
      → (install set_state p c plan found_before env w).0 ≡ stored m
      → has_error (w'.diags ++ ds) ≡ false
      → destroy set_state p c (m, ds) later w'
        ≡ after_destroy found_before m later (record w' { diags = w'.diags ++ ds })
  unfolding install
  install-destroy plan m (Fetched.failure e) ds env later w w' h quiet = absurd (ground arith)
  install-destroy plan m missing ds env later w w' h quiet =
      destroy-ours m ds later w' (sym (save_installed-pre_existed plan m false _ env _ h)) quiet
  install-destroy plan m (found obj etag) ds env later w w' h quiet =
      destroy-pre_existed m ds later w' (sym (save_installed-pre_existed plan m true _ env _ h))
        quiet
