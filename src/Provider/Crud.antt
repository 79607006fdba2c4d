-- ===== src/Provider/Crud.antt =====
-- The Create, Read, Update, Delete and ImportState that internal/gen writes into every resource
-- file, which differ in names alone. `Resource` is what a resource's own code gives: its model's
-- body() and read(), its collection and label, and whether its Update sends a merge PATCH.
pub mod Accepted
pub mod Gone
pub mod Outcomes
pub mod Refused
use terraform_provider_uapi.Base.{
  String, Bool, true, false, Option, none, some, List, [], ◌∷◌, ◌++◌, if◌then◌else◌,
}
use terraform_provider_uapi.Base.Text.{◌<>◌}
use terraform_provider_uapi.Any.{Object}
use terraform_provider_uapi.Framework.{Attr, known, Diagnostic, has_error, value_string}
use terraform_provider_uapi.Platform.{Platform}
use terraform_provider_uapi.Client.Error.{Error, error_text}
use terraform_provider_uapi.Client.World.{
  Method, post, put, patch, Action, pure, ◌>>=◌, ◌>>◌, append, add_error, has_errors,
}
use terraform_provider_uapi.Client.Request.{Client}
use terraform_provider_uapi.Client.Objects.{
  Fetched, missing, found, Written, written, get_object, write_object, delete_object,
}
use terraform_provider_uapi.Provider.Values.{Read, Body}
use terraform_provider_uapi.Provider.Delta.{merge_delta}
use terraform_provider_uapi.Provider.WriteError.{write_err}
use terraform_provider_uapi.Provider.Import.{import_by_id}

pub record Resource (M : Type 0) : Type 0 where
  pub collection : String
  pub label : String
  -- r.body, with whether it is for a create
  pub body : Platform → M → Bool → Body
  -- r.read into a model
  pub fill : Platform → Object → M → Read M
  pub id : M → Attr String
  pub etag : M → Attr String
  pub with_etag : M → Attr String → M
  -- whether Update sends a merge PATCH, from the planned and the prior model
  pub patches : M → M → Bool
  -- what the refresh warns of
  pub warnings : Object → List Diagnostic

-- What a handler does to the resource's state; `kept` leaves what stands there.
pub data StateChange (M : Type 0) : Type 0 where
  kept removed : StateChange M
  stored : M → StateChange M

-- req.Plan.Get and req.State.Get: the decoded model with its diagnostics
abbrev pub Decoded : Type 0 → Type 0
Decoded M = M × List Diagnostic

module _ {M : Type 0} (set_state : M → List Diagnostic) where
  -- resp.Diagnostics.Append(resp.State.Set(ctx, &m)...): an error leaves the state as it was
  unfoldable pub save : M → Action (StateChange M)
  save m = do append (set_state m); pure (if has_error (set_state m) then kept else stored m)

  module _ (p : Platform) (res : Resource M) where
    abbrev pub item_path : M → String
    item_path m = "/" <> res.collection <> "/" <> value_string (res.id m)

    -- the end of a write: the model filled from the answer, with the answer's ETag
    unfoldable pub save_written : String → M → Written → Action (StateChange M)
    save_written action m (Written.failure err) = do
      append (write_err action res.label err ∷ [])
      pure kept
    save_written action m (written obj etag) = do
      append (res.fill p obj m).1
      save (res.with_etag (res.fill p obj m).0 (known etag))

    -- Create behind the decoding of the plan
    unfoldable pub create_planned : Client → M → Action (StateChange M)
    create_planned c plan = do
      append (res.body p plan true).1
      failed ← has_errors
      if failed then pure kept else (do
        r ← write_object p c true post ("/" <> res.collection) (some (res.body p plan true).0) ""
        save_written "creating" plan r)

    unfoldable pub create : Client → Decoded M → Action (StateChange M)
    create c plan = do
      append plan.1
      failed ← has_errors
      if failed then pure kept else create_planned c plan.0

    -- Read behind its GET
    unfoldable pub save_fetched : M → Fetched → Action (StateChange M)
    save_fetched m (Fetched.failure err) = do
      add_error ("Error reading " <> res.label) (error_text err)
      pure kept
    save_fetched m missing = pure removed
    save_fetched m (found obj etag) = do
      append ((res.fill p obj m).1 ++ res.warnings obj)
      save (res.with_etag (res.fill p obj m).0 (known etag))

    unfoldable pub refresh : Client → Decoded M → Action (StateChange M)
    refresh c state = do
      append state.1
      failed ← has_errors
      if failed
          then pure kept
          else (do r ← get_object p c false (item_path state.0); save_fetched state.0 r)

    -- the write of Update: a PUT of the body, or a PATCH of its difference to the prior body
    unfoldable pub write_update : Client → M → M → Action Written
    write_update c plan state =
        if res.patches plan state
        then (do
          append (res.body p state false).1
          write_object p c true patch (item_path plan)
              (some (merge_delta p (res.body p plan false).0 (res.body p state false).0))
              (value_string (res.etag state)))
        else write_object p c true put (item_path plan) (some (res.body p plan false).0)
            (value_string (res.etag state))

    -- Update behind the decoding of plan and state
    unfoldable pub update_planned : Client → M → M → Action (StateChange M)
    update_planned c plan state = do
      append (res.body p plan false).1
      failed ← has_errors
      if failed
          then pure kept
          else (do r ← write_update c plan state; save_written "updating" plan r)

    unfoldable pub update : Client → Decoded M → Decoded M → Action (StateChange M)
    update c plan state = do
      append plan.1
      append state.1
      failed ← has_errors
      if failed then pure kept else update_planned c plan.0 state.0

    -- the end of Delete: without an error the framework removes the state
    unfoldable pub deleted : Option Error → Action (StateChange M)
    deleted none = pure removed
    deleted (some err) = do append (write_err "deleting" res.label err ∷ []); pure kept

    unfoldable pub destroy : Client → Decoded M → Action (StateChange M)
    destroy c state = do
      append state.1
      failed ← has_errors
      if failed then pure kept else (do
        r ← delete_object p c true (item_path state.0) (value_string (res.etag state.0))
        deleted r)

    -- ImportState: the id that the state gets
    unfoldable pub import_state : Client → String → Action (Option String)
    import_state c id = import_by_id p c res.collection res.label id
