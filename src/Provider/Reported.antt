-- ===== src/Provider/Reported.antt =====
-- What a handler may do to a state beside the diagnostics that it shows, in the terms of what the
-- router answered to its request.
use terraform_provider_uapi.Base.{
  String, Bool, true, false, ◌&&◌, ◌||◌, not, ◌≡◌, refl, if◌then◌else◌, List, [], ◌∷◌, ◌++◌, arith,
  inl, inr, Bool-cases,
}
use terraform_provider_uapi.Framework.{Diagnostic, has_error, is_error}
use terraform_provider_uapi.Client.Error.{Error}
use terraform_provider_uapi.Client.World.{Env, World, Action, pure, ◌>>=◌, ◌>>◌, append, has_errors}
use terraform_provider_uapi.Client.Request.Answers.{has_error-append}
use terraform_provider_uapi.Client.Objects.{
  Fetched, missing, found, Written, written, Listed, listed,
}
use terraform_provider_uapi.Provider.WriteError.{write_err}
use terraform_provider_uapi.Provider.Crud.{StateChange, kept, removed, stored, save}

-- What an answer says: a request that failed, or an object that is gone.
abbrev pub is_refused : Written → Bool
is_refused (Written.failure e) = true
is_refused (written obj etag) = false

abbrev pub is_unread : Fetched → Bool
is_unread (Fetched.failure e) = true
is_unread missing = false
is_unread (found obj etag) = false

abbrev pub is_missing : Fetched → Bool
is_missing (Fetched.failure e) = false
is_missing missing = true
is_missing (found obj etag) = false

abbrev pub is_unlisted : Listed → Bool
is_unlisted (Listed.failure e) = true
is_unlisted (listed objs) = false

abbrev pub is_kept : {M : Type 0} → StateChange M → Bool
is_kept kept = true
is_kept removed = false
is_kept (stored m) = false

abbrev pub is_removed : {M : Type 0} → StateChange M → Bool
is_removed kept = false
is_removed removed = true
is_removed (stored m) = false

-- A state is never left alone without an error shown, it is left alone where the handler failed, and
-- it is removed exactly where its object is gone.
abbrev pub IsReported : {M : Type 0} → (failed gone : Bool) → StateChange M × World → Type 0
IsReported failed gone r =
    ((is_kept r.0 && not (has_error r.1.diags)) ≡ false)
    × ((failed && not (is_kept r.0)) ≡ false)
    × (is_removed r.0 ≡ gone)

-- Behind some diagnostics, a handler fails for an error among what is shown, or as it does then.
abbrev pub fails_behind : List Diagnostic → (World → Bool) → World → Bool
fails_behind ds failed w = has_error (w.diags ++ ds) || failed (record w { diags = w.diags ++ ds })

-- Behind some diagnostics, an object is gone for the handler if nothing shown is an error.
abbrev pub gone_behind : List Diagnostic → (World → Bool) → World → Bool
gone_behind ds gone w = not (has_error (w.diags ++ ds)) && gone (record w { diags = w.diags ++ ds })

-- A handler that sends nothing does not fail but for the diagnostics before it.
abbrev pub always_sent : World → Bool
always_sent w = false

pub write_err-is_error :
    (action label : String) (e : Error) → is_error (write_err action label e) ≡ true
unfolding write_err
write_err-is_error action label e = ground arith

pub shown_lem :
    (ds : List Diagnostic) (d : Diagnostic) → is_error d ≡ true → has_error (ds ++ d ∷ []) ≡ true
unfolding has_error
shown_lem ds d e = rw (has_error-append ds (d ∷ []), has_error, e) (ground arith)

-- One error is shown, and the state is left alone.
pub error-IsReported :
    (M : Type 0) (w : World) (d : Diagnostic)
    → is_error d ≡ true
    → IsReported {M = M} true false (kept, record w { diags = w.diags ++ d ∷ [] })
error-IsReported M w d e = (rw (shown_lem w.diags d e) refl, refl, refl)

module _ {M : Type 0} where
  pub save-IsReported :
      (set_state : M → List Diagnostic) (m : M) (env : Env) (w : World)
      → IsReported false false (save set_state m env w)
  unfolding save
  save-IsReported set_state m env w = elim (Bool-cases (has_error (set_state m))) [
    | inl e ↦
        rw (e, save) ((rw (has_error-append w.diags (set_state m), e) (ground arith), refl, refl))
    | inr e ↦ rw (e, save) (refl, refl, refl)
  ]

  -- The start that every handler has: it ends on an error, and goes on otherwise.
  abbrev pub guarded : List Diagnostic → Action (StateChange M) → Action (StateChange M)
  guarded ds next = do append ds; failed ← has_errors; if failed then pure kept else next

  pub guarded-IsReported :
      (ds : List Diagnostic) (next : Action (StateChange M)) (failed gone : World → Bool)
      (env : Env) (w : World)
      → IsReported
          (failed (record w { diags = w.diags ++ ds }))
          (gone (record w { diags = w.diags ++ ds }))
          (next env (record w { diags = w.diags ++ ds }))
      → IsReported (fails_behind ds failed w) (gone_behind ds gone w) (guarded ds next env w)
  guarded-IsReported ds next failed gone env w h = elim (Bool-cases (has_error (w.diags ++ ds))) [
    | inl e ↦ rw e (rw e refl, refl, refl)
    | inr e ↦ rw e h
  ]

  -- the same for a handler that never removes the state
  pub guarded_write-IsReported :
      (ds : List Diagnostic) (next : Action (StateChange M)) (failed : World → Bool) (env : Env)
      (w : World)
      → IsReported
          (failed (record w { diags = w.diags ++ ds }))
          false
          (next env (record w { diags = w.diags ++ ds }))
      → IsReported (fails_behind ds failed w) false (guarded ds next env w)
  guarded_write-IsReported ds next failed env w h = elim (Bool-cases (has_error (w.diags ++ ds))) [
    | inl e ↦ rw e (rw e refl, refl, refl)
    | inr e ↦ rw e h
  ]
