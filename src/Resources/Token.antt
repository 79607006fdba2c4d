-- ===== src/Resources/Token.antt =====
-- internal/provider/token_ephemeral.go: a bearer token that lives for one operation.
pub mod Revoked
use terraform_provider_uapi.Base.{
  ℤ, String, Bool, true, false, Option, none, some, List, [], ◌∷◌, ◌++◌, if◌then◌else◌,
}
use terraform_provider_uapi.Base.Text.{◌<>◌, is_empty}
use terraform_provider_uapi.Framework.{Attr, ListAttr, Diagnostic, error, has_error, value_string}
use terraform_provider_uapi.Platform.{Platform, Called, ok}
use terraform_provider_uapi.Client.Error.{Error, error_text, is_conflict}
use terraform_provider_uapi.Client.World.{
  post, Action, pure, ◌>>=◌, ◌>>◌, append, add_error, has_errors,
}
use terraform_provider_uapi.Client.Request.{Client}
use terraform_provider_uapi.Client.Objects.{Written, written, write_object, delete_object}
use terraform_provider_uapi.Provider.Values.{
  Body, empty_body, ◌▹◌, put_str, put_int64, put_list, str_val,
}
use terraform_provider_uapi.Provider.Crud.{Decoded}

pub record Model : Type 0 where
  pub name : Attr String
  pub scopes : ListAttr
  pub expires_in_seconds : Attr ℤ
  pub allowed_cidrs : ListAttr
  pub rate : Attr ℤ
  pub burst : Attr ℤ
  pub id : Attr String
  pub token : Attr String

-- What Open leaves: the result, and the private data under "token_id".
pub record Opened : Type 0 where
  pub result : Option Model
  pub token_id : Option String

abbrev pub nothing : Opened
nothing = record { result = none; token_id = none }

-- Set and SetKey keep a value unless they report an error.
abbrev kept_unless {ℓ} : {A : Type ℓ} → List Diagnostic → A → Option A
kept_unless ds a = if has_error ds then none else some a

module _ (p : Platform) where
  -- the body that Open sends
  unfoldable pub body : Model → Body
  body m =
      empty_body
      ▹ put_str "name" m.name
      ▹ put_list p "scopes" m.scopes
      ▹ put_int64 "expires_in_seconds" m.expires_in_seconds
      ▹ put_list p "allowed_cidrs" m.allowed_cidrs
      ▹ put_int64 "rate" m.rate
      ▹ put_int64 "burst" m.burst

  -- the diagnostic of a failed POST
  unfoldable pub mint_error : Model → Error → Diagnostic
  mint_error m err =
      if is_conflict err
      then error "Error minting token" (
          error_text err
          <> "\n\nA token named "
          <> p.quote (value_string m.name)
          <> " already exists. An interrupted create can leave it behind, without the provider ever seeing its bearer. Revoke it with DELETE /tokens/"
          <> value_string m.name
          <> ", or choose a different name. The provider leaves it in place, because the conflict can also be someone else's token.")
      else error "Error minting token" (error_text err)

  module _ (set_result : Model → List Diagnostic) (set_key : String → List Diagnostic) where
    -- Open behind its POST
    unfoldable pub minted : Model → Written → Action Opened
    minted m (Written.failure err) = do append (mint_error m err ∷ []); pure nothing
    minted m (written obj etag) = do
      let n = record m { id = str_val p obj "name"; token = str_val p obj "bearer" }
      let raw = p.marshal_text (value_string n.id)
      append (set_result n)
      append (set_key raw)
      pure (record {
        result = kept_unless (set_result n) n;
        token_id = kept_unless (set_key raw) raw;
      })

    unfoldable pub open_token : Client → Decoded Model → Action Opened
    open_token c cfg = do
      append cfg.1
      failed ← has_errors
      if failed then pure nothing else (do
        append (body cfg.0).1
        failed ← has_errors
        if failed then pure nothing else (do
          r ← write_object p c false post "/tokens" (some (body cfg.0).0) ""
          minted cfg.0 r))

  abbrev show_revoke_error : Option Error → Action (Unit {0})
  show_revoke_error none = pure tt
  show_revoke_error (some err) = add_error "Error revoking token" (error_text err)

  -- Close behind the decoding of the private data
  unfoldable pub revoke : Client → String → Action (Unit {0})
  revoke c id =
      if is_empty id
      then pure tt
      else (do r ← delete_object p c false ("/tokens/" <> id) ""; show_revoke_error r)

  -- Close, from the private data under "token_id" with the diagnostics of its reading
  unfoldable pub close_token : Client → String × List Diagnostic → Action (Unit {0})
  close_token c key = do
    append key.1
    if is_empty key.0
        then pure tt
        else elim (p.unmarshal_text key.0) [ Called.failed t ↦ pure tt | ok id ↦ revoke c id ]
