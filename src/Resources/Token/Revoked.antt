-- ===== src/Resources/Token/Revoked.antt =====
-- What Close revokes is what Open minted.
use terraform_provider_uapi.Base.{String, ◌≡◌, some, List}
use terraform_provider_uapi.Framework.{Diagnostic, value_string}
use terraform_provider_uapi.Platform.{Platform}
use terraform_provider_uapi.Client.World.{World}
use terraform_provider_uapi.Client.Request.{Client}
use terraform_provider_uapi.Resources.Token.{Model, Opened}

module _ (p : Platform) (set_result : Model → List Diagnostic) (set_key : String → List Diagnostic)
    (c : Client) where
  -- The private data, if there is any, is the encoded id of the result, if there is one.
  abbrev Agrees : Opened → Type 0
  Agrees o =
      (m : Model) (raw : String)
      → o.result ≡ some m
      → o.token_id ≡ some raw
      → raw ≡ p.marshal_text (value_string m.id)
