-- ===== src/Tests/Token.antt =====
-- The token at work.
use terraform_provider_uapi.Base.{List, [], ◌∷◌}
use terraform_provider_uapi.Framework.{known, null, Diagnostic}
use terraform_provider_uapi.Client.World.{answered, Env}
use terraform_provider_uapi.Resources.Token.{Model}
use terraform_provider_uapi.Tests.Demo.{response, always}

abbrev wanted : Model
wanted = record {
  name = known "ci";
  scopes = known (known "network:read" ∷ []);
  expires_in_seconds = null;
  allowed_cidrs = null;
  rate = null;
  burst = null;
  id = null;
  token = null;
}

abbrev got : Model
got = record wanted { id = known "ci"; token = known "b1" }

abbrev minting : Env
minting = always (answered (response 201 "token" ""))

abbrev none_of {ℓ} : {A : Type ℓ} → A → List Diagnostic
none_of a = []
