-- ===== src/Provider/DataSource/Refreshes.antt =====
-- A data source that reads into the model of its resource, against the refresh of the resource.
use terraform_provider_uapi.Base.{String, List, [], ◌∷◌, ◌++◌}
use terraform_provider_uapi.Base.Text.{◌<>◌}
use terraform_provider_uapi.Framework.{error}
use terraform_provider_uapi.Platform.{Platform}
use terraform_provider_uapi.Client.World.{World}
use terraform_provider_uapi.Client.Request.{Client}
use terraform_provider_uapi.Provider.Crud
use terraform_provider_uapi.Provider.Crud.{StateChange, kept, removed, stored}
use terraform_provider_uapi.Provider.Singleton
use terraform_provider_uapi.Provider.Singleton.{Singleton}

-- What becomes of a refresh in a data source: an object that is gone is an error.
abbrev pub reported_missing : {M : Type 0} → String → StateChange M × World → StateChange M × World
reported_missing label (removed, w) =
    (kept, record w { diags = w.diags ++ error (label <> " not found") "not found" ∷ [] })
reported_missing label (change, w) = (change, w)
