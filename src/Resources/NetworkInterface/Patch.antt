-- ===== src/Resources/NetworkInterface/Patch.antt =====
-- The merge PATCH that an update of a network interface sends where its proto is one that the
-- provider does not model, and stays.
use terraform_provider_uapi.Base.{◌≡◌, String, false, none}
use terraform_provider_uapi.Any.{Object, lookup}
use terraform_provider_uapi.Platform.{Platform}
use terraform_provider_uapi.Provider.Delta.{merge_delta, merge_patch}
use terraform_provider_uapi.Provider.Delta.Laws.{merge_patch-foreign}
use terraform_provider_uapi.Provider.Delta.Bodies.{IsPatchable, patchable}
use terraform_provider_uapi.Resources.NetworkInterface.{Model, body}

module _ (p : Platform) where
  body-IsPatchable : (m : Model) → IsPatchable (body p m false)
  unfolding body
  body-IsPatchable m = search patchable depth 40

  -- Applied to whatever document the router holds, the delta of two bodies of an interface leaves
  -- each option as it is that neither body names.
  pub network_interface_patch-foreign :
      (plan state : Model) (doc : Object) (key : String)
      → lookup key (body p plan false).0 ≡ none
      → lookup key (body p state false).0 ≡ none
      → lookup key (merge_patch (merge_delta p (body p plan false).0 (body p state false).0) doc)
        ≡ lookup key doc
  network_interface_patch-foreign plan state doc key =
      let (d, f) = body-IsPatchable plan in merge_patch-foreign p _ _ doc key d f
