-- ===== src/Provider/Delta.antt =====
-- helpers.go: mergeDelta, beside the merge patch of RFC 7396 that a PATCH applies.
pub mod Bodies
pub mod Laws
use terraform_provider_uapi.Base.{String, Option, none, some, ◌==◌, if◌then◌else◌, is_some}
use terraform_provider_uapi.Any.{Any, null, obj, Object, end, entry, lookup, insert, remove, at}
use terraform_provider_uapi.Platform.{Platform}
use terraform_provider_uapi.Provider.Print.{deep_equal}

module _ (p : Platform) where
  -- The loop over the planned body. Keys are distinct, so its order does not matter.
  changed_keys : Object → Object → Object
  changed_keys end prior = end
  changed_keys (entry k v planned) prior =
      let rest = changed_keys planned prior in
      if deep_equal p v (at prior k) then rest else insert k v rest

  -- The loop over the prior body.
  removed_keys : Object → Object → Object → Object
  removed_keys planned end out = out
  removed_keys planned (entry k v prior) out =
      let rest = removed_keys planned prior out in
      if is_some (lookup k planned) then rest else insert k null rest

  unfoldable pub merge_delta : Object → Object → Object
  unfolding changed_keys removed_keys
  merge_delta planned prior = removed_keys planned prior (changed_keys planned prior)

abbrev members : Any → Object
members (obj m) = m
members _ = end

-- RFC 7396: null removes a key, an object is merged into what stands there, all else replaces it.
unfoldable mutual
  pub merge_patch : Object → Object → Object
  merge_patch end target = target
  merge_patch (entry k v patch) target = merge_entry v k (merge_patch patch target)

  pub merge_entry : Any → String → Object → Object
  merge_entry null k target = remove k target
  merge_entry (obj patch) k target =
      insert k (obj (merge_patch patch (members (at target k)))) target
  merge_entry v k target = insert k v target
