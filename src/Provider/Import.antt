-- ===== src/Provider/Import.antt =====
-- helpers.go: resolveImportID and importByID, the import with adoption of an unmanaged section.
pub mod Adoption
use terraform_provider_uapi.Base.{
  String, Bool, true, false, ◌&&◌, not, Option, none, some, [], ◌∷◌, ◌==◌, if◌then◌else◌,
}
use terraform_provider_uapi.Base.Text.{◌<>◌, is_empty}
use terraform_provider_uapi.Any.{Any, bool, str, Object, lookup}
use terraform_provider_uapi.Framework.{Diagnostic, warning}
use terraform_provider_uapi.Platform.{Platform}
use terraform_provider_uapi.Client.Error.{Error, other, wrapped, error_text}
use terraform_provider_uapi.Client.World.{post, Action, pure, ◌>>=◌, ◌>>◌, append, add_error}
use terraform_provider_uapi.Client.Request.{Client}
use terraform_provider_uapi.Client.Objects.{
  Fetched, failure, missing, found, Written, written, get_object, write_object,
}

-- The results of resolveImportID: an error, or the id and whether the section was adopted.
pub data Resolved : Type 0 where
  unresolved : Error → Resolved
  resolved : String → Bool → Resolved

-- `managed, ok := obj["managed"].(bool); ok && !managed`
abbrev is_false : Option Any → Bool
is_false (some (bool false)) = true
is_false _ = false

abbrev pub is_unmanaged : Object → Bool
is_unmanaged obj = is_false (lookup "managed" obj)

-- The id of an object, if it is a text; "" otherwise.
abbrev text_or_empty : Option Any → String
text_or_empty (some (str s)) = s
text_or_empty _ = ""

abbrev pub object_id : Object → String
object_id obj = text_or_empty (lookup "id" obj)

-- the end of resolveImportID behind the adoption
unfoldable pub adopted : Written → Resolved
adopted (Written.failure err) = unresolved (wrapped "adopting unmanaged section" err)
adopted (written obj etag) =
    if is_empty (object_id obj)
    then unresolved (other "adopt response missing id")
    else resolved (object_id obj) true

module _ (p : Platform) where
  -- resolveImportID behind its GET
  unfoldable pub resolve_fetched : Client → String → String → Fetched → Action Resolved
  unfolding adopted
  resolve_fetched c collection id (Fetched.failure err) = pure (unresolved err)
  resolve_fetched c collection id missing =
      pure (unresolved (other ("no resource found at /" <> collection <> "/" <> id)))
  resolve_fetched c collection id (found obj etag) =
      if is_unmanaged obj
      then (do
        r ← write_object p c false post ("/" <> collection <> "/" <> id <> "/adopt") none ""
        pure (adopted r))
      else if is_empty (object_id obj)
      then pure (resolved id false)
      else pure (resolved (object_id obj) false)

  unfoldable pub resolve_import_id : Client → String → String → Action Resolved
  resolve_import_id c collection id = do
    r ← get_object p c false ("/" <> collection <> "/" <> id)
    resolve_fetched c collection id r

  abbrev pub renamed : String → String → String → Diagnostic
  renamed label requested id = warning "Adopted and renamed an anonymous section" (
      label
      <> " "
      <> p.quote requested
      <> " was an unmanaged anonymous section, so it was adopted and renamed to "
      <> p.quote id
      <> ". This import mutated the router; the resource id is now "
      <> p.quote id
      <> ".")

  -- importByID behind resolveImportID: the id that the state gets, if any
  unfoldable pub import_resolved : String → String → Resolved → Action (Option String)
  import_resolved label requested (unresolved err) = do
    add_error ("Error importing " <> label) (error_text err)
    pure none
  import_resolved label requested (resolved id was_adopted) =
      if was_adopted && not (id == requested)
      then (do append (renamed label requested id ∷ []); pure (some id))
      else pure (some id)

  unfoldable pub import_by_id : Client → String → String → String → Action (Option String)
  import_by_id c collection label requested = do
    r ← resolve_import_id c collection requested
    import_resolved label requested r
