-- ===== src/Provider/WriteError.antt =====
-- helpers.go: writeErr, the diagnostic of a failed write.
use terraform_provider_uapi.Base.{String, if◌then◌else◌}
use terraform_provider_uapi.Base.Text.{◌<>◌}
use terraform_provider_uapi.Framework.{Diagnostic, error}
use terraform_provider_uapi.Client.Error.{
  Error, error_text, is_precondition_failed, is_field_conflict,
}

unfoldable pub write_err : String → String → Error → Diagnostic
write_err action label err =
    if is_precondition_failed err
    then error (label <> " changed outside Terraform") (
        "The "
        <> label
        <> " was modified on the router since Terraform last read it (If-Match / ETag mismatch). "
        <> "Run a refresh (or re-plan) to pick up the current state, then retry.\n\n"
        <> error_text err)
    else if is_field_conflict err
    then error ("Error " <> action <> " " <> label) (
        "A uci section with this id or name already exists on the router. To manage it, "
        <> "`terraform import` it (an unmanaged named section is adopted in place, "
        <> "keeping its name), or choose a different `id`.\n\n"
        <> error_text err)
    else error ("Error " <> action <> " " <> label) (error_text err)
