-- ===== src/Provider/Configure/Missing.antt =====
-- When Configure makes a client.
use terraform_provider_uapi.Base.{
  String, Bool, true, false, ◌≡◌, ◌&&◌, ◌||◌, not, is_some, List, [], ◌∷◌, ◌++◌, arith, inl, inr,
  Bool-cases, refl,
}
use terraform_provider_uapi.Base.Text.{is_empty}
use terraform_provider_uapi.Framework.{
  Attr, known, null, unknown, Diagnostic, has_error, value_string,
}
use terraform_provider_uapi.Platform.{Platform}
use terraform_provider_uapi.Client.Request.Answers.{has_error-append}
use terraform_provider_uapi.Provider.Configure.{
  first_of, first_non_empty, ProviderModel, configure, report, endpoint_missing, token_missing,
}

-- Some text is not empty.
abbrev pub any_given : List String → Bool
any_given [] = false
any_given (f ∷ fs) = not (is_empty f) || any_given fs

first_of_lem : (fs : List String) → is_empty (first_of fs) ≡ not (any_given fs)
first_of_lem [] = ground arith
first_of_lem (f ∷ fs) = elim (Bool-cases (is_empty f)) [
  | inl e ↦ rw e (first_of_lem fs)
  | inr e ↦ rw (e, e)
]

first_non_empty_lem :
    (configured : Attr String) (fs : List String)
    → is_empty (first_non_empty configured fs) ≡ not (any_given (value_string configured ∷ fs))
unfolding first_non_empty
first_non_empty_lem null fs = first_of_lem fs
first_non_empty_lem unknown fs = first_of_lem fs
first_non_empty_lem (known s) fs = elim (Bool-cases (is_empty s)) [
  | inl e ↦ rw e (first_of_lem fs)
  | inr e ↦ rw (e, e)
]

report-has_error :
    (v : String) (d : Diagnostic) → has_error (d ∷ []) ≡ true → has_error (report v d) ≡ is_empty v
unfolding has_error
report-has_error v d h = ground arith

module _ (p : Platform) (getenv : String → String) (version : String) where
  configure-is_some :
      (cfg : ProviderModel) (ds : List Diagnostic)
      → is_some (configure p getenv version cfg ds).0 ≡ (
          not (has_error ds)
          && (not (
                is_empty
                  (first_non_empty cfg.endpoint (getenv "UAPI_ENDPOINT" ∷ getenv "UAPI_BASE" ∷ [])))
              && not (is_empty (first_non_empty cfg.token (getenv "UAPI_TOKEN" ∷ [])))))
  unfolding configure has_error
  configure-is_some cfg ds =
      let e = first_non_empty cfg.endpoint (getenv "UAPI_ENDPOINT" ∷ getenv "UAPI_BASE" ∷ []) in
      let t = first_non_empty cfg.token (getenv "UAPI_TOKEN" ∷ []) in
      ground (
        arith,
        has_error-append (ds ++ report e endpoint_missing) (report t token_missing),
        has_error-append ds (report e endpoint_missing),
        report-has_error e endpoint_missing refl,
        report-has_error t token_missing refl,
      )

  -- Configure makes a client exactly if the configuration decodes without an error, the endpoint is
  -- given by the configuration, UAPI_ENDPOINT or UAPI_BASE, and the token by the configuration or
  -- UAPI_TOKEN; an empty text, a null and an unknown value give nothing.
  pub configure_lem :
      (cfg : ProviderModel) (ds : List Diagnostic)
      → is_some (configure p getenv version cfg ds).0 ≡ (
          not (has_error ds)
          && (any_given
                (value_string cfg.endpoint ∷ getenv "UAPI_ENDPOINT" ∷ getenv "UAPI_BASE" ∷ [])
              && any_given (value_string cfg.token ∷ getenv "UAPI_TOKEN" ∷ [])))
  configure_lem cfg ds =
      rw
        (
          configure-is_some cfg ds,
          first_non_empty_lem cfg.endpoint _,
          first_non_empty_lem cfg.token _,
        )
        (ground arith)
