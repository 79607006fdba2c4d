-- ===== src/Gen/Render/RoundTrip.antt =====
-- The statements of body() and read() undo each other through a server that keeps what it is sent.
use terraform_provider_uapi.Base.{◌≡◌, refl, Bool, List, [], ◌∷◌, All}
use terraform_provider_uapi.Any.{Object, lookup}
use terraform_provider_uapi.Platform.{Platform, Lawful}
use terraform_provider_uapi.Provider.Values.{Body, empty_body}
use terraform_provider_uapi.Gen.Spec.{Field}
use terraform_provider_uapi.Gen.Render.{Values, read_stmt, body_stmts, read_stmts}
use terraform_provider_uapi.Gen.Render.Fits.{IsDistinct, Fits, Keeps, expected}
use terraform_provider_uapi.Gen.Render.Sends.{Sends, Lacks, body_stmts-Sends}
use terraform_provider_uapi.Gen.Render.Reads.{Reads, read_stmts-Reads, read_kind-own}

module _ (p : Platform) where
  reads_lem :
      (fs : List Field) (m : Values) (body obj : Object)
      → Lawful p
      → All (Fits p m) fs
      → All (Sends p m body) fs
      → All (Keeps p body obj) fs
      → All (Reads p obj (λ f. expected p f.kind f.name obj (m f.name)) m) fs
  unfolding read_stmt
  reads_lem [] m body obj l t s k = tt
  reads_lem (f ∷ fs) m body obj l t s k = (
    read_kind-own p f.kind f.go_type f.name obj (m f.name) l t.0 (λ e. rw (← s.0 e) (k.0 e)),
    reads_lem fs m body obj l t.1 s.1 k.1,
  )

  pub empty-Lacks : (fs : List Field) → All (Lacks p empty_body.0) fs
  unfolding lookup
  empty-Lacks [] = tt
  empty-Lacks (f ∷ fs) = (refl, empty-Lacks fs)

  -- What read() takes back of what body() sends, behind a body that holds none of the fields yet.
  pub read_stmts-after :
      (create : Bool) (fs : List Field) (m : Values) (b : Body) (obj : Object)
      → Lawful p
      → IsDistinct p fs
      → All (Lacks p b.0) fs
      → All (Fits p m) fs
      → All (Keeps p (body_stmts p create fs m b).0 obj) fs
      → All
          (λ (f : Field).
            (read_stmts p fs obj m).0 f.name ≡ expected p f.kind f.name obj (m f.name))
          fs
        × ((read_stmts p fs obj m).1 ≡ [])
  read_stmts-after create fs m b obj l d fresh t k =
      let sends = body_stmts-Sends p create fs m b d t fresh in
      read_stmts-Reads p obj (λ f. expected p f.kind f.name obj (m f.name)) fs m d
        (reads_lem fs m (body_stmts p create fs m b).0 obj l t sends k)

  -- What body() sends, read() takes back: if the names of the fields differ, each field holds a
  -- value of its type that is known or null (a list, of known texts), none is an integer-or-string
  -- union, and the answer holds each stored field as it was sent (a number as the float64 that converts to it, null for
  -- an empty list, and null or nothing for what was not sent), then read() leaves every attribute
  -- as it was but the computed ones, which become what the answer says, and reports nothing. The
  -- framework is assumed to convert lists of known texts without a diagnostic.
  pub read_stmts-body_stmts :
      (create : Bool) (fs : List Field) (m : Values) (obj : Object)
      → Lawful p
      → IsDistinct p fs
      → All (Fits p m) fs
      → All (Keeps p (body_stmts p create fs m empty_body).0 obj) fs
      → All
          (λ (f : Field).
            (read_stmts p fs obj m).0 f.name ≡ expected p f.kind f.name obj (m f.name))
          fs
        × ((read_stmts p fs obj m).1 ≡ [])
  read_stmts-body_stmts create fs m obj l d t k =
      read_stmts-after create fs m empty_body obj l d (empty-Lacks fs) t k
