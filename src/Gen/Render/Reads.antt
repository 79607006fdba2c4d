-- ===== src/Gen/Render/Reads.antt =====
-- What the statements of read() take, field by field.
use terraform_provider_uapi.Base.{
  ◌≡◌, refl, ◌∙◌, ap, String, true, false, Option, none, some, List, [], ◌∷◌, ◌++◌, ◌==◌, map,
  contains, All, if◌then◌else◌, arith, inl, inr, eq_iff, ◌⊎◌,
}
use terraform_provider_uapi.Any.{Any, null, Object, lookup, or_null}
use terraform_provider_uapi.Framework.{null as no_value, Diagnostic}
use terraform_provider_uapi.Platform.{Platform, Lawful}
use terraform_provider_uapi.Provider.Values.{
  bool_val, str_val, int64_val, list_val_keep_empty, list_val,
}
use terraform_provider_uapi.Provider.Values.Lists.{list_val_keep_empty-stored}
use terraform_provider_uapi.Provider.FieldScope.{AttrValue}
use terraform_provider_uapi.Gen.Spec.{
  GoType, Kind, required, optcomp, optclear, writeonly, createonly, computedbool, computedstring,
  intstr, Field,
}
use terraform_provider_uapi.Gen.Render.{Values, read_typed, read_kind, read_stmt, read_stmts}
use terraform_provider_uapi.Gen.Render.Fits.{
  HasType, is_stored, FitsKind, same_name, sent, IsDistinct, Answers, expected,
}

module _ (p : Platform) where
  or_null-cases : (o : Option Any) → or_null o ≡ null → (o ≡ none) ⊎ (o ≡ some null)
  or_null-cases none h = inl refl
  or_null-cases (some a) h = inr (ap some h)

  -- A read of a key that is absent or null finds no value, of any type.
  read_typed-nothing :
      (n : String) (obj : Object)
      → or_null (lookup n obj) ≡ null
      → (str_val p obj n ≡ no_value)
        × (bool_val obj n ≡ no_value)
        × (int64_val p obj n ≡ no_value)
        × (list_val_keep_empty p obj n no_value ≡ (no_value, []))
  unfolding str_val bool_val int64_val list_val_keep_empty list_val
  read_typed-nothing n obj h = elim (or_null-cases (lookup n obj) h) [
    | inl e ↦ rw e (refl, refl, refl, refl)
    | inr e ↦ rw e (refl, refl, refl, refl)
  ]

  read_typed-own :
      (t : GoType) (n : String) (obj : Object) (v : AttrValue)
      → Lawful p
      → HasType t v
      → Answers p (sent p v) (lookup n obj)
      → read_typed p t n obj v ≡ (v, [])
  unfolding str_val bool_val int64_val
  read_typed-own GoType.string n obj v l (none, e) h =
      rw (e, (read_typed-nothing n obj (rw e at h)).0)
  read_typed-own GoType.string n obj v l (some a, e) h =
      let (w, at_n, echo) = rw e at h in rw (e, at_n, echo)
  read_typed-own GoType.bool n obj v l (none, e) h =
      rw (e, (read_typed-nothing n obj (rw e at h)).1)
  read_typed-own GoType.bool n obj v l (some a, e) h =
      let (w, at_n, echo) = rw e at h in rw (e, at_n, echo)
  read_typed-own GoType.int64 n obj v l (none, e) h =
      rw (e, (read_typed-nothing n obj (rw e at h)).2)
  read_typed-own GoType.int64 n obj v l (some a, e) h =
      let (w, at_n, (bits, echo, back)) = rw e at h in rw (e, at_n, echo, back)
  read_typed-own GoType.list n obj v l (inl e) h = rw (e, (read_typed-nothing n obj (rw e at h)).3)
  read_typed-own GoType.list n obj v l (inr (xs, e)) h =
      let (w, at_n, echo) = rw (e, l.elements_as_known xs) at h in
      rw (e, list_val_keep_empty-stored p xs obj n l (at_n ∙ ap some echo))

  pub read_kind-own :
      (k : Kind) (t : GoType) (n : String) (obj : Object) (v : AttrValue)
      → Lawful p
      → FitsKind k t v
      → (is_stored k ≡ true → Answers p (sent p v) (lookup n obj))
      → read_kind p k t n obj v ≡ (expected p k n obj v, [])
  read_kind-own intstr t n obj v l fits h = absurd fits
  read_kind-own computedstring t n obj v l fits h = rw fits
  read_kind-own computedbool t n obj v l fits h = refl
  read_kind-own writeonly t n obj v l fits h = refl
  read_kind-own createonly t n obj v l fits h = refl
  read_kind-own required t n obj v l fits h = read_typed-own t n obj v l fits (h refl)
  read_kind-own optcomp t n obj v l fits h = read_typed-own t n obj v l fits (h refl)
  read_kind-own optclear t n obj v l fits h = read_typed-own t n obj v l fits (h refl)

  module _ (obj : Object) (want : Field → AttrValue) where
    abbrev pub Reads : Values → Field → Type 0
    Reads m f = read_stmt p f obj (m f.name) ≡ (want f, [])

    -- the model after one statement of read()
    abbrev next_model : Field → Values → Values
    next_model f m n = if f.name == n then (read_stmt p f obj (m f.name)).0 else m n

    read_stmts-other :
        (fs : List Field) (j : String) (m : Values)
        → contains (map (λ (f : Field). f.name) fs) j ≡ false
        → (read_stmts p fs obj m).0 j ≡ m j
    unfolding read_stmts
    read_stmts-other [] j m h = refl
    read_stmts-other (f ∷ fs) j m h =
        ground (arith, read_stmts-other fs j (next_model f m) (ground arith))

    Reads-next :
        (f : Field) (fs : List Field) (m : Values)
        → contains (map (λ (g : Field). g.name) fs) f.name ≡ false
        → All (Reads m) fs
        → All (Reads (next_model f m)) fs
    Reads-next f [] m d r = tt
    Reads-next f (g ∷ gs) m d r =
        let apart : (f.name == g.name) ≡ false =
          ground (arith, eq_iff f.name g.name, eq_iff g.name f.name) in
        (rw apart r.0, Reads-next f gs m (ground arith) r.1)

    pub read_stmts-Reads :
        (fs : List Field) (m : Values)
        → IsDistinct p fs
        → All (Reads m) fs
        → All (λ (f : Field). (read_stmts p fs obj m).0 f.name ≡ want f) fs
          × ((read_stmts p fs obj m).1 ≡ [])
    unfolding read_stmts
    read_stmts-Reads [] m d r = (tt, refl)
    read_stmts-Reads (f ∷ fs) m d r =
        let (rest, clean) = read_stmts-Reads fs (next_model f m) d.1 (Reads-next f fs m d.0 r.1) in
        (
          (read_stmts-other fs f.name (next_model f m) d.0 ∙ rw (same_name f.name, r.0), rest),
          ap
                (λ (r1 : AttrValue × List Diagnostic).
                  r1.1 ++ (read_stmts p fs obj (next_model f m)).1)
                r.0
              ∙ clean,
        )
