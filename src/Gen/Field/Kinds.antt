-- ===== src/Gen/Field/Kinds.antt =====
-- The attributes of a generated resource: one for each property of the response, of a kind that
-- the provider can serve.
use terraform_provider_uapi.Base.{
  ◌≡◌, refl, ap, String, Bool, true, false, ◌&&◌, ◌||◌, not, Option, none, some, is_some, List, [],
  ◌∷◌, ◌++◌, map, contains, All, All-append, if◌then◌else◌, arith, Bool-cases, inl, inr, ◌==◌, ◌∙◌,
  eq_iff,
}
use mathlib.Core.List.{map-append}
use terraform_provider_uapi.Gen.Made.{made, >>=-eq-made}
use terraform_provider_uapi.Gen.Names.{sort_strings}
use terraform_provider_uapi.Gen.Spec.{
  SpecProp, find, type_of, int_str_union, go_type, GoType, string, int64, bool, list, Kind,
  required, optcomp, writeonly, createonly, computedbool, computedstring, intstr, Field, Descriptor,
}
use terraform_provider_uapi.Gen.Field.{
  ResModel, is_singleton, is_clear, is_skipped, effective, build_field, union_field, plain_field,
  classify, build_fields, build_resource, kept_field,
}

abbrev pub is_computed : Kind → Bool
is_computed computedbool = true
is_computed computedstring = true
is_computed _ = false

-- The Go type of a property of a type in the document: what is no integer, flag or list is a text.
abbrev pub fits_type : GoType → String → Bool
fits_type int64 t = t == "integer"
fits_type bool t = t == "boolean"
fits_type list t = t == "array"
fits_type string t = not (t == "integer" || (t == "boolean" || t == "array"))

abbrev pub is_secret : Kind → Bool
is_secret writeonly = true
is_secret _ = false

abbrev pub is_mandatory : Kind → Bool
is_mandatory required = true
is_mandatory _ = false

abbrev pub is_optional : Kind → Bool
is_optional optcomp = true
is_optional _ = false

-- The kind of a property by its flags. What is not sent is computed. Of the others, write-only goes
-- before required, and that before cleared by omission.
abbrev pub HasKind : (sent written mandatory clears : Bool) → Kind → Type 0
HasKind sent written mandatory clears k =
    (is_computed k ≡ not sent)
    × (is_secret k ≡ (sent && written))
    × (is_mandatory k ≡ (sent && (not written && mandatory)))
    × (is_clear k ≡ (sent && (not written && (not mandatory && clears))))
    × (is_optional k ≡ (sent && (not written && (not mandatory && not clears))))

-- What a field is of a property that is create-only, an integer-or-string union, or neither.
abbrev pub IsKeptAs : (create_only union : Bool) → Bool → SpecProp → Bool → Field → Type 0
IsKeptAs true union sent p mandatory f = (f.kind ≡ createonly) × (f.go_type ≡ string)
IsKeptAs false true sent p mandatory f =
    (f.kind ≡ intstr) × (f.go_type ≡ string) × (sent ≡ true) × (p.write_only ≡ false)
IsKeptAs false false sent p mandatory f =
    (fits_type f.go_type (type_of p) ≡ true)
    × HasKind sent p.write_only mandatory p.clear_on_omit f.kind

-- What a made field is of its property: its name is the property's, it has the type and the kind that
-- the property says, where one that the request lacks is not sent, and a field that is cleared by
-- omission stands on no singleton.
abbrev pub IsSound :
    Descriptor → List (String × SpecProp) → List String → String → SpecProp → Field → Type 0
IsSound d writable required_names n p f =
    (f.name ≡ n)
    × IsKeptAs (contains d.create_only n) (int_str_union p)
        (is_some (find n writable) && not p.read_only) p
        (contains required_names n && not (n == "match")) f
    × ((is_clear f.kind && is_singleton d.kind) ≡ false)

-- A description does not matter to the kind.
described-IsKeptAs :
    (create_only union sent : Bool) (p : SpecProp) (mandatory : Bool) (f : Field) (t : String)
    → IsKeptAs create_only union sent p mandatory f
    → IsKeptAs create_only union sent p mandatory (record f { desc = t })
described-IsKeptAs true union sent p mandatory f t h = h
described-IsKeptAs false true sent p mandatory f t h = h
described-IsKeptAs false false sent p mandatory f t h = h

module _ (common : List (String × String)) (d : Descriptor) (writable : List (String × SpecProp))
    (required_names : List String) where
  type-effective :
      (n : String) (p : SpecProp)
      → type_of (effective common d writable required_names n p) ≡ type_of p
  unfolding type_of
  type-effective n p = ground arith

  union-effective :
      (n : String) (p : SpecProp)
      → int_str_union (effective common d writable required_names n p) ≡ int_str_union p
  unfolding int_str_union
  union-effective n p = ground arith

  text-fits : (t : String) → (t == "string") ≡ true → fits_type string t ≡ true
  text-fits t h = rw ((eq_iff t "string").0 h)

  union_field-IsKept :
      (n : String) (p : SpecProp) (f : Field)
      → union_field common d writable required_names n p ≡ made f
      → (f.name ≡ n)
        × (f.kind ≡ intstr)
        × (f.go_type ≡ string)
        × (p.read_only ≡ false)
        × (p.write_only ≡ false)
  unfolding union_field
  union_field-IsKept n p f h = ground arith

  plain_field-IsKept :
      (n : String) (p : SpecProp) (f : Field)
      → plain_field common d writable required_names n p ≡ made f
      → (f.name ≡ n)
        × (fits_type f.go_type (type_of p) ≡ true)
        × HasKind
            (not p.read_only)
            p.write_only
            (contains required_names n && not (n == "match"))
            p.clear_on_omit
            f.kind
        × ((is_clear f.kind && is_singleton d.kind) ≡ false)
  unfolding plain_field classify go_type
  plain_field-IsKept n p f h = ground (arith, text-fits (type_of p))

  build_field-IsSound :
      (n : String) (p : SpecProp) (f : Field)
      → build_field common d writable required_names n
          (effective common d writable required_names n p)
        ≡ made f
      → IsSound d writable required_names n p f
  unfolding build_field
  build_field-IsSound n p f h =
      let p' = effective common d writable required_names n p in
      elim (Bool-cases (contains d.create_only n)) [
        | inl e ↦ let same = rw e at h in rw e (ground arith)
        | inr e ↦ elim (Bool-cases (int_str_union p)) [
          | inl u ↦
              let u' : int_str_union p' ≡ true = union-effective n p ∙ u in
              rw (e, u) (ground (arith, union_field-IsKept n p' f (rw (e, u') at h)))
          | inr u ↦
              let u' : int_str_union p' ≡ false = union-effective n p ∙ u in
              rw (e, u)
                (ground (arith, plain_field-IsKept n p' f (rw (e, u') at h), type-effective n p))
        ]
      ]

  -- A made field belongs to a property of the response.
  abbrev pub Belongs : List (String × SpecProp) → Field → Type 0
  Belongs props f =
      (n : String) × (p : SpecProp) × (find n props ≡ some p)
      × IsSound d writable required_names n p f

  pub described-Belongs :
      (props : List (String × SpecProp)) (f : Field) (t : String)
      → Belongs props f
      → Belongs props (record f { desc = t })
  described-Belongs props f t (n, q, found, (name, kept, clear)) =
      (n, q, found, (name, described-IsKeptAs _ _ _ q _ f t kept, clear))

  abbrev pub has_attribute : String → Option SpecProp → Bool
  has_attribute n none = false
  has_attribute n (some p) = not (is_skipped n p)

  -- the names that get an attribute, in order
  abbrev pub attributes : List (String × SpecProp) → List String → List String
  attributes props [] = []
  attributes props (n ∷ ns) =
      let rest = attributes props ns in if has_attribute n (find n props) then n ∷ rest else rest

  kept_field-Belongs :
      (props : List (String × SpecProp)) (n : String) (o : Option SpecProp) (fs : List Field)
      → find n props ≡ o
      → kept_field common d writable required_names n o ≡ made fs
      → All (Belongs props) fs
        × (map (λ (f : Field). f.name) fs ≡ (if has_attribute n o then n ∷ [] else []))
  kept_field-Belongs props n none fs e h = let same : fs ≡ [] = ground arith in rw same (tt, refl)
  kept_field-Belongs props n (some p) fs e h = elim (Bool-cases (is_skipped n p)) [
    | inl s ↦ let same : fs ≡ [] = ground (arith, rw s at h) in rw (same, s) (tt, refl)
    | inr s ↦
        let (f, hf, h1) =
          >>=-eq-made
            (build_field common d writable required_names n
              (effective common d writable required_names n p))
            _ (rw s at h) in
        let sound = build_field-IsSound n p f hf in
        let same : fs ≡ f ∷ [] = ground arith in
        rw (same, s) (((n, p, e, sound), tt), ap (λ (x : String). x ∷ []) sound.0)
  ]

  build_fields-Belongs :
      (props : List (String × SpecProp)) (ns : List String) (fs : List Field)
      → build_fields common d writable required_names props ns ≡ made fs
      → All (Belongs props) fs × (map (λ (f : Field). f.name) fs ≡ attributes props ns)
  unfolding build_fields
  build_fields-Belongs props [] fs h = let same : fs ≡ [] = ground arith in rw same (tt, refl)
  build_fields-Belongs props (n ∷ ns) fs h =
      let (gs, hg, h1) =
        >>=-eq-made (kept_field common d writable required_names n (find n props)) _ h in
      let (rest, hr, h2) =
        >>=-eq-made (build_fields common d writable required_names props ns) _ h1 in
      let (first, names) = kept_field-Belongs props n (find n props) gs refl hg in
      let (others, more) = build_fields-Belongs props ns rest hr in
      let same : fs ≡ gs ++ rest = ground arith in
      rw same (
        All-append (Belongs props) gs rest first others,
        rw (map-append, names, more) (ground arith),
      )

  -- A resource that the generator makes has one attribute for each property of the response that is
  -- no id, managed flag, runtime block or object, in the order of their names, each of the type and
  -- the kind that its property says.
  pub build_resource_lem :
      (props : List (String × SpecProp)) (r : ResModel)
      → build_resource common d writable required_names props ≡ made r
      → All (Belongs props) r.fields
        × (map (λ (f : Field). f.name) r.fields
            ≡ attributes props (sort_strings (map (λ (e : String × SpecProp). e.0) props)))
  unfolding build_resource
  build_resource_lem props r h =
      let (fs, hf, h1) = >>=-eq-made (build_fields common d writable required_names props _) _ h in
      let same : r.fields ≡ fs = ground arith in simp same (build_fields-Belongs props _ fs hf)
