-- ===== src/Gen/Render/Fits.antt =====
-- The values that the statements of body() and read() pass on, and the answer of a server that
-- keeps what it is sent.
use terraform_provider_uapi.Base.{
  ℕ, ℤ, ◌≡◌, refl, String, Bool, true, false, Option, none, some, List, [], ◌∷◌, ◌==◌, map,
  contains, eq_iff, ◌⊎◌, not, ◌&&◌, arith,
}
use terraform_provider_uapi.Any.{
  Any, null, bool, float64, int64, str, strs, Object, lookup, or_null,
}
use terraform_provider_uapi.Framework.{Attr, known, null as no_value}
use terraform_provider_uapi.Platform.{Platform}
use terraform_provider_uapi.Provider.Values.{bool_val_default, str_val}
use terraform_provider_uapi.Provider.Values.Lists.{stored}
use terraform_provider_uapi.Provider.FieldScope.{AttrValue, string, boolean, number, list}
use terraform_provider_uapi.Gen.Spec.{
  GoType, Kind, required, optcomp, optclear, writeonly, createonly, computedbool, computedstring,
  intstr, Field,
}
use terraform_provider_uapi.Gen.Render.{Values}

abbrev pub or_none {ℓ} : {A : Type ℓ} → Option A → Attr A
or_none none = no_value
or_none (some a) = known a

-- A value of a Go type that is known or null, with known texts in a list.
abbrev pub HasType : GoType → AttrValue → Type 0
HasType GoType.string v = (o : Option String) × (v ≡ string (or_none o))
HasType GoType.bool v = (o : Option Bool) × (v ≡ boolean (or_none o))
HasType GoType.int64 v = (o : Option ℤ) × (v ≡ number (or_none o))
HasType GoType.list v =
    (v ≡ list no_value) ⊎ ((xs : List String) × (v ≡ list (known (map known xs))))

-- An attribute that read() takes from what body() sent.
abbrev pub is_stored : Kind → Bool
is_stored required = true
is_stored optcomp = true
is_stored optclear = true
is_stored _ = false

-- A value that a field of a kind and type can hold. An integer-or-string union has none here.
abbrev pub FitsKind : Kind → GoType → AttrValue → Type 0
FitsKind intstr t v = ⊥
FitsKind computedstring t v = t ≡ GoType.string
FitsKind computedbool t v = Unit {0}
FitsKind writeonly t v = Unit {0}
FitsKind createonly t v = Unit {0}
FitsKind _ t v = HasType t v

pub FitsKind-HasType :
    (k : Kind) (t : GoType) (v : AttrValue) → is_stored k ≡ true → FitsKind k t v → HasType t v
FitsKind-HasType required t v s h = h
FitsKind-HasType optcomp t v s h = h
FitsKind-HasType optclear t v s h = h
FitsKind-HasType _ t v s h = cc

pub same_name : (n : String) → (n == n) ≡ true
same_name n = (eq_iff n n).1 refl

module _ (p : Platform) where
  -- What a body holds for a value.
  abbrev pub sent : AttrValue → Option Any
  sent (string (known s)) = some (str s)
  sent (boolean (known b)) = some (bool b)
  sent (number (known n)) = some (int64 n)
  sent (list (known xs)) = some (strs (p.elements_as xs).1)
  sent _ = none

  -- The names of the fields differ.
  abbrev pub IsDistinct : List Field → Type 0
  IsDistinct [] = Unit {0}
  IsDistinct (f ∷ fs) = (contains (map (λ (g : Field). g.name) fs) f.name ≡ false) × IsDistinct fs

  abbrev pub is_distinct : List Field → Bool
  is_distinct [] = true
  is_distinct (f ∷ fs) = not (contains (map (λ (g : Field). g.name) fs) f.name) && is_distinct fs

  pub is_distinct-IsDistinct : (fs : List Field) → is_distinct fs ≡ true → IsDistinct fs
  is_distinct-IsDistinct [] h = tt
  is_distinct-IsDistinct (f ∷ fs) h = (ground arith, is_distinct-IsDistinct fs (ground arith))

  -- A field whose value body() can send and read() can take back.
  abbrev pub Fits : Values → Field → Type 0
  Fits m f = FitsKind f.kind f.go_type (m f.name)

  -- What a JSON document gives back for a value of a request: a number as the float64 whose
  -- conversion is the number, and null for an empty list.
  abbrev pub Echoes : Any → Any → Type 0
  Echoes (int64 n) w = (bits : ℕ) × (w ≡ float64 bits) × (p.float_to_int64 bits ≡ n)
  Echoes (strs xs) w = w ≡ stored xs
  Echoes a w = w ≡ a

  abbrev pub Answers : Option Any → Option Any → Type 0
  Answers none w = or_null w ≡ null
  Answers (some a) w = (x : Any) × (w ≡ some x) × Echoes a x

  -- A server's answer to a body: each stored field as it was sent, and null or absent where nothing
  -- was sent.
  abbrev pub Keeps : Object → Object → Field → Type 0
  Keeps body obj f = is_stored f.kind ≡ true → Answers (lookup f.name body) (lookup f.name obj)

  -- What read() makes of an attribute: what the answer says of a computed one, and the value as it
  -- was of any other.
  abbrev pub expected : Kind → String → Object → AttrValue → AttrValue
  expected computedbool n obj v = boolean (bool_val_default obj n)
  expected computedstring n obj v = string (str_val p obj n)
  expected _ n obj v = v
