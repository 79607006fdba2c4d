-- ===== src/Gen/Written/Field.antt =====
-- A field by what its statements depend on, and a property of the document by what its field
-- depends on.
use terraform_provider_uapi.Base.{String, false, List, [], ◌∷◌, map, if◌then◌else◌}
use terraform_provider_uapi.Any.{Any, Anys, nil, cons, str, arr}
use terraform_provider_uapi.Gen.Names.{pascal}
use terraform_provider_uapi.Gen.Spec.{GoType, Kind, Field, SpecProp, Descriptor, desc}

abbrev pub field : String → GoType → Kind → Field
field name type kind = record {
  name = name;
  go_name = name;
  go_type = type;
  kind = kind;
  desc = "";
  deprecated = false;
}

-- The fields with their Go names and with the descriptions of a descriptor.
abbrev pub labelled : List (String × String) → Descriptor → List Field → List Field
labelled common d =
    map (λ (f : Field). record f { go_name = pascal f.name; desc = desc common d f.name })

-- A property of a type.
abbrev pub prop : Any → SpecProp
prop t = record {
  type = t;
  write_only = false;
  read_only = false;
  description = "";
  deprecated = false;
  clear_on_omit = false;
  enum = [];
}

abbrev members : List String → Anys
members [] = nil
members (t ∷ ts) = cons (str t) (members ts)

-- a union type
abbrev pub union : List String → Any
union ts = arr (members ts)

-- the properties that are not read-only
abbrev pub writable : List (String × SpecProp) → List (String × SpecProp)
writable [] = []
writable ((n, q) ∷ ps) = let rest = writable ps in if q.read_only then rest else (n, q) ∷ rest
