-- ===== src/Provider/FieldScope/Excluded.antt =====
-- The fields that a value excludes, as a test on the rules.
use terraform_provider_uapi.Base.{
  ◌≡◌, refl, String, Bool, ◌&&◌, ◌||◌, List, [], ◌∷◌, ◌++◌, any, contains, arith, Bool-cases, inl,
  inr,
}
use terraform_provider_uapi.Provider.FieldScope.{FieldScope, ScopeRule, excluded, excluded_by}

pub contains-append :
    (xs ys : List String) (v : String) → contains (xs ++ ys) v ≡ (contains xs v || contains ys v)
contains-append [] ys v = refl
contains-append (x ∷ xs) ys v = ground (arith, contains-append xs ys v)

-- A rule keeps a field from a value.
abbrev pub bars : String → String → ScopeRule → Bool
bars v f r = contains r.values v && contains r.fields f

contains-excluded_by :
    (rules : List ScopeRule) (v f : String)
    → contains (excluded_by rules v) f ≡ any (bars v f) rules
unfolding excluded_by
contains-excluded_by [] v f = refl
contains-excluded_by (r ∷ rs) v f = elim (Bool-cases (contains r.values v)) [
  | inl e ↦ rw (e, contains-append r.fields (excluded_by rs v) f, contains-excluded_by rs v f)
  | inr e ↦ rw (e, contains-excluded_by rs v f)
]

pub contains-excluded :
    (s : FieldScope) (v f : String) → contains (excluded s v) f ≡ any (bars v f) s.rules
unfolding excluded
contains-excluded s v f = contains-excluded_by s.rules v f
