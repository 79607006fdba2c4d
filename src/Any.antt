-- ===== src/Any.antt =====
-- Go values of type `any` as the provider builds and reads them, and `map[string]any`.
-- A decoded JSON document holds null, bool, float64, string, []any and map[string]any; a request
-- body that the provider builds also holds int64, int and []string, which are other Go types.
-- A map is an association list in which the first entry of a key counts.
pub mod Laws
use terraform_provider_uapi.Base.{
  ℕ, ◌≡◌, String, Bool, true, false, ◌&&◌, ◌||◌, Option, none, some, List, [], ◌∷◌, ◌==◌,
  if◌then◌else◌, ℤ, int_eq, nat_eq,
}

mutual
  pub data Any : Type 0 where
    null : Any
    bool : Bool → Any
    -- a float64, by its bit pattern
    float64 : ℕ → Any
    int64 : ℤ → Any
    int : ℤ → Any
    str : String → Any
    -- []string
    strs : List String → Any
    -- []any
    arr : Anys → Any
    -- map[string]any
    obj : Object → Any

  pub data Anys : Type 0 where
    nil : Anys
    cons : Any → Anys → Anys

  pub data Object : Type 0 where
    end : Object
    entry : String → Any → Object → Object

-- m[key], with the report whether the key is there
unfoldable pub lookup : String → Object → Option Any
lookup k end = none
lookup k (entry j v m) = if j == k then some v else lookup k m

-- m[key] = v
unfoldable pub insert : String → Any → Object → Object
insert k v end = entry k v end
insert k v (entry j w m) = if j == k then entry k v m else entry j w (insert k v m)

-- delete(m, key)
unfoldable pub remove : String → Object → Object
remove k end = end
remove k (entry j v m) = let rest = remove k m in if j == k then rest else entry j v rest

-- m[key] of a missing key is nil.
abbrev pub or_null : Option Any → Any
or_null none = null
or_null (some v) = v

unfoldable pub at : Object → String → Any
unfolding lookup
at m k = or_null (lookup k m)

abbrev pub elems : Anys → List Any
elems nil = []
elems (cons v vs) = v ∷ elems vs

abbrev pub of_elems : List Any → Anys
of_elems [] = nil
of_elems (v ∷ vs) = cons v (of_elems vs)
