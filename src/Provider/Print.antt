-- ===== src/Provider/Print.antt =====
-- fmt's %v of the values that the provider prints, and reflect.DeepEqual on them.
use Prim.Native.Nat.{Ordering}
use Prim.Native.String.{compare}
use terraform_provider_uapi.Base.{
  ℕ, zero, suc, ◌≡◌, refl, ap, String, Bool, true, false, not, ◌&&◌, none, some, List, [], ◌∷◌,
  ◌==◌, eq_iff, eq_refl, int_eq, int_eq_iff, nat_eq, arith,
}
use terraform_provider_uapi.Base.Text.{◌<>◌, join}
use terraform_provider_uapi.Base.Decimal.{itoa}
use terraform_provider_uapi.Any.{
  Any, null, bool, float64, int64, int, str, strs, arr, obj, Anys, nil, cons, Object, end, entry,
  lookup,
}
use terraform_provider_uapi.Platform.{Platform}

-- Inserts a pair where its key belongs: %v prints a map in the order of its keys.
place : String → String → List (String × String) → List (String × String)
place k v [] = (k, v) ∷ []
place k v ((j, w) ∷ rest) = elim (compare k j) [
  | Ordering.gt ↦ (j, w) ∷ place k v rest
  | _ ↦ (k, v) ∷ (j, w) ∷ rest
]

pairs : List (String × String) → List String
pairs [] = []
pairs ((k, v) ∷ rest) = (k <> ":" <> v) ∷ pairs rest

strs_eq : List String → List String → Bool
strs_eq [] [] = true
strs_eq (x ∷ xs) (y ∷ ys) = (x == y) && strs_eq xs ys
strs_eq _ _ = false

size : Object → ℕ
size end = zero
size (entry k v m) = suc (size m)

-- What a request body holds besides nested maps: DeepEqual is equality there.
abbrev pub IsFlat : Any → Type 0
IsFlat (bool b) = Unit
IsFlat (int64 n) = Unit
IsFlat (int n) = Unit
IsFlat (str s) = Unit
IsFlat (strs xs) = Unit
IsFlat _ = ⊥

strs_eq_sound : (xs ys : List String) → strs_eq xs ys ≡ true → xs ≡ ys
unfolding strs_eq
strs_eq_sound [] [] h = refl
strs_eq_sound (x ∷ xs) (y ∷ ys) h = ground (arith, eq_iff x y, strs_eq_sound xs ys)
strs_eq_sound _ _ h = cc h

strs_eq_refl : (xs : List String) → strs_eq xs xs ≡ true
unfolding strs_eq
strs_eq_refl [] = refl
strs_eq_refl (x ∷ xs) = rw (eq_refl x) (strs_eq_refl xs)

module _ (p : Platform) where
  unfoldable mutual
    unfolding place pairs

    -- fmt.Sprintf("%v", v)
    pub sprint : Any → String
    sprint null = "<nil>"
    sprint (bool true) = "true"
    sprint (bool false) = "false"
    sprint (float64 n) = p.format_float n
    sprint (int64 n) = itoa n
    sprint (int n) = itoa n
    sprint (str s) = s
    sprint (strs xs) = "[" <> (join " " xs <> "]")
    sprint (arr vs) = "[" <> (join " " (sprint_all vs) <> "]")
    sprint (obj m) = "map[" <> (join " " (pairs (sprint_entries m)) <> "]")

    pub sprint_all : Anys → List String
    sprint_all nil = []
    sprint_all (cons v vs) = sprint v ∷ sprint_all vs

    pub sprint_entries : Object → List (String × String)
    sprint_entries end = []
    sprint_entries (entry k v m) = place k (sprint v) (sprint_entries m)

  unfoldable mutual
    unfolding strs_eq size

    -- reflect.DeepEqual: values of two Go types are never equal
    pub deep_equal : Any → Any → Bool
    deep_equal null null = true
    deep_equal (bool true) (bool b) = b
    deep_equal (bool false) (bool b) = not b
    deep_equal (float64 m) (float64 n) = p.float_eq m n
    deep_equal (int64 m) (int64 n) = int_eq m n
    deep_equal (int m) (int n) = int_eq m n
    deep_equal (str s) (str t) = s == t
    deep_equal (strs xs) (strs ys) = strs_eq xs ys
    deep_equal (arr vs) (arr ws) = deep_equal_all vs ws
    deep_equal (obj m) (obj n) = nat_eq (size m) (size n) && deep_equal_entries m n
    deep_equal _ _ = false

    pub deep_equal_all : Anys → Anys → Bool
    deep_equal_all nil nil = true
    deep_equal_all (cons v vs) (cons w ws) = deep_equal v w && deep_equal_all vs ws
    deep_equal_all _ _ = false

    pub deep_equal_entries : Object → Object → Bool
    deep_equal_entries end n = true
    deep_equal_entries (entry k v m) n =
        (elim (lookup k n) [ none ↦ false | some w ↦ deep_equal v w ]) && deep_equal_entries m n

  pub deep_equal_sound : (v w : Any) → IsFlat v → deep_equal v w ≡ true → v ≡ w
  unfolding deep_equal
  deep_equal_sound (bool true) (bool b) f h = ground arith
  deep_equal_sound (bool false) (bool b) f h = ground arith
  deep_equal_sound (int64 m) (int64 n) f h = ap int64 ((int_eq_iff m n).0 h)
  deep_equal_sound (int m) (int n) f h = ap int ((int_eq_iff m n).0 h)
  deep_equal_sound (str s) (str t) f h = ap str ((eq_iff s t).0 h)
  deep_equal_sound (strs xs) (strs ys) f h = ap strs (strs_eq_sound xs ys h)
  deep_equal_sound null w f h = absurd f
  deep_equal_sound (float64 n) w f h = absurd f
  deep_equal_sound (arr vs) w f h = absurd f
  deep_equal_sound (obj m) w f h = absurd f
  deep_equal_sound _ _ f h = cc h

  pub deep_equal_refl : (v : Any) → IsFlat v → deep_equal v v ≡ true
  unfolding deep_equal
  deep_equal_refl (bool true) f = refl
  deep_equal_refl (bool false) f = refl
  deep_equal_refl (int64 m) f = (int_eq_iff m m).1 refl
  deep_equal_refl (int m) f = (int_eq_iff m m).1 refl
  deep_equal_refl (str s) f = eq_refl s
  deep_equal_refl (strs xs) f = strs_eq_refl xs
  deep_equal_refl null f = absurd f
  deep_equal_refl (float64 n) f = absurd f
  deep_equal_refl (arr vs) f = absurd f
  deep_equal_refl (obj m) f = absurd f
