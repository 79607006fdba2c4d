-- ===== src/Provider/Delta/Bodies.antt =====
-- The bodies that the puts build have distinct keys and flat values.
use terraform_provider_uapi.Base.{
  ℤ, refl, String, Bool, ◌==◌, eq_iff, arith, inl, inr, Bool-cases, ◌∙◌,
}
use terraform_provider_uapi.Any.{Any, bool, int64, str, strs, Object, end, entry, lookup, insert}
use terraform_provider_uapi.Any.Laws.{lookup-insert}
use terraform_provider_uapi.Framework.{Attr, known, unknown, null as no_value, ListAttr}
use terraform_provider_uapi.Platform.{Platform}
use terraform_provider_uapi.Provider.Print.{IsFlat}
use terraform_provider_uapi.Provider.Values.{
  Body, empty_body, put_str, put_bool, put_int64, put_list,
}
use terraform_provider_uapi.Provider.Delta.Laws.{Distinct, AllFlat}

abbrev pub IsPatchable : Body → Type 0
IsPatchable b = Distinct b.0 × AllFlat b.0

insert-Distinct : (k : String) (v : Any) (m : Object) → Distinct m → Distinct (insert k v m)
unfolding insert lookup
insert-Distinct k v end d = (refl, tt)
insert-Distinct k v (entry j w m) d = elim (Bool-cases (j == k)) [
  | inl e ↦ let same = (eq_iff j k).0 e in rw e (rw (← same) d.0, d.1)
  | inr e ↦
      rw e
        (lookup-insert k j v m ∙ ground (arith, eq_iff k j, eq_iff j k), insert-Distinct k v m d.1)
]

insert-AllFlat : (k : String) (v : Any) (m : Object) → IsFlat v → AllFlat m → AllFlat (insert k v m)
unfolding insert
insert-AllFlat k v end s h = (s, tt)
insert-AllFlat k v (entry j w m) s h = elim (Bool-cases (j == k)) [
  | inl e ↦ rw e (s, h.1)
  | inr e ↦ rw e (h.0, insert-AllFlat k v m s h.1)
]

pub put_str-IsPatchable :
    (k : String) (v : Attr String) (b : Body) → IsPatchable b → IsPatchable (put_str k v b)
unfolding put_str
put_str-IsPatchable k (known s) b h =
    (insert-Distinct k _ b.0 h.0, insert-AllFlat k (str s) b.0 tt h.1)
put_str-IsPatchable k no_value b h = h
put_str-IsPatchable k unknown b h = h

pub put_bool-IsPatchable :
    (k : String) (v : Attr Bool) (b : Body) → IsPatchable b → IsPatchable (put_bool k v b)
unfolding put_bool
put_bool-IsPatchable k (known s) b h =
    (insert-Distinct k _ b.0 h.0, insert-AllFlat k (bool s) b.0 tt h.1)
put_bool-IsPatchable k no_value b h = h
put_bool-IsPatchable k unknown b h = h

pub put_int64-IsPatchable :
    (k : String) (v : Attr ℤ) (b : Body) → IsPatchable b → IsPatchable (put_int64 k v b)
unfolding put_int64
put_int64-IsPatchable k (known s) b h =
    (insert-Distinct k _ b.0 h.0, insert-AllFlat k (int64 s) b.0 tt h.1)
put_int64-IsPatchable k no_value b h = h
put_int64-IsPatchable k unknown b h = h

module _ (p : Platform) where
  pub put_list-IsPatchable :
      (k : String) (v : ListAttr) (b : Body) → IsPatchable b → IsPatchable (put_list p k v b)
  unfolding put_list
  put_list-IsPatchable k (known s) b h =
      (insert-Distinct k _ b.0 h.0, insert-AllFlat k (strs (p.elements_as s).1) b.0 tt h.1)
  put_list-IsPatchable k no_value b h = h
  put_list-IsPatchable k unknown b h = h

pub empty_body-IsPatchable : IsPatchable empty_body
empty_body-IsPatchable = (tt, tt)

pub ruleset patchable = (
  put_str-IsPatchable, put_bool-IsPatchable, put_int64-IsPatchable, put_list-IsPatchable,
  empty_body-IsPatchable,
)
