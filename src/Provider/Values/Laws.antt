-- ===== src/Provider/Values/Laws.antt =====
-- What a put writes, and that a read gives it back.
use terraform_provider_uapi.Base.{ℤ, ◌≡◌, String, Bool, Option, some, if◌then◌else◌, ◌==◌, arith}
use terraform_provider_uapi.Any.{Any, bool, int64, str, strs, lookup}
use terraform_provider_uapi.Any.Laws.{lookup-insert}
use terraform_provider_uapi.Framework.{Attr, known, unknown, null as no_value, ListAttr}
use terraform_provider_uapi.Platform.{Platform}
use terraform_provider_uapi.Provider.Values.{
  Body, put_str, put_bool, put_int64, put_list, set_value,
}

-- What a put of `v` leaves at its key, over what was there.
abbrev pub over {ℓ} : {A : Type ℓ} → (A → Any) → Attr A → Option Any → Option Any
over of (known a) old = some (of a)
over of _ old = old

lookup-set_value {ℓ} :
    {A : Type ℓ} (of : A → Any) (k j : String) (v : Attr A) (b : Body)
    → lookup j (set_value of k v b).0 ≡ (if k == j then over of v (lookup j b.0) else lookup j b.0)
lookup-set_value of k j (known a) b = rw lookup-insert
lookup-set_value of k j no_value b = ground arith
lookup-set_value of k j unknown b = ground arith

pub lookup-put_str :
    (k j : String) (v : Attr String) (b : Body)
    → lookup j (put_str k v b).0 ≡ (if k == j then over str v (lookup j b.0) else lookup j b.0)
unfolding put_str
lookup-put_str k j v b = lookup-set_value str k j v b

pub lookup-put_bool :
    (k j : String) (v : Attr Bool) (b : Body)
    → lookup j (put_bool k v b).0 ≡ (if k == j then over bool v (lookup j b.0) else lookup j b.0)
unfolding put_bool
lookup-put_bool k j v b = lookup-set_value bool k j v b

pub lookup-put_int64 :
    (k j : String) (v : Attr ℤ) (b : Body)
    → lookup j (put_int64 k v b).0 ≡ (if k == j then over int64 v (lookup j b.0) else lookup j b.0)
unfolding put_int64
lookup-put_int64 k j v b = lookup-set_value int64 k j v b

module _ (p : Platform) where
  abbrev pub sent_list : ListAttr → Option Any → Option Any
  sent_list (known xs) old = some (strs (p.elements_as xs).1)
  sent_list _ old = old

  pub lookup-put_list :
      (k j : String) (v : ListAttr) (b : Body)
      → lookup j (put_list p k v b).0
        ≡ (if k == j then sent_list v (lookup j b.0) else lookup j b.0)
  unfolding put_list
  lookup-put_list k j (known xs) b = rw lookup-insert
  lookup-put_list k j no_value b = ground arith
  lookup-put_list k j unknown b = ground arith

pub ruleset put_laws = (lookup-put_str, lookup-put_bool, lookup-put_int64, lookup-put_list)
