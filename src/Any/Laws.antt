-- ===== src/Any/Laws.antt =====
-- The laws of map reads and writes.
use terraform_provider_uapi.Base.{◌≡◌, refl, String, none, some, arith, ◌==◌, eq_iff, if◌then◌else◌}
use terraform_provider_uapi.Any.{Any, Object, end, entry, lookup, insert, remove}

pub lookup-insert :
    (k j : String) (v : Any) (m : Object)
    → lookup j (insert k v m) ≡ (if k == j then some v else lookup j m)
unfolding lookup insert
lookup-insert k j v end = refl
lookup-insert k j v (entry i w m) =
    ground (arith, eq_iff k j, eq_iff i k, eq_iff i j, lookup-insert k j v m)

pub lookup-remove :
    (k j : String) (m : Object) → lookup j (remove k m) ≡ (if k == j then none else lookup j m)
unfolding lookup remove
lookup-remove k j end = ground arith
lookup-remove k j (entry i w m) =
    ground (arith, eq_iff k j, eq_iff i k, eq_iff i j, lookup-remove k j m)
