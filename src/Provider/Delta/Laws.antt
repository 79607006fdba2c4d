-- ===== src/Provider/Delta/Laws.antt =====
-- The delta of an update turns the prior body into the planned one.
use terraform_provider_uapi.Base.{
  ◌≡◌, refl, inl, inr, String, Option, none, some, ◌==◌, eq_iff, if◌then◌else◌, is_some, arith,
  Bool-cases,
}
use terraform_provider_uapi.Any.{
  Any, null, bool, float64, int64, int, str, strs, arr, obj, Object, end, entry, lookup, insert, at,
  or_null,
}
use terraform_provider_uapi.Any.Laws.{lookup-insert, lookup-remove}
use terraform_provider_uapi.Platform.{Platform}
use terraform_provider_uapi.Provider.Print.{deep_equal, IsFlat, deep_equal_sound, deep_equal_refl}
use terraform_provider_uapi.Provider.Delta.{
  changed_keys, removed_keys, merge_delta, merge_patch, merge_entry,
}

-- No key stands twice, as in a Go map.
abbrev pub Distinct : Object → Type 0
Distinct end = Unit
Distinct (entry k v m) = (lookup k m ≡ none) × Distinct m

-- Every value is flat: no null, no nested map and nothing that only a decoder makes.
abbrev pub AllFlat : Object → Type 0
AllFlat end = Unit
AllFlat (entry k v m) = IsFlat v × AllFlat m

-- A patch entry that replaces or removes, and does not merge.
abbrev IsShallow : Any → Type 0
IsShallow null = Unit
IsShallow v = IsFlat v

abbrev AllShallow : Object → Type 0
AllShallow end = Unit
AllShallow (entry k v m) = IsShallow v × AllShallow m

IsShallow-of_flat : (v : Any) → IsFlat v → IsShallow v
IsShallow-of_flat null f = tt
IsShallow-of_flat (bool b) f = f
IsShallow-of_flat _ f = f

insert-AllShallow :
    (k : String) (v : Any) (m : Object) → IsShallow v → AllShallow m → AllShallow (insert k v m)
unfolding insert
insert-AllShallow k v end s h = (s, tt)
insert-AllShallow k v (entry j w m) s h = elim (Bool-cases (j == k)) [
  | inl e ↦ rw e (s, h.1)
  | inr e ↦ rw e (h.0, insert-AllShallow k v m s h.1)
]

IsFlat-of_lookup : (k : String) (m : Object) (v : Any) → AllFlat m → lookup k m ≡ some v → IsFlat v
unfolding lookup
IsFlat-of_lookup k end v f h = cc h
IsFlat-of_lookup k (entry j w m) v f h = elim (Bool-cases (j == k)) [
  | inl e ↦ let same : w ≡ v = ground arith in rw (← same) f.0
  | inr e ↦ IsFlat-of_lookup k m v f.1 (ground arith)
]

module _ (p : Platform) where
  abbrev changed_value : Option Any → Any → Option Any
  changed_value none old = none
  changed_value (some v) old = if deep_equal p v old then none else some v

  lookup-changed_keys :
      (j : String) (planned prior : Object)
      → Distinct planned
      → lookup j (changed_keys p planned prior) ≡ changed_value (lookup j planned) (at prior j)
  unfolding changed_keys lookup
  lookup-changed_keys j end prior d = refl
  lookup-changed_keys j (entry k v planned) prior (fresh, d) = ground (
    arith,
    eq_iff k j,
    lookup-changed_keys j planned prior d,
    lookup-insert k j v (changed_keys p planned prior),
  )

  abbrev removed_value : Option Any → Option Any → Option Any → Option Any
  removed_value none old out = out
  removed_value (some v) (some w) out = out
  removed_value (some v) none out = some null

  lookup-removed_keys :
      (j : String) (planned prior out : Object)
      → lookup j (removed_keys p planned prior out)
        ≡ removed_value (lookup j prior) (lookup j planned) (lookup j out)
  unfolding removed_keys lookup
  lookup-removed_keys j planned end out = refl
  lookup-removed_keys j planned (entry k v prior) out = ground (
    arith,
    eq_iff k j,
    lookup-removed_keys j planned prior out,
    lookup-insert k j null (removed_keys p planned prior out),
  )

  -- The delta holds a changed key with its planned value, a removed key with null, and no other.
  pub lookup-merge_delta :
      (j : String) (planned prior : Object)
      → Distinct planned
      → lookup j (merge_delta p planned prior)
        ≡ removed_value
            (lookup j prior)
            (lookup j planned)
            (changed_value (lookup j planned) (at prior j))
  unfolding merge_delta
  lookup-merge_delta j planned prior d =
      rw (lookup-removed_keys, lookup-changed_keys j planned prior d)

  changed_keys-AllShallow :
      (planned prior : Object) → AllFlat planned → AllShallow (changed_keys p planned prior)
  unfolding changed_keys
  changed_keys-AllShallow end prior f = tt
  changed_keys-AllShallow (entry k v planned) prior f =
      elim (Bool-cases (deep_equal p v (at prior k))) [
        | inl e ↦ rw e (changed_keys-AllShallow planned prior f.1)
        | inr e ↦ rw e (
            insert-AllShallow k v _ (IsShallow-of_flat v f.0)
              (changed_keys-AllShallow planned prior f.1))
      ]

  removed_keys-AllShallow :
      (planned prior out : Object) → AllShallow out → AllShallow (removed_keys p planned prior out)
  unfolding removed_keys
  removed_keys-AllShallow planned end out f = f
  removed_keys-AllShallow planned (entry k v prior) out f =
      elim (Bool-cases (is_some (lookup k planned))) [
        | inl e ↦ rw e (removed_keys-AllShallow planned prior out f)
        | inr e ↦ rw e (insert-AllShallow k null _ tt (removed_keys-AllShallow planned prior out f))
      ]

abbrev patched : Option Any → Option Any → Option Any
patched none old = old
patched (some null) old = none
patched (some v) old = some v

lookup-merge_entry :
    (v : Any) (k j : String) (target : Object)
    → IsShallow v
    → lookup j (merge_entry v k target)
      ≡ (if k == j then patched (some v) (lookup j target) else lookup j target)
unfolding merge_patch
lookup-merge_entry null k j target s = lookup-remove k j target
lookup-merge_entry (bool b) k j target s = lookup-insert k j (bool b) target
lookup-merge_entry (int64 n) k j target s = lookup-insert k j (int64 n) target
lookup-merge_entry (int n) k j target s = lookup-insert k j (int n) target
lookup-merge_entry (str t) k j target s = lookup-insert k j (str t) target
lookup-merge_entry (strs t) k j target s = lookup-insert k j (strs t) target
lookup-merge_entry (float64 n) k j target s = absurd s
lookup-merge_entry (arr n) k j target s = absurd s
lookup-merge_entry (obj n) k j target s = absurd s

lookup-merge_patch :
    (j : String) (patch target : Object)
    → AllShallow patch
    → lookup j (merge_patch patch target) ≡ patched (lookup j patch) (lookup j target)
unfolding merge_patch lookup
lookup-merge_patch j end target s = refl
lookup-merge_patch j (entry k v patch) target s =
    rw (lookup-merge_entry v k j (merge_patch patch target) s.0)
      (ground (arith, eq_iff k j, lookup-merge_patch j patch target s.1))

patched_flat : (v : Any) (old : Option Any) → IsFlat v → patched (some v) old ≡ some v
patched_flat null old f = absurd f
patched_flat (bool b) old f = refl
patched_flat _ old f = refl

some_of_or_null : (o : Option Any) (v : Any) → IsFlat v → v ≡ or_null o → o ≡ some v
some_of_or_null none v f e = absurd (rw e at f)
some_of_or_null (some w) v f e = cc

module _ (p : Platform) where
  planned_of_patched :
      (planned prior : Option Any)
      → ((v : Any) → planned ≡ some v → IsFlat v)
      → patched (removed_value p prior planned (changed_value p planned (or_null prior))) prior
        ≡ planned
  planned_of_patched none none f = refl
  planned_of_patched none (some w) f = refl
  planned_of_patched (some v) prior f = elim (Bool-cases (deep_equal p v (or_null prior))) [
    | inl e ↦
        let same =
          some_of_or_null prior v (f v refl) (deep_equal_sound p v (or_null prior) (f v refl) e) in
        let reflexive = deep_equal_refl p v (f v refl) in rw (same, reflexive)
    | inr e ↦ rw e (kept prior)
  ]
    where
      kept : (o : Option Any) → patched (removed_value p o (some v) (some v)) o ≡ some v
      kept none = patched_flat v none (f v refl)
      kept (some w) = patched_flat v (some w) (f v refl)

  -- Applied to the prior body as RFC 7396 says, the delta gives the planned body, key by key, if
  -- the planned body has distinct keys and flat values.
  pub merge_patch-merge_delta :
      (planned prior : Object) (key : String)
      → Distinct planned
      → AllFlat planned
      → lookup key (merge_patch (merge_delta p planned prior) prior) ≡ lookup key planned
  merge_patch-merge_delta planned prior key d f =
      rw
        (lookup-merge_patch key (merge_delta p planned prior) prior (
          unfold merge_delta in
          removed_keys-AllShallow p planned prior _ (changed_keys-AllShallow p planned prior f)))
        (rw (lookup-merge_delta p key planned prior d) (
          unfold at in
          planned_of_patched (lookup key planned) (lookup key prior)
            (λ v. IsFlat-of_lookup key planned v f)))

  foreign_of_removed :
      (old : Option Any)
      → patched (removed_value p none none (changed_value p none (or_null none))) old ≡ old
  foreign_of_removed old = refl

  -- Applied to whatever document the router holds, the delta leaves each key as it is that neither
  -- body holds, if the planned body has distinct keys and flat values.
  pub merge_patch-foreign :
      (planned prior doc : Object) (key : String)
      → Distinct planned
      → AllFlat planned
      → lookup key planned ≡ none
      → lookup key prior ≡ none
      → lookup key (merge_patch (merge_delta p planned prior) doc) ≡ lookup key doc
  merge_patch-foreign planned prior doc key d f no_plan no_prior = rw (
    lookup-merge_patch key (merge_delta p planned prior) doc (
        unfold merge_delta in
        removed_keys-AllShallow p planned prior _ (changed_keys-AllShallow p planned prior f)),
    lookup-merge_delta p key planned prior d,
    no_plan,
    no_prior,
  )
