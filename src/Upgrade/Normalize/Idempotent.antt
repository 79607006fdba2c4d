-- ===== src/Upgrade/Normalize/Idempotent.antt =====
-- Running a normalizer twice changes nothing.
use terraform_provider_uapi.Base.{◌≡◌, refl, String, none, some, List, [], ◌∷◌, Option, eq_refl}
use terraform_provider_uapi.Base.Text.{fields}
use terraform_provider_uapi.Any.{Any, null, bool, str, arr, Anys, nil, cons, Object, lookup, insert}
use terraform_provider_uapi.Any.Laws.{lookup-insert, lookup-remove}
use terraform_provider_uapi.Upgrade.Normalize.{
  first_of_list, collapse, words_of_string, split, set_words,
}

lookup-set_words :
    (ws : List String) (key : String) (m : Object)
    → split (lookup key (set_words ws key m)) key (set_words ws key m) ≡ set_words ws key m
lookup-set_words [] key m = rw (lookup-remove, eq_refl key)
lookup-set_words (x ∷ xs) key m = rw (lookup-insert, eq_refl key)

split-split :
    (o : Option Any) (key : String) (m : Object)
    → lookup key m ≡ o
    → split (lookup key (split o key m)) key (split o key m) ≡ split o key m
split-split (some (str s)) key m e = lookup-set_words (fields s) key m
split-split none key m e = rw e
split-split (some null) key m e = rw e
split-split (some (bool b)) key m e = rw e
split-split (some v) key m e = rw e

-- Splitting a saved value into words a second time changes nothing, whatever the document holds.
pub words_of_string_idem :
    (m : Object) (key : String)
    → words_of_string (words_of_string m key) key ≡ words_of_string m key
unfolding words_of_string
words_of_string_idem m key = split-split (lookup key m) key m refl

-- The value is no list whose first entry is a list again, which no saved state holds.
abbrev pub IsFlatList : Option Any → Type 0
IsFlatList (some (arr (cons (arr vs) ws))) = ⊥
IsFlatList _ = Unit

collapse-insert :
    (v : Any) (vs : Anys) (key : String) (m : Object)
    → IsFlatList (some (arr (cons v vs)))
    → collapse (some v) key (insert key v m) ≡ (insert key v m, 0)
collapse-insert (arr ws) vs key m f = absurd f
collapse-insert null vs key m f = refl
collapse-insert _ vs key m f = refl

collapse-collapse :
    (o : Option Any) (key : String) (m : Object)
    → lookup key m ≡ o
    → IsFlatList o
    → collapse (lookup key (collapse o key m).0) key (collapse o key m).0
      ≡ ((collapse o key m).0, 0)
collapse-collapse (some (arr nil)) key m e f = rw (lookup-remove, eq_refl key)
collapse-collapse (some (arr (cons v vs))) key m e f =
    rw (lookup-insert, eq_refl key) (collapse-insert v vs key m f)
collapse-collapse none key m e f = rw e
collapse-collapse (some null) key m e f = rw e
collapse-collapse (some v) key m e f = rw e

-- Collapsing a saved list to its first entry a second time changes nothing and drops nothing, if
-- that entry is not a list itself.
pub first_of_list_idem :
    (m : Object) (key : String)
    → IsFlatList (lookup key m)
    → first_of_list (first_of_list m key).0 key ≡ ((first_of_list m key).0, 0)
unfolding first_of_list
first_of_list_idem m key f = collapse-collapse (lookup key m) key m refl f
