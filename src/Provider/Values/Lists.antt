-- ===== src/Provider/Values/Lists.antt =====
-- A list survives the round through uci, which stores no empty list.
use terraform_provider_uapi.Base.{◌≡◌, refl, String, some, List, [], ◌∷◌, map, ap}
use terraform_provider_uapi.Any.{Any, null, str, arr, Anys, nil, cons, Object, lookup}
use terraform_provider_uapi.Framework.{known}
use terraform_provider_uapi.Platform.{Platform, Lawful}
use terraform_provider_uapi.Provider.Values.{list_items, list_val_keep_empty}

abbrev pub texts : List String → Anys
texts [] = nil
texts (x ∷ xs) = cons (str x) (texts xs)

-- What uapi answers for a list that was written: null for the empty list.
abbrev pub stored : List String → Any
stored [] = null
stored (x ∷ xs) = arr (texts (x ∷ xs))

module _ (p : Platform) where
  pub list_items-texts : (xs : List String) → list_items p (texts xs) ≡ xs
  unfolding list_items
  list_items-texts [] = refl
  list_items-texts (x ∷ xs) = ap (λ (l : List String). x ∷ l) (list_items-texts xs)

  -- A configured list reads back as it was configured, the empty one included, though uapi answers
  -- null for an empty list, if the framework converts lists of known texts without a diagnostic.
  pub list_val_keep_empty-stored :
      (xs : List String) (m : Object) (key : String)
      → Lawful p
      → lookup key m ≡ some (stored xs)
      → list_val_keep_empty p m key (known (map known xs)) ≡ (known (map known xs), [])
  unfolding list_val_keep_empty
  list_val_keep_empty-stored [] m key l h = rw h
  list_val_keep_empty-stored (x ∷ xs) m key l h =
      rw (h, list_items-texts (x ∷ xs), l.list_value_from_known (x ∷ xs))
