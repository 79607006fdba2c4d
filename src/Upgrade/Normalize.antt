-- ===== src/Upgrade/Normalize.antt =====
-- state_upgrades.go: firstOfList and wordsOfString.
pub mod Idempotent
pub mod Words
use terraform_provider_uapi.Base.{ℕ, zero, suc, String, none, some, List, [], ◌∷◌, Option}
use terraform_provider_uapi.Base.Text.{fields}
use terraform_provider_uapi.Any.{Any, str, arr, Anys, nil, cons, Object, lookup, insert, remove}

abbrev pub count : Anys → ℕ
count nil = zero
count (cons v vs) = suc (count vs)

abbrev pub collapse : Option Any → String → Object → Object × ℕ
collapse (some (arr nil)) key m = (remove key m, 0)
collapse (some (arr (cons v vs))) key m = (insert key v m, count vs)
collapse _ key m = (m, 0)

-- firstOfList: the new map, and how many entries were dropped
unfoldable pub first_of_list : Object → String → Object × ℕ
first_of_list m key = collapse (lookup key m) key m

abbrev pub texts : List String → Anys
texts [] = nil
texts (x ∷ xs) = cons (str x) (texts xs)

abbrev pub set_words : List String → String → Object → Object
set_words [] key m = remove key m
set_words (x ∷ xs) key m = insert key (arr (texts (x ∷ xs))) m

abbrev pub split : Option Any → String → Object → Object
split (some (str s)) key m = set_words (fields s) key m
split _ key m = m

-- wordsOfString
unfoldable pub words_of_string : Object → String → Object
words_of_string m key = split (lookup key m) key m
