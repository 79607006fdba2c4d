-- ===== src/Upgrade/Normalize/Words.antt =====
-- Splitting gives back the words that were joined by spaces, and brackets come off again.

use text.Mathlib.TextLemmas.{nil-append, cons-append, append-nil}
use terraform_provider_uapi.Base.{
  String, ◌≡◌, refl, false, List, [], ◌∷◌, All, code, if◌then◌else◌, ◌&&◌, nat_eq,
}
use terraform_provider_uapi.Base.Text.{
  ◌<>◌, is_space, is_empty, words, fields, flush, join, trim_prefix, trim_suffix,
}

abbrev NoSpace : String → Type 0
NoSpace String.[] = Unit
NoSpace (String.◌∷◌ c s) = (is_space (code c) ≡ false) × NoSpace s

-- A text that is not empty and holds no white space.
abbrev pub IsWord : String → Type 0
IsWord s = (is_empty s ≡ false) × NoSpace s

words_of-word :
    (s rest : String) → NoSpace s → words (s <> rest) ≡ (s <> (words rest).0, (words rest).1)
unfolding words
words_of-word String.[] rest h = simp nil-append
words_of-word (String.◌∷◌ c s) rest h = simp (cons-append, h.0, words_of-word s rest h.1)

words-word : (s : String) → NoSpace s → words s ≡ (s, [])
unfolding words
words-word String.[] h = refl
words-word (String.◌∷◌ c s) h = rw (h.0, words-word s h.1)

words_of-space : (rest : String) → words (" " <> rest) ≡ ("", fields rest)
unfolding words fields
words_of-space rest = rw (cons-append, nil-append)

flush-word : (w : String) (ws : List String) → is_empty w ≡ false → flush w ws ≡ w ∷ ws
flush-word w ws h = rw h

words-join :
    (x : String) (xs : List String) → All IsWord (x ∷ xs) → words (join " " (x ∷ xs)) ≡ (x, xs)
unfolding join fields
words-join x [] h = words-word x h.0.1
words-join x (y ∷ ys) h =
    rw (words_of-word x (" " <> join " " (y ∷ ys)) h.0.1, words_of-space)
      (rw (words-join y ys h.1, append-nil) (rw (flush-word y ys h.1.0.0)))

-- Words that are joined by spaces are split again.
pub fields-join : (ws : List String) → All IsWord ws → fields (join " " ws) ≡ ws
fields-join [] h = unfold fields join words in refl
fields-join (x ∷ xs) h = unfold fields in rw (words-join x xs h, flush-word x xs h.0.0)

pub trim_suffix-append : (s : String) → trim_suffix b']' (s <> "]") ≡ s
unfolding trim_suffix
trim_suffix-append String.[] = refl
trim_suffix-append (String.◌∷◌ c s) = rw (cons-append, trim_suffix-append s) (go s)
  where
    go :
        (t : String)
        → (if is_empty (t <> "]") && nat_eq (code c) b']' then "" else String.◌∷◌ c t)
          ≡ String.◌∷◌ c t
    go String.[] = refl
    go (String.◌∷◌ d t) = rw cons-append

-- The brackets that %v puts round a list come off.
pub strip_bracketed : (s : String) → trim_suffix b']' (trim_prefix b'[' ("[" <> (s <> "]"))) ≡ s
unfolding trim_prefix
strip_bracketed s = rw (cons-append, nil-append) (trim_suffix-append s)
