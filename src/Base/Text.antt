-- ===== src/Base/Text.antt =====
-- What the source uses of Go's `strings`: concatenation, searching, trimming, splitting, joining.
use Prim.Native.Char.{code}
use Prim.Native.Nat.{ℕ}
use Prim.Native.String
use Prim.Native.String.{String}
use mathlib.Core.Bool.{Bool, true, false, ◌&&◌, ◌||◌}
use mathlib.Core.List.{List, [], ◌∷◌}
use terraform_provider_uapi.Base.Tests.{leb, nat_eq, if◌then◌else◌}

infixr 65 ◌<>◌
abbrev pub ◌<>◌ : String → String → String
s <> t = String.◌++◌ s t

abbrev pub is_empty : String → Bool
is_empty String.[] = true
is_empty (String.◌∷◌ c s) = false

-- unicode.IsSpace
unfoldable pub is_space : ℕ → Bool
is_space c =
    (leb 9 c && leb c 13)
    || nat_eq c 32
    || nat_eq c 0x85
    || nat_eq c 0xa0
    || nat_eq c 0x1680
    || (leb 0x2000 c && leb c 0x200a)
    || nat_eq c 0x2028
    || nat_eq c 0x2029
    || nat_eq c 0x202f
    || nat_eq c 0x205f
    || nat_eq c 0x3000

-- strings.Contains with a one-character needle.
unfoldable pub has_char : ℕ → String → Bool
has_char k String.[] = false
has_char k (String.◌∷◌ c s) = nat_eq (code c) k || has_char k s

-- Drops the trailing characters that `drop` accepts.
unfoldable pub trim_right : (ℕ → Bool) → String → String
trim_right drop String.[] = String.[]
trim_right drop (String.◌∷◌ c s) =
    let rest = trim_right drop s in
    if is_empty rest && drop (code c) then String.[] else String.◌∷◌ c rest

unfoldable pub trim_left : (ℕ → Bool) → String → String
trim_left drop String.[] = String.[]
trim_left drop (String.◌∷◌ c s) =
    let rest = trim_left drop s in if drop (code c) then rest else String.◌∷◌ c s

-- strings.TrimSpace
unfoldable pub trim_space : String → String
unfolding trim_left trim_right is_space
trim_space s = trim_right is_space (trim_left is_space s)

-- strings.TrimPrefix and strings.TrimSuffix with a one-character affix.
unfoldable pub trim_prefix : ℕ → String → String
trim_prefix k String.[] = String.[]
trim_prefix k (String.◌∷◌ c s) = if nat_eq (code c) k then s else String.◌∷◌ c s

unfoldable pub trim_suffix : ℕ → String → String
trim_suffix k String.[] = String.[]
trim_suffix k (String.◌∷◌ c s) =
    let rest = trim_suffix k s in
    if is_empty s && nat_eq (code c) k then String.[] else String.◌∷◌ c rest

abbrev pub flush : String → List String → List String
flush w ws = if is_empty w then ws else w ∷ ws

-- The word that ends at the front of a text, and the words behind it.
unfoldable pub words : String → String × List String
words String.[] = (String.[], [])
words (String.◌∷◌ c s) =
    let (w, ws) = words s in
    if is_space (code c) then (String.[], flush w ws) else (String.◌∷◌ c w, ws)

-- strings.Fields
unfoldable pub fields : String → List String
unfolding words is_space
fields s = let (w, ws) = words s in flush w ws

-- strings.Join
unfoldable pub join : String → List String → String
join sep [] = ""
join sep (x ∷ []) = x
join sep (x ∷ y ∷ ys) = x <> (sep <> join sep (y ∷ ys))
