-- ===== src/Gen/Names.antt =====
-- internal/gen/main.go and scope.go: the helpers on names. Names are ASCII, as in the document.
use Prim.Native.String.{slice, compare}
use Prim.Native.Nat.{Ordering}
use terraform_provider_uapi.Base.{
  ℕ, ◌+◌, ◌-◌, code, String, ◌&&◌, ◌||◌, ◌≡◌, refl, List, [], ◌∷◌, ◌==◌, if◌then◌else◌, leb, nat_eq,
  contains, arith,
}
use terraform_provider_uapi.Base.Text.{◌<>◌}

-- the upper-case and the lower-case letter of a character
abbrev upper : ℕ → String → String
upper n s =
    if leb b'a' n && leb n b'z'
    then slice "ABCDEFGHIJKLMNOPQRSTUVWXYZ" (n - b'a') (n - b'a' + 1)
    else s

abbrev lower : ℕ → String → String
lower n s =
    if leb b'A' n && leb n b'Z'
    then slice "abcdefghijklmnopqrstuvwxyz" (n - b'A') (n - b'A' + 1)
    else s

-- titleFirst: strings.ToUpper(s[:1]) + s[1:]
unfoldable pub title_first : String → String
title_first String.[] = ""
title_first (String.◌∷◌ c s) = upper (code c) (String.◌∷◌ c "") <> s

-- strings.Split by "_": the first part and the others
parts : String → String × List String
parts String.[] = ("", [])
parts (String.◌∷◌ c s) =
    let (w, ws) = parts s in
    if nat_eq (code c) b'_' then ("", w ∷ ws) else (String.◌∷◌ c "" <> w, ws)

joined : List String → String
joined [] = ""
joined (w ∷ ws) = title_first w <> joined ws

-- pascal
unfoldable pub pascal : String → String
unfolding parts joined title_first
pascal snake = let (w, ws) = parts snake in joined (w ∷ ws)

lower_first : String → String
lower_first String.[] = ""
lower_first (String.◌∷◌ c s) = lower (code c) (String.◌∷◌ c "") <> s

-- camel
unfoldable pub camel : String → String
unfolding pascal lower_first
camel snake = lower_first (pascal snake)

-- joinAnd, of a list that is not empty
unfoldable pub join_and : List String → String
join_and [] = ""
join_and (x ∷ []) = x
join_and (x ∷ y ∷ []) = x <> " and " <> y
join_and (x ∷ y ∷ xs) = x <> ", " <> join_and (y ∷ xs)

-- sort.Strings
insert_sorted : String → List String → List String
insert_sorted x [] = x ∷ []
insert_sorted x (y ∷ ys) = elim (compare x y) [
  | Ordering.gt ↦ y ∷ insert_sorted x ys
  | _ ↦ x ∷ (y ∷ ys)
]

unfoldable pub sort_strings : List String → List String
unfolding insert_sorted
sort_strings [] = []
sort_strings (x ∷ xs) = insert_sorted x (sort_strings xs)

contains-insert_sorted :
    (x : String) (ys : List String) (v : String)
    → contains (insert_sorted x ys) v ≡ ((x == v) || contains ys v)
unfolding insert_sorted
contains-insert_sorted x [] v = refl
contains-insert_sorted x (y ∷ ys) v = ground (arith, contains-insert_sorted x ys v)

-- Sorting keeps what a list holds.
pub contains-sort_strings :
    (xs : List String) (v : String) → contains (sort_strings xs) v ≡ contains xs v
unfolding sort_strings
contains-sort_strings [] v = refl
contains-sort_strings (x ∷ xs) v =
    rw (contains-insert_sorted x (sort_strings xs) v, contains-sort_strings xs v)

pascal_run : pascal "dhcp_host" ≡ "DhcpHost"
unfolding pascal
pascal_run = refl

sort_run : sort_strings ("mtu" ∷ "auto" ∷ "dns" ∷ []) ≡ "auto" ∷ "dns" ∷ "mtu" ∷ []
unfolding sort_strings
sort_run = refl
