-- ===== src/Upgrade/Prefixes.antt =====
-- The upgrader of network_interface, on each form that a saved ip6prefix may have.
use terraform_provider_uapi.Base.{String, ◌≡◌, refl, some, List, [], ◌∷◌, All}
use terraform_provider_uapi.Base.Text.{◌<>◌, join}
use terraform_provider_uapi.Any.{str, arr, Object, lookup}
use terraform_provider_uapi.Any.Laws.{lookup-insert}
use terraform_provider_uapi.Platform.{Platform}
use terraform_provider_uapi.Provider.Print.{sprint, sprint_all}
use terraform_provider_uapi.Upgrade.Normalize.{words_of_string, texts}
use terraform_provider_uapi.Upgrade.Normalize.Words.{IsWord, fields-join, strip_bracketed}
use terraform_provider_uapi.Upgrade.{normalize_interface}

sprint_all-texts : (p : Platform) (ws : List String) → sprint_all p (texts ws) ≡ ws
unfolding sprint
sprint_all-texts p [] = refl
sprint_all-texts p (w ∷ ws) = rw (sprint_all-texts p ws)

sprint-texts :
    (p : Platform) (ws : List String) → sprint p (arr (texts ws)) ≡ "[" <> (join " " ws <> "]")
unfolding sprint
sprint-texts p ws = rw (sprint_all-texts p ws)

-- A 3.1 refresh against uapi 3.2 saved the list of prefixes as the one text that %v makes of it.
-- The upgrader turns that text into the list again, for prefixes without white space.
pub normalize_interface-sprint :
    (p : Platform) (raw : Object) (w : String) (ws : List String)
    → All IsWord (w ∷ ws)
    → lookup "ip6prefix" raw ≡ some (str (sprint p (arr (texts (w ∷ ws)))))
    → lookup "ip6prefix" (normalize_interface raw) ≡ some (arr (texts (w ∷ ws)))
unfolding normalize_interface words_of_string
normalize_interface-sprint p raw w ws h e =
    rw (e, sprint-texts p (w ∷ ws), lookup-insert, strip_bracketed (join " " (w ∷ ws)))
      (rw (fields-join (w ∷ ws) h) (rw lookup-insert))
