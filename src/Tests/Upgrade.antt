-- ===== src/Tests/Upgrade.antt =====
-- The state upgraders at work.
use terraform_provider_uapi.Base.{◌≡◌, refl, [], ◌∷◌, some}
use terraform_provider_uapi.Base.Text.{is_space, join}
use terraform_provider_uapi.Provider.Print.{sprint}
use terraform_provider_uapi.Any.{str, arr, Object, end, entry, lookup}
use terraform_provider_uapi.Upgrade.{normalize_interface}
use terraform_provider_uapi.Upgrade.Normalize.{first_of_list, texts}
use terraform_provider_uapi.Upgrade.Normalize.Idempotent.{first_of_list_idem}
use terraform_provider_uapi.Upgrade.Prefixes.{normalize_interface-sprint}
use terraform_provider_uapi.Tests.Demo.{demo}

abbrev two_ports : Object
two_ports = entry "src_dport" (arr (texts ("80" ∷ "443" ∷ []))) end

first_of_list_idem_example :
    first_of_list (first_of_list two_ports "src_dport").0 "src_dport"
    ≡ ((first_of_list two_ports "src_dport").0, 0)
unfolding lookup
first_of_list_idem_example = first_of_list_idem two_ports "src_dport" tt

abbrev saved : Object
saved = entry "ip6prefix" (str "[fd:: fc::]") end

normalize_interface-sprint_example :
    lookup "ip6prefix" (normalize_interface saved) ≡ some (arr (texts ("fd::" ∷ "fc::" ∷ [])))
unfolding lookup is_space sprint join
normalize_interface-sprint_example =
    normalize_interface-sprint demo saved "fd::" ("fc::" ∷ [])
      ((refl, (refl, (refl, (refl, (refl, tt))))), ((refl, (refl, (refl, (refl, (refl, tt))))), tt))
      refl
