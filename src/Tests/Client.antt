-- ===== src/Tests/Client.antt =====
-- The client at work.
use terraform_provider_uapi.Base.{
  List, ◌++◌, inl, ℕ, ℤ, pos, negsuc, ◌≡◌, ◌↔◌, ◌≤◌, ◌<◌, refl, true, false, none, some, [], ◌∷◌,
  ◌+◌, arith,
}
use terraform_provider_uapi.Base.Text.{trim_space, has_char}
use terraform_provider_uapi.Base.Decimal.{atoi}
use terraform_provider_uapi.Any.{str, end, entry, Object}
use terraform_provider_uapi.Framework.{has_error}
use terraform_provider_uapi.Client.World.{get, post, put, no_answer, answered, start, World, Env}
use terraform_provider_uapi.Client.Retry.{base, max_wait, retry_wait, retry_budget}
use terraform_provider_uapi.Client.Retry.Bounds.{retry_wait_bounds, retry_wait_overflow}
use terraform_provider_uapi.Client.Request.{
  retry, settle, do_request, final_reply, is_throttled, is_success, request_loop,
}
use terraform_provider_uapi.Client.Request.Ends.{Ends, do_request-Ends, sent_request}
use terraform_provider_uapi.Client.Request.Replays.{settle_retry_iff, IsReplayable, HasBudget}
use terraform_provider_uapi.Client.Request.Answers.{do_request-quiet}
use terraform_provider_uapi.Client.Objects.{listed, get_list}
use terraform_provider_uapi.Client.Objects.Pages.{Pages, last, more, get_list_lem}
use terraform_provider_uapi.Client.Request.Recovers.{IsAnsweredBy, do_request-Recovers}
use terraform_provider_uapi.Tests.Demo.{once_then, demo, client, response, attempt, lost, always}

do_request-Ends_example :
    Ends 51
      (sent_request demo client put "/x" (some end) "v1" (always (no_answer lost)) start)
      start
      (do_request demo client true put "/x" (some end) "v1" (always (no_answer lost)) start)
do_request-Ends_example =
    do_request-Ends demo client true put "/x" (some end) "v1" (always (no_answer lost)) start

settle_retry_iff_example :
    ((wait : ℤ) × (settle demo true post 3 none (attempt (no_answer lost))
        ≡ retry retry_budget wait))
    ↔ (IsReplayable post (no_answer lost)
        × HasBudget 3 none (attempt (no_answer lost))
        × (retry_budget ≡ retry_budget))
settle_retry_iff_example =
    settle_retry_iff demo true post 3 none (attempt (no_answer lost)) retry_budget

do_request-quiet_example :
    has_error
      (do_request demo client true get "/x" none ""
        (always (answered (response 500 "" "")))
        start).1.diags
    ≡ has_error []
do_request-quiet_example =
    do_request-quiet demo client true get "/x" none "" (always (answered (response 500 "" "")))
      start

retry_wait_bounds_example :
    (n : ℕ) × (retry_wait "soon" 9 7 ≡ pos n) × (base ≤ n) × (n < max_wait + base)
unfolding atoi trim_space
retry_wait_bounds_example = retry_wait_bounds "soon" 9 7 (λ secs e. ground arith) (omega arith)

retry_wait_overflow_example : (n : ℕ) × (retry_wait "9999999999" 0 7 ≡ negsuc n)
unfolding atoi trim_space
retry_wait_overflow_example =
    retry_wait_overflow "9999999999" 0 7 9999999999 refl (omega arith) (omega arith)

-- A router that serves two pages.
abbrev two_pages : Env
two_pages = once_then (answered (response 200 "[]" "n2")) (answered (response 200 "[]" ""))

abbrev first_served : World
first_served = (do_request demo client false get "/x?limit=500" none "" two_pages start).1

abbrev both_served : World
both_served =
    (do_request demo client false get "/x?limit=500&cursor=n2" none "" two_pages first_served).1

abbrev one_object : List Object
one_object = entry "id" (str "lan") end ∷ []

two_pages_served :
    Pages demo client false "/x" two_pages "/x?limit=500" start
      (one_object ∷ one_object ∷ [])
      both_served
unfolding do_request request_loop settle final_reply is_throttled is_success has_char
two_pages_served =
    more (final_reply demo (response 200 "[]" "n2")) (refl, refl, refl) refl
      (last (final_reply demo (response 200 "[]" "")) (refl, refl, refl) refl)

get_list_lem_example :
    get_list demo client false "/x" two_pages start
    ≡ (listed (one_object ++ one_object), both_served)
unfolding has_char
get_list_lem_example =
    get_list_lem demo client false "/x" two_pages (one_object ∷ one_object ∷ []) two_pages_served
      (omega arith)

-- A router that is busy once.
do_request-Recovers_example :
    IsAnsweredBy demo true
      (sent_request demo client put "/x" none ""
        (once_then (answered (response 423 "" "")) (answered (response 200 "{}" "")))
        start)
      (response 200 "{}" "")
      1
      start
      (do_request demo client true put "/x" none ""
        (once_then (answered (response 423 "" "")) (answered (response 200 "{}" "")))
        start)
unfolding is_throttled
do_request-Recovers_example =
    do_request-Recovers demo client true put "/x" none "" none
      (once_then (answered (response 423 "" "")) (answered (response 200 "{}" ""))) start
      (response 200 "{}" "") 1 refl refl
      ((inl refl, (omega arith, omega arith, refl), (refl, refl)))
