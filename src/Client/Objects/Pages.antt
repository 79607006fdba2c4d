-- ===== src/Client/Objects/Pages.antt =====
-- A list is the pages that the router serves, one behind the other.
use terraform_provider_uapi.Base.{
  ℕ, zero, suc, ◌≤◌, ◌≡◌, String, Bool, true, false, none, List, [], ◌∷◌, ◌++◌, length, concat,
  arith, ◌∙◌, refl, if◌then◌else◌,
}
use mathlib.Core.List.{append-nil, append_assoc}
use terraform_provider_uapi.Base.Text.{◌<>◌, is_empty, has_char}
use terraform_provider_uapi.Any.{Object}
use terraform_provider_uapi.Platform.{Platform, ok}
use terraform_provider_uapi.Client.World.{get, Env, World}
use terraform_provider_uapi.Client.Request.{Client, Reply, do_request}
use terraform_provider_uapi.Client.Objects.{listed, page_path, list_pages, get_list, max_pages}

module _ (p : Platform) (c : Client) (warned : Bool) (path : String) (env : Env) where
  -- The GET of a page is answered with these objects.
  abbrev pub Page : String → World → Reply → List Object → World → Type 0
  Page target w r page w' =
      (do_request p c warned get target none "" env w ≡ (r, w'))
      × (r.err ≡ none)
      × (p.unmarshal_list r.raw ≡ ok page)

  -- The target of the first page, which asks for 500 objects, and that of the page at a cursor.
  abbrev pub first_target : String
  first_target = path <> (if has_char b'?' path then "&" else "?") <> "limit=500"

  abbrev pub target_at : String → String
  target_at cursor =
      path
      <> (if has_char b'?' path then "&" else "?")
      <> "limit=500"
      <> "&cursor="
      <> p.query_escape cursor

  -- The pages from a target to the one that names no next cursor.
  pub data Pages : String → World → List (List Object) → World → Type 0 where
    last :
        {target : String} {w w' : World} (r : Reply) {page : List Object}
        → Page target w r page w'
        → is_empty r.next_cursor ≡ true
        → Pages target w (page ∷ []) w'
    more :
        {target : String} {w w' w'' : World} (r : Reply) {page : List Object}
        {pages : List (List Object)}
        → Page target w r page w'
        → is_empty r.next_cursor ≡ false
        → Pages (target_at r.next_cursor) w' pages w''
        → Pages target w (page ∷ pages) w''

  page_path-target_at :
      (cursor : String) → is_empty cursor ≡ false → page_path p path cursor ≡ target_at cursor
  unfolding page_path
  page_path-target_at cursor e = rw e

  list_pages_lem :
      (left : ℕ) (all : List Object) (next : String) {target : String} {w w' : World}
      {pages : List (List Object)}
      → page_path p path next ≡ target
      → Pages target w pages w'
      → length pages ≤ left
      → list_pages p c warned path left all next env w ≡ (listed (all ++ concat pages), w')
  unfolding list_pages
  list_pages_lem zero all next t (last r g e) few = absurd (omega arith)
  list_pages_lem zero all next t (more r g e rest) few = absurd (omega arith)
  list_pages_lem (suc left) all next t (last r g e) few =
      rw (t, g.0, list_pages) (rw (g.1) (rw (t, g.0) (rw g.2 (rw (t, g.0) (rw (e, append-nil))))))
  list_pages_lem (suc left) all next t (more r {page} {pages} g e rest) few =
      rw (t, g.0, list_pages)
        (rw g.1 (
          rw (t, g.0)
            (rw g.2 (
              rw (t, g.0)
                (rw e (
                  list_pages_lem left (all ++ page) r.next_cursor
                    (page_path-target_at r.next_cursor e) rest (omega arith)
                  ∙ rw append_assoc))))))

  -- GetList returns the objects of all pages in order, if the router serves at most 1000 of them,
  -- behind exactly the requests of these pages: the first one for 500 objects, and each other one
  -- at the cursor that the page before it names.
  pub get_list_lem :
      {w w' : World} (pages : List (List Object))
      → Pages first_target w pages w'
      → length pages ≤ max_pages
      → get_list p c warned path env w ≡ (listed (concat pages), w')
  unfolding get_list page_path
  get_list_lem pages served few = list_pages_lem max_pages [] "" refl served few
