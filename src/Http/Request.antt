-- ===== src/Http/Request.antt =====
-- `request_path`, `is_post` and the choice of a reply in src/http_sse.cpp. A buffer is the list of its
-- bytes.
pub mod Laws
use ratehub.Prelude.{
  ℕ, suc, ◌+◌, Bool, true, false, not, ◌&&◌, ◌||◌, Option, none, some, List, [], ◌∷◌, set, drop,
  if◌then◌else◌,
}
use ratehub.Prelude.Text.{codes, c_string, bytes_eq, starts_with, index_of}

-- From the second search on: `i` is the index of the first space, which is a zero by now, and `j` is
-- what the search has found.
path_end : List ℕ → ℕ → Option ℕ → Option (List ℕ) × List ℕ
path_end buf i none = (none, buf)
path_end buf i (some j) =
    let buf' = set buf (suc i + j) 0 in
    let method = c_string buf' in
    if not (bytes_eq method (codes "GET")) && not (bytes_eq method (codes "POST"))
    then (none, buf')
    else (some (c_string (drop (suc i) buf')), buf')

path_from : List ℕ → Option ℕ → Option (List ℕ) × List ℕ
path_from buf none = (none, buf)
path_from buf (some i) =
    let buf' = set buf i 0 in path_end buf' i (index_of b' ' (c_string (drop (suc i) buf')))

-- The path, if there is one, and the buffer, into which it writes zeros.
unfoldable pub request_path : List ℕ → Option (List ℕ) × List ℕ
unfolding path_from path_end
request_path buf = path_from buf (index_of b' ' (c_string buf))

unfoldable pub is_post : List ℕ → Bool
is_post buf = starts_with (codes "POST") (c_string buf)

pub data Route : Type 0 where
  dashboard events reset not_found : Route

abbrev pub is_page : List ℕ → Bool
is_page path = bytes_eq path (codes "/") || bytes_eq path (codes "/dashboard.html")

-- The tests of `http_sse_serve_once`, in order.
unfoldable pub serve_route : Option (List ℕ) → Bool → Route
serve_route none post = Route.not_found
serve_route (some path) post =
    if bytes_eq path (codes "/events") && not post
    then Route.events
    else if is_page path && not post
    then Route.dashboard
    else if bytes_eq path (codes "/reset") && post
    then Route.reset
    else Route.not_found

-- The tests of `http_sse_pump`, in order.
unfoldable pub pump_route : Option (List ℕ) → Bool → Route
pump_route none post = Route.not_found
pump_route (some path) post =
    if is_page path && not post
    then Route.dashboard
    else if bytes_eq path (codes "/events") && not post
    then Route.events
    else if bytes_eq path (codes "/reset") && post
    then Route.reset
    else Route.not_found
