-- ===== src/Http/Tests.antt =====
-- Runs of src/http_sse.cpp: sends in parts, a request in pieces, a page, and a turn of the server.
use ratehub.Prelude.{ℕ, ◌≡◌, ◌↔◌, refl, true, false, some, List, [], ◌∷◌, ◌++◌, take, arith}
use ratehub.Prelude.Text.{codes, c_string, contains, decimal, digits}
use ratehub.Http.Conn.{SendTurn, RecvTurn, Conn, send_all, send_loop, blank_line, read_request}
use ratehub.Http.Conn.Laws.{send_all-wire, read_request_iff, stream}
use ratehub.Http.Request.{request_path, is_post}
use ratehub.Http.Request.Laws.{Method, request, is_clean, request_path-request}
use ratehub.Http.Reply.{
  WebFile, header_text, header_bytes, send_chunks, send_page, send_opened, send_dashboard,
}
use ratehub.Http.Reply.Laws.{header_bytes-overrun}
use ratehub.Http.Server.{
  Sockets, HttpSseServer, ListenWorld, World, Polled, Turn, http_sse_close, http_sse_listen,
  http_sse_pump,
}
use ratehub.Http.Server.Owns.{named, Owns, is_listening, pump-Owns, listen-named}

-- A connection whose kernel takes two bytes, then none for a while, then many, and on which a request
-- arrives in two pieces.
abbrev conn : Conn
conn = record {
  wire = 9 ∷ [];
  sends = SendTurn.took 2 ∷ SendTurn.again ∷ SendTurn.took 5000 ∷ SendTurn.took 5000 ∷ [];
  receives =
      RecvTurn.arrived (codes "GET /events HTTP/1.1" ++ (13 ∷ 10 ∷ []))
      ∷ RecvTurn.again
      ∷ RecvTurn.arrived (13 ∷ 10 ∷ [])
      ∷ [];
}

-- All three bytes arrive, after what was there.
all_sent : (send_all conn (1 ∷ 2 ∷ 3 ∷ [])).1.wire ≡ 9 ∷ 1 ∷ 2 ∷ 3 ∷ []
unfolding send_all send_loop
all_sent = refl

send_all-wire_example :
    (rest : List ℕ) × ((send_all conn (1 ∷ 2 ∷ 3 ∷ [])).1.wire ++ rest ≡ 9 ∷ 1 ∷ 2 ∷ 3 ∷ [])
    × (((send_all conn (1 ∷ 2 ∷ 3 ∷ [])).0 ≡ true) ↔ (rest ≡ []))
send_all-wire_example = send_all-wire conn (1 ∷ 2 ∷ 3 ∷ [])

read_request_iff_example :
    (read_request conn 1024).0 ≡ contains blank_line (c_string (take 1023 (stream conn.receives)))
read_request_iff_example = read_request_iff conn 1024

events_clean : is_clean (codes "/events") ≡ true
unfolding is_clean
events_clean = refl

request_path-request_example :
    ((request_path (request Method.get (codes "/events") (codes "HTTP"))).0
      ≡ some (codes "/events"))
    × (is_post (request_path (request Method.get (codes "/events") (codes "HTTP"))).1 ≡ false)
request_path-request_example =
    request_path-request Method.get (codes "/events") (codes "HTTP") events_clean

abbrev page : WebFile
page = record {
  descriptor = some 9;
  stats = true;
  size = 4;
  chunks = codes "<p/>" ∷ [];
  read_error = false;
}

abbrev fast_conn : Conn
fast_conn = record {
  wire = [];
  sends = SendTurn.took 5000 ∷ SendTurn.took 5000 ∷ [];
  receives = [];
}

page_sent : (send_dashboard fast_conn [] (codes "web") page []).0 ≡ true
unfolding send_dashboard send_opened send_page send_chunks send_all send_loop header_bytes decimal
    digits
page_sent = refl

header_bytes-overrun_example :
    header_bytes (7 ∷ []) 12_345_678 ≡ take 127 (header_text 12_345_678) ++ (0 ∷ 7 ∷ [])
header_bytes-overrun_example =
    header_bytes-overrun (7 ∷ []) 12_345_678 1 (omega arith) (omega arith) (omega arith)

-- A client on descriptor 5, and a second one that asks for the stream on descriptor 6.
abbrev turn : Turn
turn = record {
  client = some 5;
  sockets = record { opened = 5 ∷ 4 ∷ []; conns = λ fd. conn };
  reset = false;
}

abbrev server : HttpSseServer
server = record { listen_fd = some 4; port = 8080 }

abbrev world : World
world = record {
  polled = Polled.ready true false;
  gone = false;
  accepted = some 6;
  root = codes "web";
  file = page;
  beyond = [];
}

pump-Owns_example : Owns (4 ∷ []) (http_sse_pump server world (some (codes "{}")) 2 turn).1
pump-Owns_example = pump-Owns server world (some (codes "{}")) 2 (4 ∷ []) turn refl

abbrev listen_world : ListenWorld
listen_world = record { socket = some 6; binds = true; listens = false; bound = some 8080 }

abbrev listening : Sockets
listening = record { opened = 4 ∷ []; conns = λ fd. conn }

listen-named_example :
    let (ok, srv', s') = http_sse_listen server listen_world listening in
    (s'.opened ≡ named srv'.listen_fd)
    × (ok ≡ is_listening srv'.listen_fd)
    × ((http_sse_close srv' s').1.opened ≡ [])
listen-named_example = listen-named server listen_world listening refl
