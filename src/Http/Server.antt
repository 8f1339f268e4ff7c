-- ===== src/Http/Server.antt =====
-- The server of src/http_sse.cpp: its listening socket, and one turn of the observer's loop. A null
-- descriptor, -1 in the source, is `none`.
pub mod Owns
use ratehub.Prelude.{
  ℕ, zero, suc, ◌+◌, Bool, true, false, not, ◌&&◌, ◌||◌, Option, none, some, List, [], ◌∷◌, ltb,
  ◌==◌, if◌then◌else◌,
}
use ratehub.Prelude.Cuts.{drop_one}
use ratehub.Http.Conn.{Conn, read_request}
use ratehub.Http.Request.{request_path, is_post, Route, serve_route, pump_route}
use ratehub.Http.Reply.{
  WebFile, send_reset_ok, send_not_found, send_sse_headers, send_sse_data, send_dashboard,
}

-- The descriptors that are open, one entry for each call that opened one and was not followed by the
-- close of it, and the connection behind each.
pub record Sockets : Type 0 where
  pub opened : List ℕ
  pub conns : ℕ → Conn

pub record HttpSseServer : Type 0 where
  pub listen_fd : Option ℕ
  pub port : ℕ

abbrev pub opens : ℕ → Sockets → Sockets
opens fd s = record s { opened = fd ∷ s.opened }

abbrev pub closes : ℕ → Sockets → Sockets
closes fd s = record s { opened = drop_one fd s.opened }

-- What a send on `fd` leaves.
abbrev pub after_send : ℕ → Sockets → Bool × Conn → Bool × Sockets
after_send fd s result =
    (result.0, record s { conns = λ g. if g == fd then result.1 else s.conns g })

-- The same, where the reply has opened and closed descriptors of its own.
abbrev pub after_reply : ℕ → Sockets → Bool × Conn × List ℕ → Bool × Sockets
after_reply fd s result =
    (result.0, record { opened = result.2; conns = λ g. if g == fd then result.1 else s.conns g })

abbrev pub close_fd : Option ℕ → Sockets → Sockets
close_fd none s = s
close_fd (some fd) s = closes fd s

-- What the calls of `http_sse_listen` return.
pub record ListenWorld : Type 0 where
  pub socket : Option ℕ
  pub binds : Bool
  pub listens : Bool
  pub bound : Option ℕ  -- the port that `getsockname` reports

unfoldable pub http_sse_close : HttpSseServer → Sockets → HttpSseServer × Sockets
http_sse_close srv s = (record { listen_fd = none; port = 0 }, close_fd srv.listen_fd s)

listen_on : ListenWorld → ℕ → HttpSseServer → Sockets → Option ℕ → Bool × HttpSseServer × Sockets
listen_on world fd srv s none = (false, srv, closes fd s)
listen_on world fd srv s (some port) =
    if not world.binds || not world.listens
    then (false, srv, closes fd s)
    else (true, record { listen_fd = some fd; port = port }, s)

listen_from : ListenWorld → HttpSseServer → Sockets → Option ℕ → Bool × HttpSseServer × Sockets
listen_from world srv s none = (false, srv, s)
listen_from world srv s (some fd) = listen_on world fd srv (opens fd s) world.bound

unfoldable pub http_sse_listen :
    HttpSseServer → ListenWorld → Sockets → Bool × HttpSseServer × Sockets
unfolding listen_from listen_on http_sse_close
http_sse_listen srv world s =
    let (srv', s') = http_sse_close srv s in listen_from world srv' s' world.socket

-- What the poll of `http_sse_pump` reports: an error, which may be an interrupt, or the events of the
-- listening socket and of the client.
pub data Polled : Type 0 where
  error : Bool → Polled
  ready : Bool → Bool → Polled

-- What the calls of one turn return; `gone` is what the probe of `drop_if_closed` shows.
pub record World : Type 0 where
  pub polled : Polled
  pub gone : Bool
  pub accepted : Option ℕ
  pub root : List ℕ
  pub file : WebFile
  pub beyond : List ℕ

-- What a turn leaves: the client of the event stream, the sockets, and the reset flag.
pub record Turn : Type 0 where
  pub client : Option ℕ
  pub sockets : Sockets
  pub reset : Bool

unfoldable pub drop_if_closed : World → Option ℕ → Sockets → Option ℕ × Sockets
drop_if_closed world none s = (none, s)
drop_if_closed world (some fd) s = if world.gone then (none, closes fd s) else (some fd, s)

-- The reply to a request of the incoming connection `fd`.
unfoldable pub pump_reply : World → ℕ → Route → Turn → Turn
pump_reply world fd Route.dashboard t =
    let (_, s) =
      after_reply fd t.sockets
        (send_dashboard (t.sockets.conns fd) t.sockets.opened world.root world.file world.beyond) in
    record t { sockets = closes fd s }
pump_reply world fd Route.events t =
    let s = close_fd t.client t.sockets in
    let (sent, s') = after_send fd s (send_sse_headers (s.conns fd)) in
    if sent
    then record t { client = some fd; sockets = s' }
    else record t { client = none; sockets = closes fd s' }
pump_reply world fd Route.reset t =
    let (_, s) = after_send fd t.sockets (send_reset_ok (t.sockets.conns fd)) in
    record t { sockets = closes fd s; reset = true }
pump_reply world fd Route.not_found t =
    let (_, s) = after_send fd t.sockets (send_not_found (t.sockets.conns fd)) in
    record t { sockets = closes fd s }

unfoldable pub pump_incoming : World → Option ℕ → Turn → Turn
pump_incoming world none t = t
pump_incoming world (some fd) t =
    let t' : Turn = record t { sockets = opens fd t.sockets } in
    let (got, buf) = read_request (t.sockets.conns fd) 1024 in
    let (path, buf') = request_path buf in
    if got
    then pump_reply world fd (pump_route path (is_post buf')) t'
    else record t' { sockets = closes fd t'.sockets }

-- `json` is `none` for a null pointer.
unfoldable pub pump_event : Option (List ℕ) → ℕ → Turn → Option ℕ → Turn
pump_event json json_len t none = t
pump_event none json_len t (some fd) = t
pump_event (some json) json_len t (some fd) =
    if ltb 0 json_len
    then (let (sent, s) =
          after_send fd t.sockets (send_sse_data (t.sockets.conns fd) json json_len) in
        if sent
        then record t { sockets = s }
        else record t { client = none; sockets = closes fd s })
    else t

-- The turn after the look at the client, before a connection is accepted.
unfoldable pub after_poll : World → Polled → Turn → Turn
after_poll world (Polled.error interrupted) t = t
after_poll world (Polled.ready listening event) t =
    let (client, s) =
      if event then drop_if_closed world t.client t.sockets else (t.client, t.sockets) in
    record t { client = client; sockets = s }

unfoldable pub pump_ready : World → Option (List ℕ) → ℕ → Polled → Turn → Bool × Turn
unfolding after_poll
pump_ready world json json_len (Polled.error interrupted) t = (interrupted, t)
pump_ready world json json_len (Polled.ready listening event) t =
    let t' = after_poll world (Polled.ready listening event) t in
    let t'' = if listening then pump_incoming world world.accepted t' else t' in
    (true, pump_event json json_len t'' t''.client)

pump_on : Option ℕ → World → Option (List ℕ) → ℕ → Turn → Bool × Turn
pump_on none world json json_len t = (false, t)
pump_on (some fd) world json json_len t = pump_ready world json json_len world.polled t

unfoldable pub http_sse_pump : HttpSseServer → World → Option (List ℕ) → ℕ → Turn → Bool × Turn
unfolding pump_on
http_sse_pump srv world json json_len t = pump_on srv.listen_fd world json json_len t

-- A reply that opens nothing.
abbrev keeps : List ℕ → Bool × Conn → Bool × Conn × List ℕ
keeps opened result = (result.0, result.1, opened)

serve_reply : World → List ℕ → ℕ → List ℕ → Conn → Route → Bool × Conn × List ℕ
serve_reply world payload len opened conn Route.events =
    let (sent, conn') = send_sse_headers conn in
    keeps opened (if sent then send_sse_data conn' payload len else (false, conn'))
serve_reply world payload len opened conn Route.dashboard =
    send_dashboard conn opened world.root world.file world.beyond
serve_reply world payload len opened conn Route.reset = keeps opened (send_reset_ok conn)
serve_reply world payload len opened conn Route.not_found = (false, (send_not_found conn).1, opened)

serve_client : World → List ℕ → ℕ → Sockets → Option ℕ → Bool × Sockets
unfolding serve_reply
serve_client world payload len s none = (false, s)
serve_client world payload len s (some fd) =
    let s' = opens fd s in
    let (got, buf) = read_request (s.conns fd) 1024 in
    let (path, buf') = request_path buf in
    let (ok, s'') =
      after_reply fd s'
        (serve_reply world payload len s'.opened (s.conns fd) (serve_route path (is_post buf'))) in
    if got then (ok, closes fd s'') else (false, closes fd s')

serve_on : Option ℕ → World → List ℕ → ℕ → Sockets → Bool × Sockets
serve_on none world payload len s = (false, s)
serve_on (some fd) world payload len s = serve_client world payload len s world.accepted

unfoldable pub http_sse_serve_once : HttpSseServer → World → List ℕ → ℕ → Sockets → Bool × Sockets
unfolding serve_on serve_client
http_sse_serve_once srv world payload len s = serve_on srv.listen_fd world payload len s
