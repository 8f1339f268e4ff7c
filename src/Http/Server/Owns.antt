-- ===== src/Http/Server/Owns.antt =====
-- No descriptor leaks from src/http_sse.cpp: after each call the open ones are those it still names.
use ratehub.Prelude.{
  ℕ, ◌≡◌, refl, ap, ◌∙◌, inl, inr, Bool, true, false, not, ◌||◌, Bool-cases, Option, none, some,
  List, [], ◌∷◌, ◌++◌, arith, ltb,
}
use ratehub.Prelude.Cuts.{drop_one, drop_one_self}
use ratehub.Http.Conn.{read_request}
use ratehub.Http.Request.{request_path, is_post, Route, pump_route}
use ratehub.Http.Reply.{send_sse_headers, send_sse_data}
use ratehub.Http.Server.{
  Sockets, HttpSseServer, ListenWorld, World, Polled, Turn, opens, close_fd, http_sse_close,
  http_sse_listen, listen_from, listen_on, drop_if_closed, pump_reply, pump_incoming, pump_event,
  pump_ready, after_poll, pump_on, http_sse_pump,
}
use ratehub.Http.Reply.Closes.{send_dashboard-opened}

abbrev pub named : Option ℕ → List ℕ
named none = []
named (some fd) = fd ∷ []

-- The open descriptors are exactly the client's, besides those in `rest`, which other code owns.
abbrev pub Owns : List ℕ → Turn → Type 0
Owns rest t = t.sockets.opened ≡ named t.client ++ rest

drop_one-named : (fd : ℕ) (fds opened : List ℕ) → opened ≡ fd ∷ fds → drop_one fd opened ≡ fds
drop_one-named fd fds opened h = ap (drop_one fd) h ∙ drop_one_self fd fds

-- Closing the old client leaves the new one.
close_fd-opened :
    (fd : ℕ) (rest : List ℕ) (client : Option ℕ) (s : Sockets)
    → s.opened ≡ fd ∷ (named client ++ rest)
    → (close_fd client s).opened ≡ fd ∷ rest
unfolding drop_one
close_fd-opened fd rest none s h = h
close_fd-opened fd rest (some g) s h = ap (drop_one g) h ∙ ground arith

module _ (rest : List ℕ) where
  pump_reply-Owns :
      (world : World) (fd : ℕ) (route : Route) (t : Turn)
      → t.sockets.opened ≡ fd ∷ (named t.client ++ rest)
      → Owns rest (pump_reply world fd route t)
  unfolding pump_reply
  pump_reply-Owns world fd Route.dashboard t h =
      let kept =
        send_dashboard-opened (t.sockets.conns fd) t.sockets.opened world.root world.file
          world.beyond in
      drop_one-named fd _ _ (kept ∙ h)
  pump_reply-Owns world fd Route.events t h =
      let only = close_fd-opened fd rest t.client t.sockets h in
      elim (Bool-cases (send_sse_headers ((close_fd t.client t.sockets).conns fd)).0) [
        | inl e ↦ rw e only
        | inr e ↦ rw e (drop_one-named fd rest _ only)
      ]
  pump_reply-Owns world fd Route.reset t h = drop_one-named fd _ t.sockets.opened h
  pump_reply-Owns world fd Route.not_found t h = drop_one-named fd _ t.sockets.opened h

  pump_incoming-Owns :
      (world : World) (accepted : Option ℕ) (t : Turn)
      → Owns rest t
      → Owns rest (pump_incoming world accepted t)
  unfolding pump_incoming
  pump_incoming-Owns world none t h = h
  pump_incoming-Owns world (some fd) t h =
      let buf = (read_request (t.sockets.conns fd) 1024).1 in
      let opened = ap (λ fds. fd ∷ fds) h in
      elim (Bool-cases (read_request (t.sockets.conns fd) 1024).0) [
        | inl e ↦ rw e (
            pump_reply-Owns world fd
              (pump_route (request_path buf).0 (is_post (request_path buf).1))
              (record t { sockets = opens fd t.sockets }) opened)
        | inr e ↦ rw e (drop_one-named fd _ (fd ∷ t.sockets.opened) opened)
      ]

  drop_if_closed-Owns :
      (world : World) (client : Option ℕ) (s : Sockets)
      → s.opened ≡ named client ++ rest
      → (drop_if_closed world client s).1.opened ≡ named (drop_if_closed world client s).0 ++ rest
  unfolding drop_if_closed
  drop_if_closed-Owns world none s h = h
  drop_if_closed-Owns world (some fd) s h = elim (Bool-cases world.gone) [
    | inl e ↦ rw e (drop_one-named fd rest s.opened h)
    | inr e ↦ rw e h
  ]

  pump_event-Owns :
      (json : Option (List ℕ)) (json_len : ℕ) (t : Turn) (client : Option ℕ)
      → Owns rest t
      → t.client ≡ client
      → Owns rest (pump_event json json_len t client)
  unfolding pump_event
  pump_event-Owns json json_len t none h same = h
  pump_event-Owns none json_len t (some fd) h same = h
  pump_event-Owns (some json) json_len t (some fd) h same = elim (Bool-cases (ltb 0 json_len)) [
    | inl some_bytes ↦ elim (Bool-cases (send_sse_data (t.sockets.conns fd) json json_len).0) [
      | inl e ↦ rw (some_bytes, e) h
      | inr e ↦
          rw (some_bytes, e)
            (drop_one-named fd rest t.sockets.opened (h ∙ ap (λ c. named c ++ rest) same))
    ]
    | inr no_bytes ↦ rw no_bytes h
  ]

  after_poll-Owns :
      (world : World) (polled : Polled) (t : Turn)
      → Owns rest t
      → Owns rest (after_poll world polled t)
  unfolding after_poll
  after_poll-Owns world (Polled.error interrupted) t h = h
  after_poll-Owns world (Polled.ready listening true) t h =
      drop_if_closed-Owns world t.client t.sockets h
  after_poll-Owns world (Polled.ready listening false) t h = h

  pump_ready-Owns :
      (world : World) (json : Option (List ℕ)) (json_len : ℕ) (polled : Polled) (t : Turn)
      → Owns rest t
      → Owns rest (pump_ready world json json_len polled t).1
  unfolding pump_ready
  pump_ready-Owns world json json_len (Polled.error interrupted) t h = h
  pump_ready-Owns world json json_len (Polled.ready true event) t h =
      let t' = after_poll world (Polled.ready true event) t in
      let t'' = pump_incoming world world.accepted t' in
      pump_event-Owns json json_len t'' t''.client
        (pump_incoming-Owns world world.accepted t'
          (after_poll-Owns world (Polled.ready true event) t h))
        refl
  pump_ready-Owns world json json_len (Polled.ready false event) t h =
      let t' = after_poll world (Polled.ready false event) t in
      pump_event-Owns json json_len t' t'.client
        (after_poll-Owns world (Polled.ready false event) t h) refl

  pump_on-Owns :
      (listen_fd : Option ℕ) (world : World) (json : Option (List ℕ)) (json_len : ℕ) (t : Turn)
      → Owns rest t
      → Owns rest (pump_on listen_fd world json json_len t).1
  unfolding pump_on
  pump_on-Owns none world json json_len t h = h
  pump_on-Owns (some fd) world json json_len t h =
      pump_ready-Owns world json json_len world.polled t h

-- One turn of the observer's server keeps the accounts of its descriptors, that of the page's file
-- included: when the open ones are exactly the client's and those of other code before it, they are so
-- after it, whatever is requested and whichever of the calls fail.
pub pump-Owns :
    (srv : HttpSseServer) (world : World) (json : Option (List ℕ)) (json_len : ℕ) (rest : List ℕ)
    (t : Turn)
    → Owns rest t
    → Owns rest (http_sse_pump srv world json json_len t).1
unfolding http_sse_pump
pump-Owns srv world json json_len rest t h = pump_on-Owns rest srv.listen_fd world json json_len t h

abbrev pub is_listening : Option ℕ → Bool
is_listening none = false
is_listening (some fd) = true

listen_on-named :
    (world : ListenWorld) (fd : ℕ) (s : Sockets) (bound : Option ℕ)
    → s.opened ≡ fd ∷ []
    → let (ok, srv, s') = listen_on world fd (record { listen_fd = none; port = 0 }) s bound in
      (s'.opened ≡ named srv.listen_fd) × (ok ≡ is_listening srv.listen_fd)
unfolding listen_on
listen_on-named world fd s none h = (drop_one-named fd [] s.opened h, refl)
listen_on-named world fd s (some port) h =
    elim (Bool-cases (not world.binds || not world.listens)) [
      | inl e ↦ rw e (drop_one-named fd [] s.opened h, refl)
      | inr e ↦ rw e (h, refl)
    ]

listen_from-named :
    (world : ListenWorld) (s : Sockets) (socket : Option ℕ)
    → s.opened ≡ []
    → let (ok, srv, s') = listen_from world (record { listen_fd = none; port = 0 }) s socket in
      (s'.opened ≡ named srv.listen_fd) × (ok ≡ is_listening srv.listen_fd)
unfolding listen_from
listen_from-named world s none h = (h, refl)
listen_from-named world s (some fd) h =
    listen_on-named world fd (opens fd s) world.bound (ap (λ fds. fd ∷ fds) h)

pub close_fd-none :
    (fd : Option ℕ) (s : Sockets) → s.opened ≡ named fd → (close_fd fd s).opened ≡ []
close_fd-none none s h = h
close_fd-none (some fd) s h = drop_one-named fd [] s.opened h

-- The descriptors of the listening socket: when the open ones are exactly the one that the server names,
-- if it names one, they are so again after `http_sse_listen`, whichever of its calls fail, it returns
-- true exactly when the server then names one, and `http_sse_close` after it leaves none open.
pub listen-named :
    (srv : HttpSseServer) (world : ListenWorld) (s : Sockets)
    → s.opened ≡ named srv.listen_fd
    → let (ok, srv', s') = http_sse_listen srv world s in
      (s'.opened ≡ named srv'.listen_fd)
      × (ok ≡ is_listening srv'.listen_fd)
      × ((http_sse_close srv' s').1.opened ≡ [])
unfolding http_sse_listen http_sse_close
listen-named srv world s h =
    let s' = close_fd srv.listen_fd s in
    let (same, told) = listen_from-named world s' world.socket (close_fd-none srv.listen_fd s h) in
    let (ok, srv', s'') =
      listen_from world (record { listen_fd = none; port = 0 }) s' world.socket in
    (same, told, close_fd-none srv'.listen_fd s'' same)
