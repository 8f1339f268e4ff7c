-- ===== src/Observe/Laws.antt =====
-- The observer of src/observe.cpp ends when it is told to, and holds nothing then.
use ratehub.Prelude.{
  ℕ, ◌≡◌, refl, sym, ap, ◌∙◌, subst, inl, inr, Bool, true, false, ◌||◌, Bool-cases, Option, none,
  some, List, [], ◌∷◌, ◌++◌, length,
}
use ratehub.Prelude.Cuts.{drop_one, drop_one_self}
use ratehub.Layout.{SourceState, WindowState, SupervisorState}
use ratehub.Compute.{Memcpy}
use ratehub.Telemetry.{collect_telemetry, format_telemetry_json}
use ratehub.Shm.{ShmStatus, ShmMapping, no_mapping, System, ShmWorld, shm_open_existing, shm_close}
use ratehub.Shm.Laws.{HoldsNoMore, after_use, shm_open_existing-after_use}
use ratehub.Http.Server.{
  Sockets, HttpSseServer, ListenWorld, World, Turn, close_fd, http_sse_close, http_sse_listen,
  http_sse_pump,
}
use ratehub.Http.Server.Owns.{named, Owns, close_fd-none, pump-Owns, is_listening, listen-named}
use ratehub.Observe.{
  Round, Observer, released, after_pump, pump_json, observe_round, observe_loop, new_observer,
  observe_on, observe_attached, web_root_of, run_observe,
}

after_pump-turn :
    (state : SupervisorState) (stored : List SupervisorState) (result : Bool × Turn)
    → (after_pump state stored result).1.turn ≡ result.1
unfolding after_pump
after_pump-turn state stored (false, turn) = refl
after_pump-turn state stored (true, turn) = refl

pump_json-Owns :
    (srv : HttpSseServer) (root rest : List ℕ) (r : Round) (o : Observer) (json : Option (List ℕ))
    → Owns rest o.turn
    → Owns rest (pump_json srv root r o json).1.turn
unfolding pump_json
pump_json-Owns srv root rest r o none h = h
pump_json-Owns srv root rest r o (some json) h =
    let world : World = record r.world { root = root } in
    let turn : Turn = record o.turn { reset = false } in
    subst (Owns rest)
      (sym (
        after_pump-turn r.layout.supervisor o.stored
          (http_sse_pump srv world (some json) (length json) turn)))
      (pump-Owns srv world (some json) (length json) rest turn h)

close_client :
    (rest : List ℕ) (client : Option ℕ) (s : Sockets)
    → s.opened ≡ named client ++ rest
    → (close_fd client s).opened ≡ rest
close_client rest none s h = h
close_client rest (some fd) s h = ap (drop_one fd) h ∙ drop_one_self fd rest

named_none : (fd : Option ℕ) → false ≡ is_listening fd → named fd ≡ []
named_none none h = refl
named_none (some fd) h = absurd (cc)

module _ (m : Memcpy SourceState) (w : Memcpy WindowState) where
  observe_loop-Owns :
      (srv : HttpSseServer) (root rest : List ℕ) (rounds : List Round) (o : Observer)
      → Owns rest o.turn
      → Owns rest (observe_loop m w srv root rounds o).1.turn
  unfolding observe_loop observe_round
  observe_loop-Owns srv root rest [] o h = h
  observe_loop-Owns srv root rest (r ∷ rounds) o h =
      let next = observe_round m w srv root r o in
      let text = format_telemetry_json (collect_telemetry w r.layout r.now_ns) true 4096 in
      let h' : Owns rest next.1.turn = pump_json-Owns srv root rest r o text h in
      elim (Bool-cases (r.stopped || released r.layout)) [
        | inl e ↦ rw e h
        | inr e ↦ elim (Bool-cases next.0) [
          | inl on ↦ rw (e, on) (observe_loop-Owns srv root rest rounds next.1 h')
          | inr off ↦ rw (e, off) h'
        ]
      ]

  observe_loop-ends :
      (srv : HttpSseServer) (root : List ℕ) (before after : List Round) (last : Round)
      (o : Observer)
      → (last.stopped || released last.layout) ≡ true
      → (observe_loop m w srv root (before ++ (last ∷ after)) o).0 ≡ true
  unfolding observe_loop
  observe_loop-ends srv root [] after last o h = rw h refl
  observe_loop-ends srv root (r ∷ before) after last o h =
      let next = observe_round m w srv root r o in
      elim (Bool-cases (r.stopped || released r.layout)) [
        | inl e ↦ rw e refl
        | inr e ↦ elim (Bool-cases next.0) [
          | inl on ↦ rw (e, on) (observe_loop-ends srv root before after last next.1 h)
          | inr off ↦ rw (e, off) refl
        ]
      ]

  observe_on-closes :
      (root : List ℕ) (before after : List Round) (last : Round) (mapping : ShmMapping)
      (sys : System) (listened : Bool × HttpSseServer × Sockets)
      → (last.stopped || released last.layout) ≡ true
      → listened.2.opened ≡ named listened.1.listen_fd
      → listened.0 ≡ is_listening listened.1.listen_fd
      → let (ended, rc, s', sys') =
          observe_on m w root (before ++ (last ∷ after)) mapping sys listened in
        (ended ≡ true) × (s'.opened ≡ []) × (sys' ≡ (shm_close mapping sys).1)
  unfolding observe_on http_sse_close
  observe_on-closes root before after last mapping sys (false, srv, s) h opened told =
      (refl, opened ∙ named_none srv.listen_fd told, refl)
  observe_on-closes root before after last mapping sys (true, srv, s) h opened told =
      let rounds = before ++ (last ∷ after) in
      let o = (observe_loop m w srv root rounds (new_observer m w s)).1 in
      let own =
        observe_loop-Owns srv root (named srv.listen_fd) rounds (new_observer m w s) opened in
      (
        observe_loop-ends srv root before after last (new_observer m w s) h,
        close_fd-none srv.listen_fd (close_fd o.turn.client o.turn.sockets)
            (close_client (named srv.listen_fd) o.turn.client o.turn.sockets own),
        refl,
      )

  observe_attached-closes :
      (root : List ℕ) (listen : ListenWorld) (before after : List Round) (last : Round)
      (s : Sockets) (attached : ShmStatus × ShmMapping × System)
      → (last.stopped || released last.layout) ≡ true
      → s.opened ≡ []
      → let (ended, rc, s', sys') =
          observe_attached m w root listen (before ++ (last ∷ after)) s attached in
        (ended ≡ true) × (s'.opened ≡ []) × (sys' ≡ after_use attached)
  unfolding observe_attached after_use
  observe_attached-closes root listen before after last s (ShmStatus.io_error, mapping, sys) h
        no_socket =
      (refl, no_socket, refl)
  observe_attached-closes root listen before after last s (ShmStatus.schema_mismatch, mapping, sys)
        h no_socket =
      (refl, no_socket, refl)
  observe_attached-closes root listen before after last s (ShmStatus.ok, mapping, sys) h no_socket =
      let srv : HttpSseServer = record { listen_fd = none; port = 0 } in
      let (opened, told, closed) = listen-named srv listen s no_socket in
      observe_on-closes root before after last mapping sys (http_sse_listen srv listen s) h opened
        told

  -- Whatever the system calls and the clients do, in a run that starts with no socket open and reaches a
  -- round in which the observer is stopped or released, it has ended by then, and it leaves no socket
  -- open, no descriptor and no mapping of the shared object behind, and no name changed.
  pub run_observe-closes :
      (name : List ℕ) (web_root : Option (List ℕ)) (world : ShmWorld) (listen : ListenWorld)
      (before after : List Round) (last : Round) (s : Sockets) (sys : System)
      → (last.stopped || released last.layout) ≡ true
      → s.opened ≡ []
      → let (ended, rc, s', sys') =
          run_observe m w name web_root world listen (before ++ (last ∷ after)) s sys in
        (ended ≡ true) × (s'.opened ≡ []) × HoldsNoMore sys sys' × (sys'.names ≡ sys.names)
  unfolding run_observe
  run_observe-closes name web_root world listen before after last s sys h no_socket =
      let attached = shm_open_existing m w world name no_mapping sys in
      let (ended, closed, left) =
        observe_attached-closes (web_root_of web_root) listen before after last s attached h
          no_socket in
      let (held, names) = shm_open_existing-after_use m w world name sys in
      (ended, closed, subst (HoldsNoMore sys) (sym left) held, ap (λ sys'. sys'.names) left ∙ names)
