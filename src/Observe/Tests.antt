-- ===== src/Observe/Tests.antt =====
-- An observer of src/observe.cpp that serves one round, and is then released.
use ratehub.Prelude.{◌≡◌, refl, true, false, ◌||◌, none, some, [], ◌∷◌, ◌++◌}
use ratehub.Prelude.Text.{codes}
use ratehub.Layout.{Layout, new_supervisor}
use ratehub.Compute.Copies.{source_memcpy, window_memcpy}
use ratehub.Shm.{System, ShmWorld, new_layout}
use ratehub.Shm.Laws.{HoldsNoMore}
use ratehub.Http.Conn.{SendTurn, RecvTurn, Conn}
use ratehub.Http.Server.{Sockets, ListenWorld, World, Polled}
use ratehub.Observe.{Round, released, run_observe}
use ratehub.Observe.Laws.{run_observe-closes}

abbrev shared : Layout
shared = new_layout source_memcpy window_memcpy

abbrev system : System
system = record { opened = 0 ∷ []; mapped = []; names = λ n. some 9; object = λ id. shared }

abbrev attach : ShmWorld
attach = record { opens = some 3; new_object = 0; truncates = false; maps = true }

abbrev listen : ListenWorld
listen = record { socket = some 4; binds = true; listens = true; bound = some 8080 }

abbrev conn : Conn
conn = record {
  wire = [];
  sends = SendTurn.took 5000 ∷ SendTurn.took 5000 ∷ [];
  receives = RecvTurn.arrived (codes "GET /events HTTP/1.1" ++ (13 ∷ 10 ∷ 13 ∷ 10 ∷ [])) ∷ [];
}

abbrev world : World
world = record {
  polled = Polled.ready true false;
  gone = false;
  accepted = some 5;
  root = [];
  file = record { descriptor = none; stats = false; size = 0; chunks = []; read_error = false };
  beyond = [];
}

abbrev busy_round : Round
busy_round = record { stopped = false; layout = shared; now_ns = 1; world = world }

abbrev last_round : Round
last_round = record busy_round {
  layout = record shared { supervisor = record new_supervisor { observe_release = 1 } };
}

abbrev sockets : Sockets
sockets = record { opened = []; conns = λ fd. conn }

told_to_end : (last_round.stopped || released last_round.layout) ≡ true
unfolding released
told_to_end = refl

run_observe-closes_example :
    let (ended, rc, s', sys') =
      run_observe source_memcpy window_memcpy
        (codes "/rh-1")
        none
        attach
        listen
        ((busy_round ∷ []) ++ (last_round ∷ []))
        sockets
        system in
    (ended ≡ true) × (s'.opened ≡ []) × HoldsNoMore system sys' × (sys'.names ≡ system.names)
run_observe-closes_example =
    run_observe-closes source_memcpy window_memcpy (codes "/rh-1") none attach listen
      (busy_round ∷ []) [] last_round sockets system told_to_end refl
