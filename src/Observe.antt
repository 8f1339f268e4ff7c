-- ===== src/Observe.antt =====
-- src/observe.cpp: the observer, from its attachment to the mapping to its end. `Round` is what one
-- round of the loop reads and what its calls return; a run is a list of them. Sleeping and yielding
-- have no counterpart.
pub mod Laws
mod Tests
use ratehub.Prelude.{
  ℕ, suc, ◌+◌, Bool, true, false, not, ◌&&◌, ◌||◌, Option, none, some, List, [], ◌∷◌, length, ◌==◌,
  if◌then◌else◌,
}
use ratehub.Prelude.Text.{codes}
use ratehub.Layout.{Layout, SourceState, WindowState, SupervisorState, request_rerun}
use ratehub.Compute.{Memcpy}
use ratehub.Telemetry.{collect_telemetry, format_telemetry_json}
use ratehub.Shm.{ShmStatus, ShmMapping, no_mapping, System, ShmWorld, shm_open_existing, shm_close}
use ratehub.Http.Server.{
  Sockets, HttpSseServer, ListenWorld, World, Turn, close_fd, http_sse_close, http_sse_listen,
  http_sse_pump,
}

-- `stopped` is `g_observe_stop != 0`.
pub record Round : Type 0 where
  pub stopped : Bool
  pub layout : Layout
  pub now_ns : ℕ
  pub world : World

-- `stored` holds what the observer has stored into the supervisor's block, the last first.
pub record Observer : Type 0 where
  pub turn : Turn
  pub stored : List SupervisorState

unfoldable pub released : Layout → Bool
released layout = not (layout.supervisor.observe_release == 0)

abbrev pub web_root_of : Option (List ℕ) → List ℕ
web_root_of none = codes "web"
web_root_of (some root) = root

-- After the pump: whether the loop goes on.
unfoldable pub after_pump : SupervisorState → List SupervisorState → Bool × Turn → Bool × Observer
after_pump state stored (false, turn) = (false, record { turn = turn; stored = stored })
after_pump state stored (true, turn) = (
  true,
  record { turn = turn; stored = if turn.reset then request_rerun state ∷ stored else stored },
)

-- With the text, or `none` where its length is 0.
unfoldable pub pump_json :
    HttpSseServer → List ℕ → Round → Observer → Option (List ℕ) → Bool × Observer
pump_json srv root r o none = (true, o)
pump_json srv root r o (some json) = after_pump r.layout.supervisor o.stored (
    http_sse_pump srv (record r.world { root = root }) (some json) (length json)
      (record o.turn { reset = false }))

module _ (m : Memcpy SourceState) (w : Memcpy WindowState) where
  -- The body of the loop: whether the loop goes on.
  unfoldable pub observe_round : HttpSseServer → List ℕ → Round → Observer → Bool × Observer
  observe_round srv root r o =
      pump_json srv root r o
        (format_telemetry_json (collect_telemetry w r.layout r.now_ns) true 4096)

  -- Whether the loop has ended.
  unfoldable pub observe_loop : HttpSseServer → List ℕ → List Round → Observer → Bool × Observer
  observe_loop srv root [] o = (false, o)
  observe_loop srv root (r ∷ rounds) o =
      let (on, o') = observe_round srv root r o in
      let rest = observe_loop srv root rounds o' in
      if r.stopped || released r.layout then (true, o) else if on then rest else (true, o')

  abbrev pub new_observer : Sockets → Observer
  new_observer s = record {
    turn = record { client = none; sockets = s; reset = false };
    stored = [];
  }

  -- From the loop on: whether it has ended, the exit status, the sockets and the system.
  unfoldable pub observe_on :
      List ℕ
      → List Round
      → ShmMapping
      → System
      → Bool × HttpSseServer × Sockets
      → Bool × ℕ × Sockets × System
  observe_on root rounds mapping sys (false, srv, s) = (true, 1, s, (shm_close mapping sys).1)
  observe_on root rounds mapping sys (true, srv, s) =
      let (ended, o) = observe_loop srv root rounds (new_observer s) in
      let closed = close_fd o.turn.client o.turn.sockets in
      (ended, 0, (http_sse_close srv closed).1, (shm_close mapping sys).1)

  unfoldable pub observe_attached :
      List ℕ
      → ListenWorld
      → List Round
      → Sockets
      → ShmStatus × ShmMapping × System
      → Bool × ℕ × Sockets × System
  observe_attached root listen rounds s (ShmStatus.io_error, mapping, sys) = (true, 1, s, sys)
  observe_attached root listen rounds s (ShmStatus.schema_mismatch, mapping, sys) =
      (true, 1, s, sys)
  observe_attached root listen rounds s (ShmStatus.ok, mapping, sys) =
      observe_on root rounds mapping sys
        (http_sse_listen (record { listen_fd = none; port = 0 }) listen s)

  unfoldable pub run_observe :
      List ℕ
      → Option (List ℕ)
      → ShmWorld
      → ListenWorld
      → List Round
      → Sockets
      → System
      → Bool × ℕ × Sockets × System
  run_observe name web_root world listen rounds s sys =
      observe_attached (web_root_of web_root) listen rounds s
        (shm_open_existing m w world name no_mapping sys)
