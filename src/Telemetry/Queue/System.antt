-- ===== src/Telemetry/Queue/System.antt =====
-- All threads around one admission boundary: an interleaving is a list of events.
use github_webhook_exporter.Prelude.{ℕ, Bool, List, [], ◌∷◌, ltb, if◌then◌else◌}
use github_webhook_exporter.Telemetry.Queue.{
  Boundary, new_boundary, Worker, start, worker_step, Exporter, waiting, exporter_step, Shutdown,
  running, shutdown_step,
}
use github_webhook_exporter.Telemetry.Queue.Threads.{assign}

pub record System : Type 0 where
  pub boundary : Boundary
  pub workers : ℕ → Worker
  pub exporter : Exporter
  pub shutdown : Shutdown

pub data Event : Type 0 where
  worker_acts : (thread : ℕ) → (spurious : Bool) → Event
  exporter_acts : (spurious : Bool) → (count : ℕ) → Event
  shutdown_acts : Event

abbrev pub initial : System
initial = record {
  boundary = new_boundary;
  workers = λ _. start;
  exporter = waiting;
  shutdown = running;
}

-- With `threads` threads that end spans; an event of another thread is none.
unfoldable pub act : (capacity threads : ℕ) → Event → System → System
unfolding worker_step exporter_step shutdown_step
act capacity threads (worker_acts i spurious) s =
    if ltb i threads
    then (let (b, p) = worker_step capacity spurious s.boundary (s.workers i) in
        record s { boundary = b; workers = assign s.workers i p })
    else s
act capacity threads (exporter_acts spurious count) s =
    let (b, p) = exporter_step spurious count s.boundary s.exporter in
    record s { boundary = b; exporter = p }
act capacity threads shutdown_acts s =
    let (b, p) = shutdown_step s.boundary s.shutdown in record s { boundary = b; shutdown = p }

unfoldable pub run : (capacity threads : ℕ) → List Event → System → System
unfolding act
run capacity threads [] s = s
run capacity threads (e ∷ events) s = run capacity threads events (act capacity threads e s)
