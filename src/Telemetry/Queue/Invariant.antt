-- ===== src/Telemetry/Queue/Invariant.antt =====
-- The invariant of the threads around the admission boundary of src/telemetry/queue.rs.
use github_webhook_exporter.Prelude.{
  ℕ, ◌+◌, ◌≤◌, ◌≡◌, refl, Bool, Bool-cases, inl, inr, true, false, List, [], ◌∷◌, arith, ltb,
  ltb→lt, if◌then◌else◌,
}
use github_webhook_exporter.Telemetry.Queue.{
  Boundary, Worker, start, load_pending, exchange, claimed, release_load, release_exchange,
  drop_closed, drop_full, sending, done, worker_step, Exporter, waiting, batch, in_lock, begin_load,
  begin_exchange, exporting, skipped, exporter_step, Shutdown, running, closing, finalizing,
  swapping, recording, shut, shutdown_step, add_dropped,
}
use github_webhook_exporter.Telemetry.Queue.Threads.{
  sum_shares, sum-assign, sum_zero, share-le-sum, sums-excess,
}
use github_webhook_exporter.Telemetry.Queue.System.{
  System, Event, worker_acts, exporter_acts, shutdown_acts, initial, act, run,
}

-- Whether a thread has counted a record into `pending` that is not yet in the SDK queue.
abbrev pub holds : Worker → ℕ
holds claimed = 1
holds release_load = 1
holds (release_exchange observed) = 1
holds sending = 1
holds start = 0
holds load_pending = 0
holds (exchange observed) = 0
holds drop_closed = 0
holds drop_full = 0
holds (done outcome) = 0

-- Whether it is about to send one.
abbrev pub sends : Worker → ℕ
sends sending = 1
sends claimed = 0
sends release_load = 0
sends (release_exchange observed) = 0
sends start = 0
sends load_pending = 0
sends (exchange observed) = 0
sends drop_closed = 0
sends drop_full = 0
sends (done outcome) = 0

-- The records of the batch whose release is still to come.
abbrev pub in_hand : Exporter → ℕ
in_hand waiting = 0
in_hand (batch count) = count
in_hand (in_lock count) = count
in_hand (begin_load count) = count
in_hand (begin_exchange count observed) = count
in_hand exporting = 0
in_hand skipped = 0

abbrev exporter_locks : Exporter → ℕ
exporter_locks waiting = 0
exporter_locks (batch count) = 0
exporter_locks (in_lock count) = 1
exporter_locks (begin_load count) = 1
exporter_locks (begin_exchange count observed) = 1
exporter_locks exporting = 0
exporter_locks skipped = 0

abbrev releases : Exporter → Bool
releases waiting = false
releases (batch count) = false
releases (in_lock count) = false
releases (begin_load count) = true
releases (begin_exchange count observed) = true
releases exporting = false
releases skipped = false

abbrev shutdown_locks : Shutdown → ℕ
shutdown_locks running = 0
shutdown_locks closing = 0
shutdown_locks finalizing = 1
shutdown_locks swapping = 1
shutdown_locks (recording count) = 0
shutdown_locks shut = 0

abbrev is_running : Shutdown → Bool
is_running running = true
is_running closing = false
is_running finalizing = false
is_running swapping = false
is_running (recording count) = false
is_running shut = false

abbrev is_finalized : Shutdown → Bool
is_finalized running = false
is_finalized closing = false
is_finalized finalizing = false
is_finalized swapping = true
is_finalized (recording count) = true
is_finalized shut = true

-- The invariant, over the numbers of records that the threads hold and are about to send.
pub record Inv (capacity : ℕ) (b : Boundary) (held to_send : ℕ) (ex : Exporter) (sh : Shutdown)
    : Type 0 where
  pub bound : b.pending ≤ capacity
  pub closed_first : is_running sh ≡ false → b.closed ≡ true
  pub finalized_closed : b.export_finalized ≡ true → b.closed ≡ true
  pub finalized_by : is_finalized sh ≡ true → b.export_finalized ≡ true
  pub one_owner : exporter_locks ex + shutdown_locks sh ≡ (if b.locked then 1 else 0)
  pub release_open : releases ex ≡ true → b.export_finalized ≡ false
  pub exact : b.export_finalized ≡ false → b.pending ≡ held + b.sdk_queue + in_hand ex
  pub fits : b.sdk_queue + to_send ≤ capacity
  pub none_refused : b.sdk_refused ≡ 0

exporter_cases :
    (capacity : ℕ) (spurious : Bool) (b : Boundary) (held to_send : ℕ) (sh : Shutdown) (count : ℕ)
    (ex : Exporter)
    → Inv capacity b held to_send ex sh
    → Inv capacity
        (exporter_step spurious count b ex).0
        held
        to_send
        (exporter_step spurious count b ex).1
        sh
unfolding exporter_step
exporter_cases capacity spurious b held to_send sh count waiting v = ground arith
exporter_cases capacity spurious b held to_send sh count (batch n) v = ground arith
exporter_cases capacity spurious b held to_send sh count (in_lock n) v = ground arith
exporter_cases capacity spurious b held to_send sh count (begin_load n) v = ground arith
exporter_cases capacity spurious b held to_send sh count (begin_exchange n o) v = ground arith
exporter_cases capacity spurious b held to_send sh count exporting v = ground arith
exporter_cases capacity spurious b held to_send sh count skipped v = ground arith

shutdown_cases :
    (capacity : ℕ) (b : Boundary) (held to_send : ℕ) (ex : Exporter) (sh : Shutdown)
    → Inv capacity b held to_send ex sh
    → Inv capacity (shutdown_step b sh).0 held to_send ex (shutdown_step b sh).1
unfolding shutdown_step add_dropped
shutdown_cases capacity b held to_send ex running v = ground arith
shutdown_cases capacity b held to_send ex closing v = ground arith
shutdown_cases capacity b held to_send ex finalizing v = ground arith
shutdown_cases capacity b held to_send ex swapping v = ground arith
shutdown_cases capacity b held to_send ex (recording n) v = ground arith
shutdown_cases capacity b held to_send ex shut v = ground arith

module _ (capacity : ℕ) (spurious : Bool) (b : Boundary) (held to_send : ℕ) (ex : Exporter)
    (sh : Shutdown) (v : Inv capacity b held to_send ex sh) where
  worker-Inv :
      (p : Worker) (held' to_send' : ℕ)
      → holds p ≤ held
      → to_send + holds p ≤ held + sends p
      → held' + holds p ≡ held + holds (worker_step capacity spurious b p).1
      → to_send' + sends p ≡ to_send + sends (worker_step capacity spurious b p).1
      → Inv capacity (worker_step capacity spurious b p).0 held' to_send' ex sh
  unfolding worker_step add_dropped
  worker-Inv start h' t' ph pt eh et = ground arith
  worker-Inv load_pending h' t' ph pt eh et = ground arith
  worker-Inv (exchange observed) h' t' ph pt eh et = ground arith
  worker-Inv claimed h' t' ph pt eh et = ground arith
  worker-Inv release_load h' t' ph pt eh et = ground arith
  worker-Inv (release_exchange observed) h' t' ph pt eh et = ground arith
  worker-Inv drop_closed h' t' ph pt eh et = ground arith
  worker-Inv drop_full h' t' ph pt eh et = ground arith
  worker-Inv sending h' t' ph pt eh et = ground arith
  worker-Inv (done outcome) h' t' ph pt eh et = ground arith

-- The invariant of a system.
abbrev pub IsConsistent : (capacity threads : ℕ) → System → Type 0
IsConsistent capacity threads s =
    Inv capacity s.boundary (sum_shares holds threads s.workers)
      (sum_shares sends threads s.workers) s.exporter s.shutdown

sends-le-holds : (p : Worker) → sends p ≤ holds p
sends-le-holds sending = omega arith
sends-le-holds start = omega arith
sends-le-holds load_pending = omega arith
sends-le-holds (exchange o) = omega arith
sends-le-holds claimed = omega arith
sends-le-holds release_load = omega arith
sends-le-holds (release_exchange o) = omega arith
sends-le-holds drop_closed = omega arith
sends-le-holds drop_full = omega arith
sends-le-holds (done o) = omega arith

act-IsConsistent :
    (capacity threads : ℕ) (e : Event) (s : System)
    → IsConsistent capacity threads s
    → IsConsistent capacity threads (act capacity threads e s)
unfolding act
act-IsConsistent capacity threads (worker_acts i spurious) s v = elim (Bool-cases (ltb i threads)) [
  | inr outside ↦ rw outside v
  | inl inside ↦
      let lt = ltb→lt i threads inside in
      rw inside (
        worker-Inv capacity spurious s.boundary _ _ s.exporter s.shutdown v (s.workers i) _ _
          (share-le-sum holds threads i s.workers lt)
          (sums-excess sends holds sends-le-holds threads i s.workers lt)
          (sum-assign holds threads i s.workers _ lt) (sum-assign sends threads i s.workers _ lt))
]
act-IsConsistent capacity threads (exporter_acts spurious count) s v =
    exporter_cases capacity spurious s.boundary _ _ s.shutdown count s.exporter v
act-IsConsistent capacity threads shutdown_acts s v =
    shutdown_cases capacity s.boundary _ _ s.exporter s.shutdown v

initial-IsConsistent : (capacity threads : ℕ) → IsConsistent capacity threads initial
initial-IsConsistent capacity threads =
    ground (arith, sum_zero holds threads start refl, sum_zero sends threads start refl)

run_keeps :
    (capacity threads : ℕ) (events : List Event) (s : System)
    → IsConsistent capacity threads s
    → IsConsistent capacity threads (run capacity threads events s)
unfolding run
run_keeps capacity threads [] s v = v
run_keeps capacity threads (e ∷ events) s v =
    run_keeps capacity threads events (act capacity threads e s)
      (act-IsConsistent capacity threads e s v)

-- In every interleaving from the start the invariant holds.
pub run-IsConsistent :
    (capacity threads : ℕ) (events : List Event)
    → IsConsistent capacity threads (run capacity threads events initial)
run-IsConsistent capacity threads events =
    run_keeps capacity threads events initial (initial-IsConsistent capacity threads)
