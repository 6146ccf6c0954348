-- ===== src/Telemetry/Queue/Safety.antt =====
-- The admission boundary of src/telemetry/queue.rs under interleavings of threads.
use github_webhook_exporter.Prelude.{
  ℕ, ◌+◌, ◌^◌, ◌≤◌, ◌<◌, ◌≡◌, false, true, List, [], ◌∷◌, ◌++◌, arith,
}
use github_webhook_exporter.Telemetry.Queue.{
  claimed, closing, worker_step, shutdown_step, add_dropped,
}
use github_webhook_exporter.Telemetry.Queue.Threads.{sum_shares}
use github_webhook_exporter.Telemetry.Queue.System.{
  System, Event, initial, act, run, worker_acts, shutdown_acts,
}
use github_webhook_exporter.Telemetry.Queue.Invariant.{holds, in_hand, run-IsConsistent}

module _ (capacity threads : ℕ) (events : List Event) where
  abbrev reached : System
  reached = run capacity threads events initial

  -- However the threads interleave, the count of pending records and the SDK queue stay within
  -- the capacity, and the SDK queue never has to refuse a record.
  pub queue_never_overflows :
      (reached.boundary.pending ≤ capacity)
      × (reached.boundary.sdk_queue ≤ capacity)
      × (reached.boundary.sdk_refused ≡ 0)
  queue_never_overflows =
      let v = run-IsConsistent capacity threads events in (v.bound, omega arith, v.none_refused)

  -- Until export is finalized, `pending` is the number of records that threads have admitted and
  -- not sent yet, that the SDK queue holds, and whose release is still to come.
  pub pending_exact :
      reached.boundary.export_finalized ≡ false
      → reached.boundary.pending
        ≡ sum_shares holds threads reached.workers
          + reached.boundary.sdk_queue
          + in_hand reached.exporter
  pending_exact open_yet = let v = run-IsConsistent capacity threads events in v.exact open_yet

  -- While nothing is finalized, the SDK queue holds no more records than `pending` counts.
  pub queue-le-pending :
      reached.boundary.export_finalized ≡ false
      → reached.boundary.sdk_queue ≤ reached.boundary.pending
  queue-le-pending open_yet = omega (arith, pending_exact open_yet)

abbrev pub finalize : List Event
finalize = shutdown_acts ∷ shutdown_acts ∷ shutdown_acts ∷ shutdown_acts ∷ []

abbrev pub withdraw : ℕ → List Event
withdraw i =
    worker_acts i false ∷ worker_acts i false ∷ worker_acts i false ∷ worker_acts i false ∷ []

-- If a thread has counted its record into `pending` when the closed boundary is finalized, that
-- record is counted as dropped twice: once with all pending records, and once more when the
-- thread finds the boundary closed and withdraws. Nothing else runs meanwhile, and the counter of
-- drops does not wrap.
pub withdrawn_twice :
    (capacity threads i : ℕ) (s : System)
    → i < threads
    → s.workers i ≡ claimed
    → s.shutdown ≡ closing
    → s.boundary.closed ≡ true
    → s.boundary.locked ≡ false
    → s.boundary.dropped + s.boundary.pending + 1 < 2 ^ 64
    → (run capacity threads (finalize ++ withdraw i) s).boundary.dropped
      ≡ s.boundary.dropped + s.boundary.pending + 1
unfolding run act worker_step shutdown_step add_dropped
withdrawn_twice capacity threads i s lt w sh cl lo small = ground arith
