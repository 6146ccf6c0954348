-- ===== src/Telemetry/Queue/Tests.antt =====
-- The theorems on the admission boundary, at short interleavings of two threads.
use github_webhook_exporter.Prelude.{◌+◌, ◌≤◌, ◌≡◌, refl, false, true, List, [], ◌∷◌, ◌++◌, arith}
use github_webhook_exporter.Telemetry.Queue.{new_boundary, claimed, closing, start}
use github_webhook_exporter.Telemetry.Queue.Threads.{sum_shares, assign}
use github_webhook_exporter.Telemetry.Queue.System.{
  System, Event, initial, run, worker_acts, exporter_acts,
}
use github_webhook_exporter.Telemetry.Queue.Invariant.{holds, in_hand}
use github_webhook_exporter.Telemetry.Queue.Safety.{
  queue_never_overflows, pending_exact, withdrawn_twice, finalize, withdraw,
}

-- Both threads race for the one place of the queue.
abbrev race : List Event
race =
    worker_acts 0 false
    ∷ worker_acts 1 false
    ∷ worker_acts 0 false
    ∷ worker_acts 1 false
    ∷ worker_acts 0 false
    ∷ worker_acts 1 false
    ∷ worker_acts 0 false
    ∷ exporter_acts false 1
    ∷ []

queue_never_overflows_example :
    ((run 1 2 race initial).boundary.pending ≤ 1)
    × ((run 1 2 race initial).boundary.sdk_queue ≤ 1)
    × ((run 1 2 race initial).boundary.sdk_refused ≡ 0)
queue_never_overflows_example = queue_never_overflows 1 2 race

race_open : (run 1 2 race initial).boundary.export_finalized ≡ false
unfolding run
race_open = refl

pending_exact_example :
    (run 1 2 race initial).boundary.pending
    ≡ sum_shares holds 2 (run 1 2 race initial).workers
      + (run 1 2 race initial).boundary.sdk_queue
      + in_hand (run 1 2 race initial).exporter
pending_exact_example = pending_exact 1 2 race race_open

-- Thread 0 has counted its record; the boundary is closed, and about to be finalized.
abbrev closing_time : System
closing_time = record initial {
  boundary = record new_boundary { closed = true; pending = 1 };
  workers = assign (λ _. start) 0 claimed;
  shutdown = closing;
}

withdrawn_twice_example : (run 1 2 (finalize ++ withdraw 0) closing_time).boundary.dropped ≡ 2
withdrawn_twice_example =
    withdrawn_twice 1 2 0 closing_time (omega arith) refl refl refl refl (omega arith)
