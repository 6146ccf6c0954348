-- ===== src/Telemetry/Queue.antt =====
-- src/telemetry/queue.rs: the admission boundary in front of an SDK batch queue. Its methods run on
-- many threads; here each is a sequence of atomic steps, one for each load, store, swap, exchange
-- or counter update, in any sequentially consistent interleaving.
pub mod Threads
pub mod System
pub mod Invariant
pub mod Safety
mod Tests
use github_webhook_exporter.Prelude.{
  ℕ, zero, suc, ◌+◌, ◌-◌, ◌%◌, ◌^◌, ◌==◌, ◌||◌, Bool, true, false, not, ltb, leb, if◌then◌else◌,
}

pub data AdmissionOutcome : Type 0 where
  admitted queue_full pipeline_closed : AdmissionOutcome

-- `AdmissionBoundary`, with the mutex of `export_finalized`, and what surrounds it: the number of
-- records in the SDK queue, and how many records that queue had to refuse.
pub record Boundary : Type 0 where
  pub pending : ℕ
  pub dropped : ℕ
  pub closed : Bool
  pub export_finalized : Bool
  pub locked : Bool
  pub sdk_queue : ℕ
  pub sdk_refused : ℕ

abbrev pub new_boundary : Boundary
new_boundary = record {
  pending = 0;
  dropped = 0;
  closed = false;
  export_finalized = false;
  locked = false;
  sdk_queue = 0;
  sdk_refused = 0;
}

-- `dropped.fetch_add(count)` on an `AtomicU64`.
unfoldable pub add_dropped : ℕ → Boundary → Boundary
add_dropped count b = record b { dropped = (b.dropped + count) % 2 ^ 64 }

-- Where a thread stands that ends a span: in `try_admit`, in the `release(1)` and `record_drop`
-- that it calls, or in `on_end` of the SDK.
pub data Worker : Type 0 where
  start load_pending : Worker
  exchange : (observed : ℕ) → Worker
  claimed release_load : Worker
  release_exchange : (observed : ℕ) → Worker
  drop_closed drop_full sending : Worker
  done : AdmissionOutcome → Worker

-- One step of such a thread; `spurious` is a `compare_exchange_weak` that fails without a cause.
unfoldable pub worker_step :
    (capacity : ℕ) → (spurious : Bool) → Boundary → Worker → Boundary × Worker
unfolding add_dropped
worker_step capacity spurious b start = (b, if b.closed then drop_closed else load_pending)
worker_step capacity spurious b load_pending = (b, exchange b.pending)
worker_step capacity spurious b (exchange observed) =
    if leb capacity observed
    then (b, drop_full)
    else if spurious || not (b.pending == observed)
    then (b, exchange b.pending)
    else (record b { pending = observed + 1 }, claimed)
worker_step capacity spurious b claimed = (b, if b.closed then release_load else sending)
worker_step capacity spurious b release_load = (b, release_exchange b.pending)
worker_step capacity spurious b (release_exchange observed) =
    if spurious || not (b.pending == observed)
    then (b, release_exchange b.pending)
    else (record b { pending = observed - 1 }, drop_closed)
worker_step capacity spurious b drop_closed = (add_dropped 1 b, done pipeline_closed)
worker_step capacity spurious b drop_full = (add_dropped 1 b, done queue_full)
worker_step capacity spurious b sending =
    if ltb b.sdk_queue capacity
    then (record b { sdk_queue = b.sdk_queue + 1 }, done admitted)
    else (record b { sdk_refused = b.sdk_refused + 1 }, done admitted)
worker_step capacity spurious b (done outcome) = (b, start)

-- Where the SDK's export thread stands: it holds a batch that it took off its queue, and calls
-- `export`, which calls `begin_export`.
pub data Exporter : Type 0 where
  waiting : Exporter
  batch in_lock begin_load : (count : ℕ) → Exporter
  begin_exchange : (count observed : ℕ) → Exporter
  exporting skipped : Exporter

-- One step of the export thread; while it waits it takes `count` records, if there are as many.
unfoldable pub exporter_step :
    (spurious : Bool) → (count : ℕ) → Boundary → Exporter → Boundary × Exporter
exporter_step spurious count b waiting =
    if leb count b.sdk_queue
    then (record b { sdk_queue = b.sdk_queue - count }, batch count)
    else (b, waiting)
exporter_step spurious _ b (batch count) =
    if b.locked then (b, batch count) else (record b { locked = true }, in_lock count)
exporter_step spurious _ b (in_lock count) =
    if b.export_finalized then (record b { locked = false }, skipped) else (b, begin_load count)
exporter_step spurious _ b (begin_load count) = (b, begin_exchange count b.pending)
exporter_step spurious _ b (begin_exchange count observed) =
    if spurious || not (b.pending == observed)
    then (b, begin_exchange count b.pending)
    else (record b { pending = observed - count; locked = false }, exporting)
exporter_step spurious _ b exporting = (b, waiting)
exporter_step spurious _ b skipped = (b, waiting)

-- Where the thread stands that shuts the pipeline down: `close`, then `drop_pending`.
pub data Shutdown : Type 0 where
  running closing finalizing swapping : Shutdown
  recording : (count : ℕ) → Shutdown
  shut : Shutdown

unfoldable pub shutdown_step : Boundary → Shutdown → Boundary × Shutdown
unfolding add_dropped
shutdown_step b running = (record b { closed = true }, closing)
shutdown_step b closing =
    if b.locked then (b, closing) else (record b { locked = true }, finalizing)
shutdown_step b finalizing = (record b { export_finalized = true }, swapping)
shutdown_step b swapping = (record b { pending = 0; locked = false }, recording b.pending)
shutdown_step b (recording count) = (if count == 0 then b else add_dropped count b, shut)
shutdown_step b shut = (b, shut)
