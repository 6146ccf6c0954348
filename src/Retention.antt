-- ===== src/Retention.antt =====
-- src/retention.rs: the pass that prunes each store in bounded batches.
-- The shutdown channel is a function from the number of reads so far to the value that the next
-- read sees. The stores of a pass are handles on one state, the databases behind them.
pub mod Drain
pub mod Pass
mod Tests
pub mod Batches
pub mod Stores
pub mod WorkflowStores
mod WorkflowTests
use github_webhook_exporter.Prelude.{
  ℕ, zero, suc, ◌+◌, ◌-◌, ◌*◌, ◌^◌, ◌==◌, ◌&&◌, ◌||◌, Bool, true, false, not, Option, none, some,
  List, [], ◌∷◌, min, Result, ok, err, ltb, if◌then◌else◌,
}
use github_webhook_exporter.Domain.Time.{checked_sub}

abbrev pub full_prune_batch_size : ℕ
full_prune_batch_size = 1000

abbrev u64_max : ℕ
u64_max = 2 ^ 64 - 1

pub record RetentionConfig : Type 0 where
  pub interval : ℕ
  pub delivery_retention : ℕ
  pub merge_queue_retention : ℕ

pub data RetentionError : Type 0 where
  invalid_interval invalid_retention : RetentionError

-- Durations are in nanoseconds. `time::Duration::try_from` takes those below 2^63 seconds.
unfoldable pub validate_retention : ℕ → Result RetentionError ℕ
validate_retention retention =
    if retention == 0
    then err invalid_retention
    else if ltb retention (2 ^ 63 * 1000000000)
    then ok retention
    else err invalid_retention

abbrev with_retentions :
    ℕ → Result RetentionError ℕ → Result RetentionError ℕ → Result RetentionError RetentionConfig
with_retentions interval (err e) m = err e
with_retentions interval (ok d) (err e) = err e
with_retentions interval (ok d) (ok m) =
    ok (record { interval = interval; delivery_retention = d; merge_queue_retention = m })

unfoldable pub new_config : ℕ → ℕ → ℕ → Result RetentionError RetentionConfig
unfolding validate_retention
new_config interval delivery_retention merge_queue_retention =
    if interval == 0
    then err invalid_interval
    else with_retentions interval (validate_retention delivery_retention)
        (validate_retention merge_queue_retention)

pub data StorePruneOutcome : Type 0 where
  completed cancelled failed : StorePruneOutcome

pub data RetentionPassOutcome : Type 0 where
  pass_success pass_cancelled pass_failure : RetentionPassOutcome

unfoldable pub combine : RetentionPassOutcome → StorePruneOutcome → RetentionPassOutcome
combine pass_failure completed = pass_failure
combine pass_failure cancelled = pass_failure
combine pass_failure failed = pass_failure
combine pass_success failed = pass_failure
combine pass_cancelled failed = pass_failure
combine pass_cancelled completed = pass_cancelled
combine pass_cancelled cancelled = pass_cancelled
combine pass_success cancelled = pass_cancelled
combine pass_success completed = pass_success

-- `prune_batch_erased`: at most one batch of rows older than the cutoff; `none` is a failure.
pub record PrunableStore (S : Type 0) : Type 0 where
  pub prune_batch_erased : ℕ → S → Option ℕ × S

-- What a pass works on: the stores' state, and how often the shutdown channel was read.
pub record World (S : Type 0) : Type 0 where
  pub store : S
  pub reads : ℕ

-- What a store's loop logs.
pub record Report : Type 0 where
  pub outcome : StorePruneOutcome
  pub batches : ℕ
  pub deleted : ℕ

abbrev is_cancelled : StorePruneOutcome → Bool
is_cancelled cancelled = true
is_cancelled completed = false
is_cancelled failed = false

abbrev is_empty {ℓ} : {A : Type ℓ} → List A → Bool
is_empty [] = true
is_empty (x ∷ xs) = false

module _ {S : Type 0} (shutdown : ℕ → Bool) where
  -- One read of the shutdown channel.
  abbrev read : World S → Bool × World S
  read w = (shutdown w.reads, record w { reads = suc w.reads })

  -- The loop of `prune_store`, on fuel; `none` means that the fuel ran out.
  unfoldable pub prune_loop : PrunableStore S → ℕ → ℕ → ℕ → ℕ → World S → Option (Report × World S)
  prune_loop store cutoff zero batches deleted w = none
  prune_loop store cutoff (suc fuel) batches deleted w =
      let (stop, w1) = read w in
      elim stop [
        | true ↦ some (record { outcome = cancelled; batches = batches; deleted = deleted }, w1)
        | false ↦
            let (result, s) = store.prune_batch_erased cutoff w1.store in
            let w2 : World S = record w1 { store = s } in
            elim result [
              | none ↦ some (record { outcome = failed; batches = batches; deleted = deleted }, w2)
              | some batch_deleted ↦
                  let total = min u64_max (deleted + batch_deleted) in
                  elim (ltb batch_deleted full_prune_batch_size) [
                    | true ↦
                        some (
                          record { outcome = completed; batches = batches + 1; deleted = total },
                          w2,
                        )
                    | false ↦ prune_loop store cutoff fuel (batches + 1) total w2
                  ]
            ]
      ]

  unfoldable pub prune_store : ℕ → PrunableStore S → Option ℕ → World S → Option (Report × World S)
  unfolding prune_loop
  prune_store fuel store none w = some (record { outcome = failed; batches = 0; deleted = 0 }, w)
  prune_store fuel store (some cutoff) w = prune_loop store cutoff fuel 0 0 w

  -- The loop over the workloads, from the outcome so far. The shutdown channel is read before
  -- the store's outcome is looked at.
  unfoldable pub prune_workloads :
      ℕ
      → List (PrunableStore S × Option ℕ)
      → RetentionPassOutcome
      → World S
      → Option (RetentionPassOutcome × World S)
  unfolding prune_store combine
  prune_workloads fuel [] outcome w = some (outcome, w)
  prune_workloads fuel ((store, cutoff) ∷ remaining) outcome w =
      elim (prune_store fuel store cutoff w) [
        | none ↦ none
        | some (report, w1) ↦
            let (stop, w2) = read w1 in
            let next = combine outcome report.outcome in
            elim ((stop || is_cancelled report.outcome) && not (is_empty remaining)) [
              | true ↦ some (combine next cancelled, w2)
              | false ↦ prune_workloads fuel remaining next w2
            ]
      ]

  unfoldable pub prune_retention_workloads :
      ℕ → List (PrunableStore S × Option ℕ) → World S → Option (RetentionPassOutcome × World S)
  unfolding prune_workloads
  prune_retention_workloads fuel workloads w = prune_workloads fuel workloads pass_success w

  -- The five stores of a pass that starts at `now`, in their order.
  unfoldable pub prune_retention_pass :
      ℕ
      → (delivery merge_queue workflow_run workflow_job_link required_check : PrunableStore S)
      → RetentionConfig
      → (now : ℕ) → World S
      → Option (RetentionPassOutcome × World S)
  unfolding prune_retention_workloads
  prune_retention_pass fuel delivery merge_queue workflow_run workflow_job_link required_check
        config now w =
      let delivery_cutoff = checked_sub now config.delivery_retention in
      let merge_queue_cutoff = checked_sub now config.merge_queue_retention in
      prune_retention_workloads fuel
        ((delivery, delivery_cutoff)
          ∷ (merge_queue, merge_queue_cutoff)
          ∷ (workflow_run, delivery_cutoff)
          ∷ (workflow_job_link, delivery_cutoff)
          ∷ (required_check, delivery_cutoff)
          ∷ [])
        w
