-- ===== src/Retention/Pass.antt =====
-- The outcome of a whole pass of src/retention.rs.
use github_webhook_exporter.Prelude.{
  ℕ, suc, ◌≤◌, ◌≡◌, ◌≢◌, refl, subst, Bool, Bool-cases, Option-cases, inl, inr, true, ◌||◌, ◌&&◌,
  not, Option, none, some, List, [], ◌∷◌, arith,
}
use github_webhook_exporter.Retention.{
  PrunableStore, World, Report, StorePruneOutcome, completed, cancelled, failed,
  RetentionPassOutcome, pass_success, combine, prune_loop, prune_store, prune_workloads,
  prune_retention_workloads, is_cancelled, is_empty,
}

combine-eq_success :
    (o : RetentionPassOutcome) (x : StorePruneOutcome)
    → combine o x ≡ pass_success
    → (o ≡ pass_success) × (x ≡ completed)
unfolding combine
combine-eq_success o x h = ground arith

combine_stopped :
    (r : Report) → r.outcome ≢ completed → combine pass_success r.outcome ≢ pass_success
combine_stopped r h e = h (combine-eq_success pass_success r.outcome e).1

module _ {S : Type 0} (shutdown : ℕ → Bool) where
  -- The world after the shutdown channel was read once more.
  abbrev after_read : World S → World S
  after_read w = record w { reads = suc w.reads }

  -- Every workload was reached and its store's loop completed.
  abbrev pub AllCompleted : ℕ → List (PrunableStore S × Option ℕ) → World S → Type 0
  AllCompleted fuel [] w = Unit
  AllCompleted fuel ((store, cutoff) ∷ rest) w =
      (r : Report) × (w' : World S) × (prune_store shutdown fuel store cutoff w ≡ some (r, w'))
      × (r.outcome ≡ completed)
      × AllCompleted fuel rest (after_read w')

  success_only :
      (fuel : ℕ) (workloads : List (PrunableStore S × Option ℕ)) (o : RetentionPassOutcome)
      (w w' : World S)
      → prune_workloads shutdown fuel workloads o w ≡ some (pass_success, w')
      → (o ≡ pass_success) × AllCompleted fuel workloads w
  unfolding prune_workloads
  success_only fuel [] o w w' h = (cc, tt)
  success_only fuel ((store, cutoff) ∷ rest) o w w' h =
      elim (Option-cases (prune_store shutdown fuel store cutoff w)) [
        | inl e ↦ absurd (ground arith)
        | inr ((r, w1), e) ↦
            elim (Bool-cases
              ((shutdown w1.reads || is_cancelled r.outcome) && not (is_empty rest))) [
                | inl stop ↦
                    absurd (ground (arith, combine-eq_success (combine o r.outcome) cancelled))
                | inr go ↦
                    let ih =
                      success_only fuel rest (combine o r.outcome) (after_read w1) w'
                        (rw (e, prune_workloads, go) at h) in
                    let parts = combine-eq_success o r.outcome ih.0 in
                    (parts.0, (r, w1, e, parts.1, ih.1))
              ]
      ]

  -- A pass that reports success has reached every workload, in order, and each store's loop
  -- completed.
  pub pass_success_lem :
      (fuel : ℕ) (workloads : List (PrunableStore S × Option ℕ)) (w w' : World S)
      → prune_retention_workloads shutdown fuel workloads w ≡ some (pass_success, w')
      → AllCompleted fuel workloads w
  unfolding prune_retention_workloads
  pass_success_lem fuel workloads w w' h = (success_only fuel workloads pass_success w w' h).1

  stopped_store :
      (fuel : ℕ) (store : PrunableStore S) (cutoff : Option ℕ) (w : World S)
      → shutdown w.reads ≡ true
      → (r : Report) × (w1 : World S) × (prune_store shutdown (suc fuel) store cutoff w
          ≡ some (r, w1))
        × (w1.store ≡ w.store)
        × (r.outcome ≢ completed)
        × (w.reads ≤ w1.reads)
  unfolding prune_store prune_loop
  stopped_store fuel store none w h =
      (record { outcome = failed; batches = 0; deleted = 0 }, w, refl, refl, (λ e. cc), omega arith)
  stopped_store fuel store (some c) w h = (
    record { outcome = cancelled; batches = 0; deleted = 0 },
    record w { reads = suc w.reads },
    rw h,
    refl,
    (λ e. cc),
    omega arith,
  )

  abbrev Untouched : World S → Option (RetentionPassOutcome × World S) → Type 0
  Untouched w none = ⊥
  Untouched w (some (o, w')) = (o ≢ pass_success) × (w'.store ≡ w.store)

  shutdown-Untouched :
      (fuel : ℕ) (store : PrunableStore S) (cutoff : Option ℕ)
      (rest : List (PrunableStore S × Option ℕ)) (w : World S)
      → ((k : ℕ) → w.reads ≤ k → shutdown k ≡ true)
      → Untouched w (prune_retention_workloads shutdown (suc fuel) ((store, cutoff) ∷ rest) w)
  unfolding prune_retention_workloads prune_workloads
  shutdown-Untouched fuel store cutoff [] w h =
      let (r, w1, e, same, stopped, later) =
        stopped_store fuel store cutoff w (h w.reads (omega arith)) in
      rw (e, prune_workloads) (ground (arith, combine_stopped r stopped, same))
  shutdown-Untouched fuel store cutoff (x ∷ rest) w h =
      let (r, w1, e, same, stopped, later) =
        stopped_store fuel store cutoff w (h w.reads (omega arith)) in
      rw (e, prune_workloads)
        (ground (
          arith,
          h w1.reads later,
          combine-eq_success (combine pass_success r.outcome) cancelled,
          same,
        ))

  -- Once shutdown is signalled, a pass over at least one store, with fuel for one round, returns,
  -- deletes nothing and does not report success.
  pub shutdown_stops :
      (fuel : ℕ) (store : PrunableStore S) (cutoff : Option ℕ)
      (rest : List (PrunableStore S × Option ℕ)) (w : World S)
      → ((k : ℕ) → w.reads ≤ k → shutdown k ≡ true)
      → (o : RetentionPassOutcome) × (w' : World S) × (prune_retention_workloads shutdown
            (suc fuel)
            ((store, cutoff) ∷ rest)
            w
          ≡ some (o, w'))
        × (o ≢ pass_success)
        × (w'.store ≡ w.store)
  shutdown_stops fuel store cutoff rest w h =
      let still = shutdown-Untouched fuel store cutoff rest w h in
      elim (Option-cases
        (prune_retention_workloads shutdown (suc fuel) ((store, cutoff) ∷ rest) w)) [
          | inl e ↦ absurd (subst (Untouched w) e still)
          | inr ((o, w'), e) ↦
              let (kept, same) = subst (Untouched w) e still in (o, w', e, kept, same)
        ]
