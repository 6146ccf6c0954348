-- ===== src/Retention/Drain.antt =====
-- The loop of `prune_store` of src/retention.rs, over a store that meets laws.
use github_webhook_exporter.Prelude.{
  ℕ, zero, suc, ◌+◌, ◌-◌, ◌*◌, ◌^◌, ◌<◌, ◌≡◌, ◌≢◌, refl, Bool-cases, Option-cases, ltb→lt, inl, inr,
  Bool, true, false, Option, none, some, min, subst, arith, ltb,
}
use github_webhook_exporter.Retention.{
  PrunableStore, World, Report, completed, prune_loop, prune_store, full_prune_batch_size,
}

-- What the loop relies on of a store at one cutoff. `Inv` is the store's invariant, and
-- `remaining` the number of rows older than the cutoff.
pub record DrainLaws {S : Type 0} (store : PrunableStore S) (cutoff : ℕ) (Inv : S → Type 0)
    (remaining : S → ℕ) : Type 0 where
  pub keeps : (s : S) → Inv s → Inv (store.prune_batch_erased cutoff s).1
  -- A failed batch deletes nothing; a served one deletes as many rows as there are, up to 1,000.
  pub failed_batch :
      (s : S)
      → Inv s
      → (store.prune_batch_erased cutoff s).0 ≡ none
      → remaining (store.prune_batch_erased cutoff s).1 ≡ remaining s
  pub served_batch :
      (s : S) (n : ℕ)
      → Inv s
      → (store.prune_batch_erased cutoff s).0 ≡ some n
      → (n ≡ min full_prune_batch_size (remaining s))
        × (remaining (store.prune_batch_erased cutoff s).1 + n ≡ remaining s)

abbrev value : Option ℕ → ℕ
value none = 0
value (some n) = n

module _ {S : Type 0} (shutdown : ℕ → Bool) (store : PrunableStore S) (cutoff : ℕ)
    (Inv : S → Type 0) (remaining : S → ℕ) (laws : DrainLaws store cutoff Inv remaining) where
  -- The loop returned. The invariant holds, the deletions are counted, and a completed loop has
  -- left no row that is older than the cutoff.
  abbrev Drained : ℕ → Option (Report × World S) → Type 0
  Drained total none = ⊥
  Drained total (some (r, w)) =
      Inv w.store
      × (r.outcome ≡ completed → remaining w.store ≡ 0)
      × (total < 2 ^ 64 → r.deleted + remaining w.store ≡ total)

  Drained-weaken :
      (t t' : ℕ) (o : Option (Report × World S))
      → (t < 2 ^ 64 → t' ≡ t)
      → Drained t' o
      → Drained t o
  Drained-weaken t t' none e h = h
  Drained-weaken t t' (some (r, w)) e h =
      (h.0, h.1, λ small. let same : t' ≡ t = e small in rw same at (h.2 (rw same small)))

  -- One batch that SQLite served, and what follows it.
  batch_drains :
      (fuel batches deleted n : ℕ) (w : World S)
      → Inv w.store
      → (n ≡ min full_prune_batch_size (remaining (store.prune_batch_erased cutoff w.store).1 + n))
      → (ltb n full_prune_batch_size ≡ false
          → Drained
              (min (2 ^ 64 - 1) (deleted + n)
                + remaining (store.prune_batch_erased cutoff w.store).1)
              (prune_loop shutdown store cutoff fuel
                (batches + 1)
                (min (2 ^ 64 - 1) (deleted + n))
                (record {
                  store = (store.prune_batch_erased cutoff w.store).1;
                  reads = suc w.reads;
                })))
      → Drained
          (deleted + (remaining (store.prune_batch_erased cutoff w.store).1 + n))
          (elim (ltb n full_prune_batch_size) [
            | true ↦ some (
              record {
                outcome = completed;
                batches = batches + 1;
                deleted = min (2 ^ 64 - 1) (deleted + n);
              },
              record { store = (store.prune_batch_erased cutoff w.store).1; reads = suc w.reads },
            )
            | false ↦
                prune_loop shutdown store cutoff fuel
                  (batches + 1)
                  (min (2 ^ 64 - 1) (deleted + n))
                  (record {
                    store = (store.prune_batch_erased cutoff w.store).1;
                    reads = suc w.reads;
                  })
          ])
  batch_drains fuel batches deleted n w v e rest = elim (Bool-cases (ltb n full_prune_batch_size)) [
    | inl partial ↦
        rw partial (
          laws.keeps w.store v,
          (λ _. omega (arith, ltb→lt n 1000 partial)),
          (λ small. omega arith),
        )
    | inr full ↦ rw full (Drained-weaken _ _ _ (λ small. omega arith) (rest full))
  ]

  loop_drains :
      (fuel batches deleted : ℕ) (w : World S)
      → Inv w.store
      → remaining w.store < fuel * full_prune_batch_size
      → Drained
          (deleted + remaining w.store)
          (prune_loop shutdown store cutoff fuel batches deleted w)
  unfolding prune_loop
  loop_drains zero batches deleted w v h = absurd (omega arith)
  loop_drains (suc fuel) batches deleted w v h = elim (Bool-cases (shutdown w.reads)) [
    | inl stop ↦ rw (stop, prune_loop) (v, (λ e. cc), (λ _. refl))
    | inr go ↦ elim (Option-cases (store.prune_batch_erased cutoff w.store).0) [
      | inl e ↦
          rw (go, prune_loop, e)
            (laws.keeps w.store v, (λ e. cc), (λ _. omega (arith, laws.failed_batch w.store v e)))
      | inr (n, e) ↦
          let b = laws.served_batch w.store n v e in
          rw (go, prune_loop, e, ← b.1)
            (batch_drains fuel batches deleted n w v (omega (arith, b)) λ full.
              loop_drains fuel (batches + 1) (min (2 ^ 64 - 1) (deleted + n)) _
                (laws.keeps w.store v) (ground (arith, b)))
    ]
  ]

  prune_store-Drained :
      (fuel : ℕ) (w : World S)
      → Inv w.store
      → remaining w.store < fuel * full_prune_batch_size
      → Drained (remaining w.store) (prune_store shutdown fuel store (some cutoff) w)
  unfolding prune_store
  prune_store-Drained fuel w v h =
      Drained-weaken (remaining w.store) (0 + remaining w.store) _ (λ _. omega arith)
        (loop_drains fuel 0 0 w v h)

  -- With fuel for one batch per 1,000 rows and one more, the loop over a store that meets the laws
  -- returns, whatever the shutdown channel and SQLite do.
  pub prune_store_returns :
      (fuel : ℕ) (w : World S)
      → Inv w.store
      → remaining w.store < fuel * full_prune_batch_size
      → prune_store shutdown fuel store (some cutoff) w ≢ none
  prune_store_returns fuel w v h e =
      subst (Drained (remaining w.store)) e (prune_store-Drained fuel w v h)

  -- Whatever its outcome, the loop over a store that meets the laws, with that fuel, logs as deleted the rows that were older than the cutoff at its
  -- start and are not there at its end, if there are fewer than 2 ^ 64.
  pub prune_store_counts :
      (fuel : ℕ) (w w' : World S) (r : Report)
      → Inv w.store
      → remaining w.store < fuel * full_prune_batch_size
      → remaining w.store < 2 ^ 64
      → prune_store shutdown fuel store (some cutoff) w ≡ some (r, w')
      → r.deleted + remaining w'.store ≡ remaining w.store
  prune_store_counts fuel w w' r v h small e =
      (subst (Drained (remaining w.store)) e (prune_store-Drained fuel w v h)).2 small

  -- A loop over a store that meets the laws, with that fuel, that logs completion has left no row
  -- that is older than the cutoff.
  pub prune_store_clears :
      (fuel : ℕ) (w w' : World S) (r : Report)
      → Inv w.store
      → remaining w.store < fuel * full_prune_batch_size
      → prune_store shutdown fuel store (some cutoff) w ≡ some (r, w')
      → r.outcome ≡ completed
      → remaining w'.store ≡ 0
  prune_store_clears fuel w w' r v h e done =
      (subst (Drained (remaining w.store)) e (prune_store-Drained fuel w v h)).1 done

  undisturbed_outcome :
      ((k : ℕ) → shutdown k ≡ false)
      → ((s : S) → Inv s → (store.prune_batch_erased cutoff s).0 ≢ none)
      → (fuel batches deleted : ℕ) (w : World S) (r : Report) (w' : World S) → Inv w.store
      → prune_loop shutdown store cutoff fuel batches deleted w ≡ some (r, w')
      → r.outcome ≡ completed
  unfolding prune_loop
  undisturbed_outcome go ok zero batches deleted w r w' v h = cc
  undisturbed_outcome go ok (suc fuel) batches deleted w r w' v h = ground (
    arith,
    go w.reads,
    ok w.store v,
    undisturbed_outcome go ok fuel (batches + 1)
        (min (2 ^ 64 - 1) (deleted + value (store.prune_batch_erased cutoff w.store).0))
        (record { store = (store.prune_batch_erased cutoff w.store).1; reads = suc w.reads }) r w'
        (laws.keeps w.store v),
  )

  -- Where no shutdown comes and SQLite serves every batch, the loop over a store that meets the
  -- laws, with that fuel, returns, logs completion, and
  -- leaves no row older than the cutoff.
  pub prune_store_completes :
      ((k : ℕ) → shutdown k ≡ false)
      → ((s : S) → Inv s → (store.prune_batch_erased cutoff s).0 ≢ none)
      → (fuel : ℕ) (w : World S) → Inv w.store
      → remaining w.store < fuel * full_prune_batch_size
      → (r : Report) × (w' : World S) × (prune_store shutdown fuel store (some cutoff) w
          ≡ some (r, w'))
        × (r.outcome ≡ completed)
        × (remaining w'.store ≡ 0)
  unfolding prune_store
  prune_store_completes go ok fuel w v h =
      elim (Option-cases (prune_store shutdown fuel store (some cutoff) w)) [
        | inl e ↦ absurd (prune_store_returns fuel w v h e)
        | inr ((r, w'), e) ↦
            let done = undisturbed_outcome go ok fuel 0 0 w r w' v e in
            (r, w', e, done, prune_store_clears fuel w w' r v h e done)
      ]
