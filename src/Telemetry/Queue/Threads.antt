-- ===== src/Telemetry/Queue/Threads.antt =====
-- Threads by number: one thread's step changes a sum over all threads by that thread's share.
use github_webhook_exporter.Prelude.{
  ℕ, zero, suc, ◌+◌, ◌≤◌, ◌<◌, ◌≡◌, refl, Bool-cases, inl, inr, ◌==◌, ==_iff, arith, if◌then◌else◌,
}

module _ {ℓ} {P : Type ℓ} where
  abbrev pub assign : (ℕ → P) → ℕ → P → ℕ → P
  assign threads i p j = if i == j then p else threads j

  module _ (share : P → ℕ) where
    pub sum_shares : ℕ → (ℕ → P) → ℕ
    sum_shares zero threads = 0
    sum_shares (suc n) threads = share (threads n) + sum_shares n threads

    pub sum-assign_outside :
        (n i : ℕ) (threads : ℕ → P) (p : P)
        → n ≤ i
        → sum_shares n (assign threads i p) ≡ sum_shares n threads
    unfolding sum_shares
    sum-assign_outside zero i threads p h = refl
    sum-assign_outside (suc n) i threads p h = ground (arith, sum-assign_outside n i threads p)

    pub sum-assign :
        (n i : ℕ) (threads : ℕ → P) (p : P)
        → i < n
        → sum_shares n (assign threads i p) + share (threads i) ≡ sum_shares n threads + share p
    unfolding sum_shares
    sum-assign zero i threads p h = absurd (omega arith)
    sum-assign (suc n) i threads p h = elim (Bool-cases (i == n)) [
      | inl last ↦ ground (arith, sum-assign_outside n i threads p)
      | inr before ↦ ground (arith, sum-assign n i threads p)
    ]

    pub sum_zero : (n : ℕ) (p : P) → share p ≡ 0 → sum_shares n (λ _. p) ≡ 0
    unfolding sum_shares
    sum_zero zero p h = refl
    sum_zero (suc n) p h = omega (arith, h, sum_zero n p h)

    pub share-le-sum :
        (n i : ℕ) (threads : ℕ → P) → i < n → share (threads i) ≤ sum_shares n threads
    unfolding sum_shares
    share-le-sum zero i threads h = absurd (omega arith)
    share-le-sum (suc n) i threads h = elim (Bool-cases (i == n)) [
      | inl last ↦ ground arith
      | inr before ↦ ground (arith, share-le-sum n i threads)
    ]

sums-le {ℓ} :
    {P : Type ℓ} (small large : P → ℕ)
    → ((p : P) → small p ≤ large p)
    → (n : ℕ) (threads : ℕ → P) → sum_shares small n threads ≤ sum_shares large n threads
unfolding sum_shares
sums-le small large h zero threads = omega arith
sums-le small large h (suc n) threads =
    omega (arith, h (threads n), sums-le small large h n threads)

-- If each thread's share is at most its other share, one thread's excess is within the whole.
pub sums-excess {ℓ} :
    {P : Type ℓ} (small large : P → ℕ)
    → ((p : P) → small p ≤ large p)
    → (n i : ℕ) (threads : ℕ → P) → i < n
    → sum_shares small n threads + large (threads i)
      ≤ sum_shares large n threads + small (threads i)
unfolding sum_shares
sums-excess small large h zero i threads lt = absurd (omega arith)
sums-excess small large h (suc n) i threads lt = elim (Bool-cases (i == n)) [
  | inl last ↦ rw ((==_iff i n).0 last) (omega (arith, sums-le small large h n threads))
  | inr before ↦ omega (arith, h (threads n), sums-excess small large h n i threads (ground arith))
]
