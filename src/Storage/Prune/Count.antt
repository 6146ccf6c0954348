-- ===== src/Storage/Prune/Count.antt =====
-- The rows that the bounded deletion of the stores removes, and those that it leaves.
use github_webhook_exporter.Prelude.{
  ℕ, zero, suc, ◌+◌, min, ◌≡◌, refl, ap, ◌∙◌, ◌==◌, ◌||◌, Bool, true, false, not, List, [], ◌∷◌,
  map, arith, keep, length, take, mem, Text, Distinct, mem-take, Distinct-take, mem-map-keep,
  Distinct-map-keep, length-take, length-map, All,
}
use github_webhook_exporter.Storage.Prune.{
  Columns, eligible, insert, sort, victims, delete_ids, prune,
}

module _ {ℓ} {A : Type ℓ} (c : Columns A) where
  abbrev ids : List A → List ℕ
  ids = map c.id

  mem-insert :
      (k : ℕ) (r : A) (rows : List A)
      → mem k (ids (insert c r rows)) ≡ (k == c.id r || mem k (ids rows))
  unfolding insert
  mem-insert k r [] = refl
  mem-insert k r (s ∷ rows) = ground (arith, mem-insert k r rows)

  pub mem-sort : (k : ℕ) (rows : List A) → mem k (ids (sort c rows)) ≡ mem k (ids rows)
  unfolding sort
  mem-sort k [] = refl
  mem-sort k (r ∷ rows) = ground (arith, mem-insert k r (sort c rows), mem-sort k rows)

  Distinct-insert :
      (r : A) (rows : List A)
      → mem (c.id r) (ids rows) ≡ false
      → Distinct (ids rows)
      → Distinct (ids (insert c r rows))
  unfolding insert
  Distinct-insert r [] m d = (m, d)
  Distinct-insert r (s ∷ rows) m d =
      ground (arith, Distinct-insert r rows, mem-insert (c.id s) r rows)

  Distinct-sort : (rows : List A) → Distinct (ids rows) → Distinct (ids (sort c rows))
  unfolding sort
  Distinct-sort [] d = tt
  Distinct-sort (r ∷ rows) d =
      Distinct-insert r (sort c rows) (mem-sort (c.id r) rows ∙ d.0) (Distinct-sort rows d.1)

  length-insert : (r : A) (rows : List A) → length (insert c r rows) ≡ suc (length rows)
  unfolding insert
  length-insert r [] = refl
  length-insert r (s ∷ rows) = ground (arith, length-insert r rows)

  length-sort : (rows : List A) → length (sort c rows) ≡ length rows
  unfolding sort
  length-sort [] = refl
  length-sort (r ∷ rows) = ground (arith, length-insert r (sort c rows), length-sort rows)

  count_none :
      (k : ℕ) (rows : List A) → mem k (ids rows) ≡ false → length (keep (λ r. c.id r == k) rows) ≡ 0
  count_none k [] h = refl
  count_none k (r ∷ rows) h = ground (arith, count_none k rows)

  count_one :
      (k : ℕ) (rows : List A)
      → Distinct (ids rows)
      → mem k (ids rows) ≡ true
      → length (keep (λ r. c.id r == k) rows) ≡ 1
  count_one k [] d h = cc
  count_one k (r ∷ rows) d h = ground (arith, count_one k rows d.1, count_none k rows)

  count_cons :
      (k : ℕ) (ks : List ℕ) (rows : List A)
      → mem k ks ≡ false
      → length (keep (λ r. mem (c.id r) (k ∷ ks)) rows)
        ≡ length (keep (λ r. c.id r == k) rows) + length (keep (λ r. mem (c.id r) ks) rows)
  count_cons k ks [] h = omega arith
  count_cons k ks (r ∷ rows) h = ground (arith, count_cons k ks rows h)

  count_nil : (rows : List A) → length (keep (λ r. mem (c.id r) []) rows) ≡ 0
  count_nil [] = refl
  count_nil (r ∷ rows) = count_nil rows

  -- Distinct keys that all stand in the table name as many rows.
  count_mem :
      (ks : List ℕ) (rows : List A)
      → Distinct (ids rows)
      → Distinct ks
      → ((k : ℕ) → mem k ks ≡ true → mem k (ids rows) ≡ true)
      → length (keep (λ r. mem (c.id r) ks) rows) ≡ length ks
  count_mem [] rows d dk sub = count_nil rows
  count_mem (k ∷ ks) rows d dk sub = omega (
    arith,
    count_cons k ks rows dk.0,
    count_one k rows d (sub k (ground arith)),
    count_mem ks rows d dk.1 (λ j h. sub j (ground arith)),
  )

  map-take : (n : ℕ) (rows : List A) → ids (take n rows) ≡ take n (ids rows)
  map-take zero rows = refl
  map-take (suc n) [] = refl
  map-take (suc n) (r ∷ rows) = ap (◌∷◌ (c.id r)) (map-take n rows)

  victims-eligible :
      (limit : ℕ) (cutoff : Text) (rows : List A) (k : ℕ)
      → mem k (victims c limit cutoff rows) ≡ true
      → mem k (ids (keep (eligible c cutoff) rows)) ≡ true
  unfolding victims
  victims-eligible limit cutoff rows k h = ground (
    arith,
    map-take limit (sort c (keep (eligible c cutoff) rows)),
    mem-take limit k (ids (sort c (keep (eligible c cutoff) rows))),
    mem-sort k (keep (eligible c cutoff) rows),
  )

  victims-Distinct :
      (limit : ℕ) (cutoff : Text) (rows : List A)
      → Distinct (ids rows)
      → Distinct (victims c limit cutoff rows)
  unfolding victims
  victims-Distinct limit cutoff rows d =
      rw (map-take limit (sort c (keep (eligible c cutoff) rows))) (
        Distinct-take limit (ids (sort c (keep (eligible c cutoff) rows))) (
          Distinct-sort (keep (eligible c cutoff) rows)
            (Distinct-map-keep c.id (eligible c cutoff) rows d)))

  length-victims :
      (limit : ℕ) (cutoff : Text) (rows : List A)
      → length (victims c limit cutoff rows) ≡ min limit (length (keep (eligible c cutoff) rows))
  unfolding victims
  length-victims limit cutoff rows =
      length-map (take limit (sort c (keep (eligible c cutoff) rows))) c.id
      ∙ length-take limit (sort c (keep (eligible c cutoff) rows))
      ∙ ap (min limit) (length-sort (keep (eligible c cutoff) rows))

  -- A batch over rows of distinct keys reports as many deletions as there are eligible rows, up
  -- to its limit.
  pub prune-count :
      (limit : ℕ) (cutoff : Text) (rows : List A)
      → Distinct (ids rows)
      → (prune c limit cutoff rows).0 ≡ min limit (length (keep (eligible c cutoff) rows))
  unfolding prune
  prune-count limit cutoff rows d =
      count_mem (victims c limit cutoff rows) rows d (victims-Distinct limit cutoff rows d) (λ k h.
        mem-map-keep c.id k (eligible c cutoff) rows (victims-eligible limit cutoff rows k h))
      ∙ length-victims limit cutoff rows

  -- With distinct keys, a key that a kept row has is the key of no other row.
  kept_rows :
      (p : A → Bool) (ks : List ℕ) (rows : List A)
      → Distinct (ids rows)
      → ((k : ℕ) → mem k ks ≡ true → mem k (ids rows) ≡ true → mem k (ids (keep p rows)) ≡ true)
      → All (λ r. mem (c.id r) ks ≡ true → p r ≡ true) rows
  kept_rows p ks [] d h = tt
  kept_rows p ks (r ∷ rows) d h = (
    λ m. ground (arith, h (c.id r) m, mem-map-keep c.id (c.id r) p rows),
    kept_rows p ks rows d.1 (λ k m n. ground (arith, h k m)),
  )

  keep-delete :
      (p : A → Bool) (ks : List ℕ) (rows : List A)
      → All (λ r. mem (c.id r) ks ≡ true → p r ≡ true) rows
      → keep (λ r. not (p r)) (delete_ids c ks rows) ≡ keep (λ r. not (p r)) rows
  unfolding delete_ids
  keep-delete p ks [] h = refl
  keep-delete p ks (r ∷ rows) h = ground (arith, h.0, keep-delete p ks rows h.1)

  count-delete :
      (p : A → Bool) (ks : List ℕ) (rows : List A)
      → All (λ r. mem (c.id r) ks ≡ true → p r ≡ true) rows
      → length (keep p (delete_ids c ks rows)) + length (keep (λ r. mem (c.id r) ks) rows)
        ≡ length (keep p rows)
  unfolding delete_ids
  count-delete p ks [] h = omega arith
  count-delete p ks (r ∷ rows) h = ground (arith, h.0, count-delete p ks rows h.1)

  victims-kept :
      (limit : ℕ) (cutoff : Text) (rows : List A)
      → Distinct (ids rows)
      → All
          (λ r. mem (c.id r) (victims c limit cutoff rows) ≡ true → eligible c cutoff r ≡ true)
          rows
  victims-kept limit cutoff rows d =
      kept_rows (eligible c cutoff) (victims c limit cutoff rows) rows d
        λ k m n. victims-eligible limit cutoff rows k m

  -- A batch leaves every row that is not eligible, in order, and takes what it reports from the
  -- eligible ones.
  pub prune-keeps :
      (limit : ℕ) (cutoff : Text) (rows : List A)
      → Distinct (ids rows)
      → (keep (λ r. not (eligible c cutoff r)) (prune c limit cutoff rows).1
          ≡ keep (λ r. not (eligible c cutoff r)) rows)
        × (length (keep (eligible c cutoff) (prune c limit cutoff rows).1)
              + (prune c limit cutoff rows).0
            ≡ length (keep (eligible c cutoff) rows))
  unfolding prune
  prune-keeps limit cutoff rows d = (
    keep-delete (eligible c cutoff) (victims c limit cutoff rows) rows
        (victims-kept limit cutoff rows d),
    count-delete (eligible c cutoff) (victims c limit cutoff rows) rows
        (victims-kept limit cutoff rows d),
  )

  -- The keys that are left are distinct.
  pub prune-Distinct :
      (limit : ℕ) (cutoff : Text) (rows : List A)
      → Distinct (ids rows)
      → Distinct (ids (prune c limit cutoff rows).1)
  unfolding prune delete_ids
  prune-Distinct limit cutoff rows d = Distinct-map-keep c.id _ rows d
