-- ===== src/Storage/Upsert.antt =====
-- The statement `INSERT … ON CONFLICT(…) DO UPDATE` of src/storage/required_check_store.rs,
-- workflow_run_store.rs and workflow_job_link_store.rs, on the rows of any table with a `rowid`.
use github_webhook_exporter.Prelude.{
  ℕ, ◌+◌, ◌≡◌, refl, Bool, Bool-cases, inl, inr, true, false, not, List, [], ◌∷◌, ◌++◌, any, find,
  none, some, lit, ltb, Result, ok, err, ok_inj, err_not_ok, arith, if◌then◌else◌,
}
use github_webhook_exporter.Storage.Sql.{SqlxError, database}

-- SQLite's extended result codes for a failed CHECK and a failed foreign key.
abbrev pub check_failed : SqlxError
check_failed = database (some (lit "275")) false

abbrev pub foreign_key_failed : SqlxError
foreign_key_failed = database (some (lit "787")) false

module _ {A : Type 0} (rowid : A → ℕ) where
  -- One more than the largest `rowid` in use.
  unfoldable pub fresh_rowid : List A → ℕ
  fresh_rowid [] = 1
  fresh_rowid (r ∷ rs) =
      let rest = fresh_rowid rs in if ltb (rowid r) rest then rest else rowid r + 1

  -- The UPDATE of the rows in conflict, which keep their `rowid`.
  unfoldable pub replace_rows : (A → Bool) → (ℕ → A) → List A → List A
  replace_rows conflicts row [] = []
  replace_rows conflicts row (r ∷ rs) =
      (if conflicts r then row (rowid r) else r) ∷ replace_rows conflicts row rs

  -- The table after the statement: `checked` says that the row meets the CHECK constraints, and
  -- `referenced` that its foreign key is there.
  unfoldable pub upsert :
      (checked referenced : Bool) → (A → Bool) → (ℕ → A) → List A → Result SqlxError (List A)
  unfolding fresh_rowid replace_rows
  upsert checked referenced conflicts row rows =
      if not checked
      then err check_failed
      else if any conflicts rows
      then ok (replace_rows conflicts row rows)
      else if not referenced
      then err foreign_key_failed
      else ok (rows ++ row (fresh_rowid rows) ∷ [])

  module _ (conflicts : A → Bool) (row : ℕ → A) where
    -- A test that only rows in conflict can pass.
    module _ (p : A → Bool) (only : (r : A) → conflicts r ≡ false → p r ≡ false) where
      found_replaced :
          (rows : List A)
          → ((k : ℕ) → p (row k) ≡ true)
          → any conflicts rows ≡ true
          → (k : ℕ) × (find p (replace_rows conflicts row rows) ≡ some (row k))
      unfolding replace_rows
      found_replaced [] h e = cc
      found_replaced (r ∷ rs) h e = elim (Bool-cases (conflicts r)) [
        | inl c ↦ (rowid r, rw (c, h (rowid r)) refl)
        | inr c ↦ rw (c, replace_rows, only r c) (found_replaced rs h (rw c at e))
      ]

      found_appended :
          (rows : List A) (k : ℕ)
          → p (row k) ≡ true
          → any conflicts rows ≡ false
          → find p (rows ++ row k ∷ []) ≡ some (row k)
      found_appended [] k h e = ground arith
      found_appended (r ∷ rs) k h e = ground (arith, only r, found_appended rs k)

      -- After the statement, the test finds the row that was given, if that row passes it.
      pub find-upsert :
          (checked referenced : Bool) (rows rows' : List A)
          → ((k : ℕ) → p (row k) ≡ true)
          → upsert checked referenced conflicts row rows ≡ ok rows'
          → (k : ℕ) × (find p rows' ≡ some (row k))
      unfolding upsert
      find-upsert false referenced rows rows' h e = cc
      find-upsert true referenced rows rows' h e = elim (Bool-cases (any conflicts rows)) [
        | inl c ↦ rw (← ok_inj _ _ (rw c at e)) (found_replaced rows h c)
        | inr c ↦ elim (Bool-cases referenced) [
          | inl d ↦
              (fresh_rowid rows, rw (← ok_inj _ _ (rw (c, d) at e)) (found_appended rows _ (h _) c))
          | inr d ↦ absurd (err_not_ok (rw (c, d) at e))
        ]
      ]

      none_replaced :
          (rows : List A)
          → ((k : ℕ) → p (row k) ≡ false)
          → find p (replace_rows conflicts row rows) ≡ none
      unfolding replace_rows
      none_replaced [] h = refl
      none_replaced (r ∷ rs) h = ground (arith, only r, h (rowid r), none_replaced rs h)

      none_appended :
          (rows : List A) (k : ℕ)
          → p (row k) ≡ false
          → any conflicts rows ≡ false
          → find p (rows ++ row k ∷ []) ≡ none
      none_appended [] k h e = ground arith
      none_appended (r ∷ rs) k h e = ground (arith, only r, none_appended rs k)

      -- It finds nothing, if that row does not pass it.
      pub find-upsert-none :
          (checked referenced : Bool) (rows rows' : List A)
          → ((k : ℕ) → p (row k) ≡ false)
          → upsert checked referenced conflicts row rows ≡ ok rows'
          → find p rows' ≡ none
      unfolding upsert
      find-upsert-none false referenced rows rows' h e = cc
      find-upsert-none true referenced rows rows' h e = elim (Bool-cases (any conflicts rows)) [
        | inl c ↦ rw (← ok_inj _ _ (rw c at e)) (none_replaced rows h)
        | inr c ↦ elim (Bool-cases referenced) [
          | inl d ↦ rw (← ok_inj _ _ (rw (c, d) at e)) (none_appended rows _ (h _) c)
          | inr d ↦ absurd (err_not_ok (rw (c, d) at e))
        ]
      ]

    kept_replaced :
        (q : A → Bool) (rows : List A)
        → ((r : A) → conflicts r ≡ true → q r ≡ false)
        → ((k : ℕ) → q (row k) ≡ false)
        → find q (replace_rows conflicts row rows) ≡ find q rows
    unfolding replace_rows
    kept_replaced q [] apart h = refl
    kept_replaced q (r ∷ rs) apart h =
        ground (arith, apart r, h (rowid r), kept_replaced q rs apart h)

    kept_appended :
        (q : A → Bool) (rows : List A) (k : ℕ)
        → q (row k) ≡ false
        → find q (rows ++ row k ∷ []) ≡ find q rows
    kept_appended q [] k h = ground arith
    kept_appended q (r ∷ rs) k h = ground (arith, kept_appended q rs k)

    -- What is found by another key stays.
    pub find-upsert_other :
        (checked referenced : Bool) (q : A → Bool) (rows rows' : List A)
        → ((r : A) → conflicts r ≡ true → q r ≡ false)
        → ((k : ℕ) → q (row k) ≡ false)
        → upsert checked referenced conflicts row rows ≡ ok rows'
        → find q rows' ≡ find q rows
    unfolding upsert
    find-upsert_other false referenced q rows rows' apart h e = cc
    find-upsert_other true referenced q rows rows' apart h e =
        elim (Bool-cases (any conflicts rows)) [
          | inl c ↦ rw (← ok_inj _ _ (rw c at e)) (kept_replaced q rows apart h)
          | inr c ↦ elim (Bool-cases referenced) [
            | inl d ↦ rw (← ok_inj _ _ (rw (c, d) at e)) (kept_appended q rows _ (h _))
            | inr d ↦ absurd (err_not_ok (rw (c, d) at e))
          ]
        ]

    -- A row that meets the constraints is stored.
    pub upsert_served :
        (rows : List A) → (rows' : List A) × (upsert true true conflicts row rows ≡ ok rows')
    unfolding upsert
    upsert_served rows = elim (Bool-cases (any conflicts rows)) [
      | inl c ↦ (replace_rows conflicts row rows, rw c refl)
      | inr c ↦ (rows ++ row (fresh_rowid rows) ∷ [], rw c refl)
    ]
