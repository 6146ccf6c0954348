-- ===== src/Storage/Prune.antt =====
-- The bounded deletion that every store runs:
-- `DELETE … WHERE id IN (SELECT id … WHERE stamp < ? ORDER BY stamp, id LIMIT ?)`,
-- over the rows of any table.
pub mod Count
use github_webhook_exporter.Prelude.{
  ℕ, ◌==◌, ◌&&◌, ◌||◌, Bool, not, Option, none, some, List, [], ◌∷◌, map, keep, length, take, mem,
  Text, text_eq, text_lt, leb, false, if◌then◌else◌,
}

abbrev pub prune_batch_size : ℕ
prune_batch_size = 1000

-- The columns that the statement reads: the key, and the time stamp, which may be NULL.
pub record Columns {ℓ} (A : Type ℓ) : Type ℓ where
  pub id : A → ℕ
  pub stamp : A → Option Text

module _ {ℓ} {A : Type ℓ} (c : Columns A) where
  abbrev stamp_before : Text → Option Text → Bool
  stamp_before cutoff none = false
  stamp_before cutoff (some t) = text_lt t cutoff

  -- `stamp IS NOT NULL AND stamp < cutoff`.
  unfoldable pub eligible : Text → A → Bool
  eligible cutoff r = stamp_before cutoff (c.stamp r)

  abbrev stamps_in_order : Option Text → Option Text → Bool → Bool
  stamps_in_order none s ids = false
  stamps_in_order (some t) none ids = false
  stamps_in_order (some t) (some u) ids = text_lt t u || (text_eq t u && ids)

  -- `ORDER BY stamp, id`.
  unfoldable pub in_order : A → A → Bool
  in_order r s = stamps_in_order (c.stamp r) (c.stamp s) (leb (c.id r) (c.id s))

  pub insert : A → List A → List A
  insert r [] = r ∷ []
  insert r (s ∷ rows) = if in_order r s then r ∷ s ∷ rows else s ∷ insert r rows

  pub sort : List A → List A
  sort [] = []
  sort (r ∷ rows) = insert r (sort rows)

  -- The inner SELECT.
  unfoldable pub victims : ℕ → Text → List A → List ℕ
  unfolding eligible in_order insert sort
  victims limit cutoff rows = map c.id (take limit (sort (keep (eligible cutoff) rows)))

  unfoldable pub delete_ids : List ℕ → List A → List A
  delete_ids ids rows = keep (λ r. not (mem (c.id r) ids)) rows

  -- The rows that are left, and `rows_affected`.
  unfoldable pub prune : ℕ → Text → List A → ℕ × List A
  unfolding victims delete_ids
  prune limit cutoff rows =
      let ids = victims limit cutoff rows in
      (length (keep (λ r. mem (c.id r) ids) rows), delete_ids ids rows)
