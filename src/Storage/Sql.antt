-- ===== src/Storage/Sql.antt =====
-- src/storage/mod.rs: what the stores see of SQLite through sqlx. A session holds the committed
-- database, the one that the open transaction works on, and the failures that the next calls meet.
pub mod Keeps
use github_webhook_exporter.Prelude.{
  ℕ, ◌-◌, ◌%◌, ◌==◌, ◌||◌, Bool, false, Option, none, some, List, [], ◌∷◌, Text, ℤ, pos, negsuc,
  parse_i32, Result, ok, err,
}

-- `as_database_error` is `none`, or has a code and tells unique violations.
pub data SqlxError : Type 0 where
  database : (code : Option Text) → (is_unique_violation : Bool) → SqlxError
  other : SqlxError

-- `code & 0xff` in two's complement.
abbrev low_byte : ℤ → ℕ
low_byte (pos n) = n % 256
low_byte (negsuc n) = 255 - n % 256

abbrev primary_is_5_or_6 : Option ℤ → Bool
primary_is_5_or_6 none = false
primary_is_5_or_6 (some code) = low_byte code == 5 || low_byte code == 6

unfoldable pub sqlite_is_busy_or_locked : SqlxError → Bool
unfolding parse_i32
sqlite_is_busy_or_locked (database (some code) _) = primary_is_5_or_6 (parse_i32 code)
sqlite_is_busy_or_locked (database none _) = false
sqlite_is_busy_or_locked other = false

pub record Session {ℓ} (D : Type ℓ) : Type ℓ where
  pub committed : D
  pub working : D
  -- One entry for each coming call, `none` for a call that SQLite serves; none are left at the end.
  pub faults : List (Option SqlxError)

abbrev pub Sql {ℓ κ} : Type ℓ → Type κ → Type ℓ → Type (ℓ ⊔ κ)
Sql D E A = Session D → Result E A × Session D

-- The fault of the next call, and the session after it.
abbrev next_fault {ℓ} :
    {D : Type ℓ} → List (Option SqlxError) → Session D → Option SqlxError × Session D
next_fault [] s = (none, s)
next_fault (f ∷ fs) s = (f, record s { faults = fs })

module _ {ℓ κ} {D : Type ℓ} {E : Type κ} (map_error : SqlxError → E) where
  abbrev served :
      {A : Type ℓ}
      → Option SqlxError × Session D
      → (Session D → Result E A × Session D)
      → Result E A × Session D
  served (none, s) run = run s
  served (some e, s) run = (err (map_error e), s)

  -- `pool.begin()`.
  unfoldable pub begin : Sql D E D
  begin s =
      served (next_fault s.faults s) (λ t. (ok t.committed, record t { working = t.committed }))

  -- `transaction.commit()`. One that fails is rolled back.
  unfoldable pub commit : Sql D E D
  commit s =
      served (next_fault s.faults s) (λ t. (ok t.working, record t { committed = t.working }))

  abbrev applied :
      {A : Type ℓ} → Result SqlxError (A × D) → (D → Session D) → Session D → Result E A × Session D
  applied (ok (a, d)) store s = (ok a, store d)
  applied (err e) store s = (err (map_error e), s)

  -- A statement of the open transaction. One that fails changes nothing.
  unfoldable pub in_transaction : {A : Type ℓ} → (D → Result SqlxError (A × D)) → Sql D E A
  in_transaction statement s =
      served (next_fault s.faults s)
        λ t. applied (statement t.working) (λ d. record t { working = d }) t

  -- A statement on the pool, which commits by itself.
  unfoldable pub on_pool : {A : Type ℓ} → (D → Result SqlxError (A × D)) → Sql D E A
  on_pool statement s =
      served (next_fault s.faults s)
        λ t. applied (statement t.committed) (λ d. record t { committed = d }) t

abbrev continue {ℓ κ} :
    {D : Type ℓ} {E : Type κ} {A B : Type ℓ}
    → Result E A × Session D
    → (A → Sql D E B)
    → Result E B × Session D
continue (ok a, s) f = f a s
continue (err e, s) f = (err e, s)

infixl 5 ◌>>=◌ ◌>>◌
abbrev pub ◌>>=◌ {ℓ κ} :
    {D : Type ℓ} {E : Type κ} {A B : Type ℓ} → Sql D E A → (A → Sql D E B) → Sql D E B
◌>>=◌ m f s = continue (m s) f

abbrev pub ◌>>◌ {ℓ κ} : {D : Type ℓ} {E : Type κ} {A B : Type ℓ} → Sql D E A → Sql D E B → Sql D E B
m >> k = m >>= λ _. k

-- A result that needs no call.
abbrev pub lift {ℓ κ} : {D : Type ℓ} {E : Type κ} {A : Type ℓ} → Result E A → Sql D E A
lift r s = (r, s)
