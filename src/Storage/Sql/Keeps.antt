-- ===== src/Storage/Sql/Keeps.antt =====
-- Properties of the committed database that single statements keep.
use github_webhook_exporter.Prelude.{
  ◌≡◌, refl, sym, subst, Option, none, some, List, [], ◌∷◌, Result, ok, err, ok_or,
}
use github_webhook_exporter.Storage.Sql.{
  Session, SqlxError, Sql, next_fault, served, applied, on_pool, lift, ◌>>=◌,
}

module _ {ℓ κ} {D : Type ℓ} {E : Type κ} {A : Type ℓ} (P : D → Type ℓ) where
  applied-keeps :
      (map_error : SqlxError → E) (t : Session D) (r : Result SqlxError (A × D))
      → P t.committed
      → ((e : D) (a : A) → r ≡ ok (a, e) → P e)
      → P (applied map_error r (λ d. record t { committed = d }) t).1.committed
  applied-keeps map_error t (ok (a, e)) h k = k e a refl
  applied-keeps map_error t (err e) h k = h

  served-keeps :
      (map_error : SqlxError → E) (run : Session D → Result E A × Session D) (s : Session D)
      (fs : List (Option SqlxError))
      → P s.committed
      → ((t : Session D) → t.committed ≡ s.committed → P (run t).1.committed)
      → P (served map_error (next_fault fs s) run).1.committed
  served-keeps map_error run s [] h k = k s refl
  served-keeps map_error run s (none ∷ fs) h k = k (record s { faults = fs }) refl
  served-keeps map_error run s (some e ∷ fs) h k = h

  -- A statement on the pool keeps what it keeps where it succeeds.
  pub on_pool-keeps :
      (map_error : SqlxError → E) (statement : D → Result SqlxError (A × D)) (s : Session D)
      → P s.committed
      → ((d e : D) (a : A) → P d → statement d ≡ ok (a, e) → P e)
      → P (on_pool map_error statement s).1.committed
  unfolding on_pool
  on_pool-keeps map_error statement s h keeps = served-keeps map_error _ s s.faults h λ t e.
      let ht : P t.committed = subst P (sym e) h in
      applied-keeps map_error t (statement t.committed) ht λ d a r. keeps t.committed d a ht r

module _ {ℓ κ} {D : Type ℓ} {E : Type κ} {A B : Type ℓ} (P : D → Type ℓ) where
  -- A value that may be missing ends the operation before any call.
  pub lift_option-keeps :
      (s : Session D) (o : Option A) (e : E) (k : A → Sql D E B)
      → P s.committed
      → ((a : A) → P (k a s).1.committed)
      → P ((lift (ok_or o e) >>= k) s).1.committed
  lift_option-keeps s none e k h keeps = h
  lift_option-keeps s (some a) e k h keeps = keeps a
