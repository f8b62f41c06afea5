-- ===== src/Db/Keeps.antt =====
-- Invariants of the tables, one rule for each way to build an action. An action keeps an invariant
-- whichever statements fail.
use squirreld.Prelude.{Bool, true, false, if◌then◌else◌}
use squirreld.Error.{Result, ok, err, panic}
use squirreld.Db.Sql.{
  Db, Conn, Sql, continue, ◌>>=◌, pure, lift, exec, next_fails, next_faults, commit_or_rollback,
  transaction,
}

pub record Keeps {A : Type 0} (P : Db → Type 0) (m : Sql A) : Type 0 where
  pub at : (c : Conn) → P c.tables → P (m c).1.tables

module _ {A : Type 0} (P : Db → Type 0) where
  if_at :
      (b : Bool) (x y : Result A × Conn)
      → P x.1.tables
      → P y.1.tables
      → P (if b then x else y).1.tables
  if_at true x y hx hy = hx
  if_at false x y hx hy = hy

  rollback_at :
      (before : Db) (r : Result A) (c : Conn)
      → P before
      → P c.tables
      → P (commit_or_rollback before r c).1.tables
  rollback_at before (ok a) c hb h = if_at (next_fails c.faults) _ _ hb h
  rollback_at before (err e) c hb h = hb
  rollback_at before panic c hb h = hb

module _ {A : Type 0} {P : Db → Type 0} where
  pub Keeps-lift : (r : Result A) → Keeps P (lift r)
  Keeps-lift r = record { at = λ c h. h }

  pub Keeps-pure : (a : A) → Keeps P (pure a)
  Keeps-pure a = record { at = λ c h. h }

  pub Keeps-exec : (f : Db → Result A × Db) → ((d : Db) → P d → P (f d).1) → Keeps P (exec f)
  unfolding exec
  Keeps-exec f keep = record { at = λ c h. if_at P (next_fails c.faults) _ _ h (keep c.tables h) }

  pub Keeps-transaction : (m : Sql A) → Keeps P m → Keeps P (transaction m)
  unfolding transaction
  Keeps-transaction m k = record {
    at = λ c h.
        let inside : Conn = record c { faults = next_faults c.faults } in
        if_at P (next_fails c.faults) _ _ h
          (rollback_at P c.tables (m inside).0 (m inside).1 h (k.at inside h));
  }

module _ {A B : Type 0} (P : Db → Type 0) where
  continue_at :
      (r : Result A) (f : A → Sql B) (c : Conn)
      → ((a : A) → Keeps P (f a))
      → P c.tables
      → P (continue r f c).1.tables
  continue_at (ok a) f c kf h = (kf a).at c h
  continue_at (err e) f c kf h = h
  continue_at panic f c kf h = h

module _ {A B : Type 0} {P : Db → Type 0} where
  pub Keeps-bind :
      (m : Sql A) (f : A → Sql B) → Keeps P m → ((a : A) → Keeps P (f a)) → Keeps P (m >>= f)
  Keeps-bind m f km kf = record { at = λ c h. continue_at P (m c).0 f (m c).1 kf (km.at c h) }

pub ruleset keeps_rules = (Keeps-lift, Keeps-pure, Keeps-bind, Keeps-transaction)
