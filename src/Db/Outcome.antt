-- ===== src/Db/Outcome.antt =====
-- What is known of the tables after a statement or a transaction that returned, and after one that
-- did not.
use squirreld.Prelude.{◌≡◌, refl, arith, Bool, true, false, Bool-cases, inl, inr}
use squirreld.Error.{Result, ok, err, panic}
use squirreld.Db.Sql.{
  Db, Conn, Sql, continue, ◌>>=◌, write, query, exec, next_fails, next_faults, transaction,
}

abbrev pub is_ok : {A : Type 0} → Result A → Bool
is_ok (ok a) = true
is_ok (err e) = false
is_ok panic = false

-- A write that goes on has written.
pub write-bind_ok :
    {B : Type 0} (f : Db → Db) (k : Unit {0} → Sql B) (c : Conn) (b : B)
    → ((write f >>= k) c).0 ≡ ok b
    → (c' : Conn) × (c'.tables ≡ f c.tables) × ((write f >>= k) c ≡ k tt c')
unfolding exec
write-bind_ok f k c b h = elim (Bool-cases (next_fails c.faults)) [
  | inl fails ↦ absurd (ground arith)
  | inr runs ↦ (record { tables = f c.tables; faults = next_faults c.faults }, refl, rw runs)
]

-- A transaction that returns has run its body from the same tables, and keeps what the body wrote.
pub transaction_ok :
    {A : Type 0} (m : Sql A) (c : Conn) (a : A)
    → (transaction m c).0 ≡ ok a
    → (c' : Conn) × (c'.tables ≡ c.tables)
      × ((m c').0 ≡ ok a)
      × ((transaction m c).1.tables ≡ (m c').1.tables)
unfolding transaction
transaction_ok m c a h =
    (record c { faults = next_faults c.faults }, refl, ground arith, ground arith)

-- A transaction that does not return a value leaves the tables as they were.
pub transaction_rollback :
    {A : Type 0} (m : Sql A) (c : Conn)
    → is_ok (transaction m c).0 ≡ false
    → (transaction m c).1.tables ≡ c.tables
unfolding transaction
transaction_rollback m c h = ground arith

-- A chain that returns has returned from both its parts.
pub bind_ok :
    {A B : Type 0} (m : Sql A) (f : A → Sql B) (c : Conn) (b : B)
    → ((m >>= f) c).0 ≡ ok b
    → (a : A) × ((m c).0 ≡ ok a) × ((m >>= f) c ≡ f a (m c).1) × ((f a (m c).1).0 ≡ ok b)
bind_ok {A} {B} m f c b h = go (m c).0 refl h
  where
    go :
        (r : Result A)
        → (m c).0 ≡ r
        → (continue r f (m c).1).0 ≡ ok b
        → (a : A) × ((m c).0 ≡ ok a) × ((m >>= f) c ≡ f a (m c).1) × ((f a (m c).1).0 ≡ ok b)
    go (ok a) e h = (a, e, rw e refl, h)
    go (err x) e h = absurd (cc)
    go panic e h = absurd (cc)

-- A read that returns gives what it reads, and changes no table.
pub query_ok :
    {A : Type 0} (f : Db → A) (c : Conn) (a : A)
    → (query f c).0 ≡ ok a
    → (a ≡ f c.tables) × ((query f c).1.tables ≡ c.tables)
unfolding exec
query_ok f c a h = elim (Bool-cases (next_fails c.faults)) [
  | inl fails ↦ absurd (ground arith)
  | inr runs ↦ (ground arith, ground arith)
]
