-- ===== src/Db/Sql.antt =====
-- The tables of src/db/schema.rs, one field for each table, and the statements on them. Each SQL
-- statement of the source is a function on the tables. Any statement may also fail (a full disk, a
-- lock, a missing file): `faults` says of the statements to come which ones do; past its end none does.
use squirreld.Prelude.{ℕ, String, List, [], ◌∷◌, Text, Bool, false, Option, if◌then◌else◌}
use squirreld.Error.{Result, ok, err, panic, db}
use squirreld.Types.{Bytes, ℤ}

pub record RecordRow : Type 0 where
  pub id : String
  pub collection : String
  pub payload : Bytes
  pub hlc : Text
  pub schema_version : ℕ
  pub format_version : ℕ
  pub dek_encrypted : Option Bytes
  pub deleted : Bool
  pub synced : Bool
  pub created_at : ℕ
  pub updated_at : ℕ

pub record OutboxEntry : Type 0 where
  pub seq : ℕ
  pub record_id : String
  pub collection : String
  pub operation : String
  pub hlc : Text
  pub payload : Option Bytes
  pub created_at : ℕ
  pub next_retry_at : ℕ
  pub retries : ℕ
  pub last_error : Option String
  pub error_log : Option String

-- A row of `blobs`; the columns `dek_encrypted` and `base_nonce`, which no statement names, are left
-- out. The status is the text in the column.
pub record BlobRow : Type 0 where
  pub id : String
  pub record_id : Option String
  pub collection : Option String
  pub local_path : Option String
  pub s3_key : String
  pub size_bytes : Option ℕ
  pub upload_id : Option String
  pub status : String
  pub format_version : ℕ
  pub retries : ℕ
  pub next_retry_at : ℕ
  pub last_error : Option String
  pub error_log : Option String
  pub created_at : ℕ
  pub updated_at : ℕ

pub record BlobPartRow : Type 0 where
  pub blob_id : String
  pub part_number : ℕ
  pub etag : Option String
  pub uploaded : Bool

-- A value bound to a statement (`rusqlite::types::Value`); a real is its bit pattern.
pub data SqlValue : Type 0 where
  null : SqlValue
  integer : ℤ → SqlValue
  real : ℕ → SqlValue
  text : Text → SqlValue

-- A table that `src/db/index.rs` creates, `sidx_{name}` or `fts_{name}`: the columns beside
-- `record_id`, and for each row its record id and the values that were written by column.
pub record ShadowTable : Type 0 where
  pub name : Text
  pub columns : List Text
  pub rows : List (String × List (Text × SqlValue))

-- `outbox_seq` is the AUTOINCREMENT counter of the outbox: the largest `seq` ever given.
pub record Db : Type 0 where
  pub config : List (String × Text)
  pub records : List RecordRow
  pub outbox : List OutboxEntry
  pub outbox_seq : ℕ
  pub blobs : List BlobRow
  pub blob_parts : List BlobPartRow
  pub sync_state : List (String × Option Text)
  pub sidx : List ShadowTable
  pub fts : List ShadowTable

abbrev pub empty_db : Db
empty_db = record {
  config = [];
  records = [];
  outbox = [];
  outbox_seq = 0;
  blobs = [];
  blob_parts = [];
  sync_state = [];
  sidx = [];
  fts = [];
}

pub record Conn : Type 0 where
  pub tables : Db
  pub faults : List Bool

abbrev pub healthy : Db → Conn
healthy d = record { tables = d; faults = [] }

abbrev pub Sql : Type 0 → Type 0
Sql A = Conn → Result A × Conn

abbrev pub continue : {A B : Type 0} → Result A → (A → Sql B) → Sql B
continue (ok a) f c = f a c
continue (err e) f c = (err e, c)
continue panic f c = (panic, c)

infixl 5 ◌>>=◌ ◌>>◌
abbrev pub ◌>>=◌ : {A B : Type 0} → Sql A → (A → Sql B) → Sql B
◌>>=◌ m f c = let (r, c') = m c in continue r f c'

abbrev pub ◌>>◌ : {A B : Type 0} → Sql A → Sql B → Sql B
m >> k = m >>= λ _. k

abbrev pub pure : {A : Type 0} → A → Sql A
pure a c = (ok a, c)

abbrev pub lift : {A : Type 0} → Result A → Sql A
lift r c = (r, c)

abbrev pub next_fails : List Bool → Bool
next_fails [] = false
next_fails (b ∷ bs) = b

abbrev pub next_faults : List Bool → List Bool
next_faults [] = []
next_faults (b ∷ bs) = bs

-- One statement; a statement that fails has no effect.
unfoldable pub exec : {A : Type 0} → (Db → Result A × Db) → Sql A
exec f c =
    let rest = next_faults c.faults in
    if next_fails c.faults
    then (err db, record { tables = c.tables; faults = rest })
    else (let (r, d) = f c.tables in (r, record { tables = d; faults = rest }))

-- A statement that returns nothing, and one that only reads.
abbrev pub write : (Db → Db) → Sql (Unit {0})
write f = exec (λ d. (ok tt, f d))

abbrev pub query : {A : Type 0} → (Db → A) → Sql A
query f = exec (λ d. (ok (f d), d))

-- `conn.transaction()`, the body, `commit()`. Where the body returns early the transaction is
-- dropped and rolls back, and so it does where the commit fails.
abbrev pub commit_or_rollback : {A : Type 0} → Db → Result A → Sql A
commit_or_rollback before (ok a) c =
    let rest = next_faults c.faults in
    if next_fails c.faults
    then (err db, record { tables = before; faults = rest })
    else (ok a, record { tables = c.tables; faults = rest })
commit_or_rollback before (err e) c = (err e, record c { tables = before })
commit_or_rollback before panic c = (panic, record c { tables = before })

unfoldable pub transaction : {A : Type 0} → Sql A → Sql A
transaction body c =
    let rest = next_faults c.faults in
    if next_fails c.faults
    then (err db, record c { faults = rest })
    else (let (r, c') = body (record c { faults = rest }) in commit_or_rollback c.tables r c')
