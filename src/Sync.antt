-- ===== src/Sync.antt =====
-- src/sync/mod.rs: the push cycle of the sync loop, and what both cycles share. Opening a
-- connection is a statement that can fail and does nothing else. The clock readings are arguments.
pub mod Newer
pub mod Pull
pub mod Round
pub mod Loop
pub mod Push
use squirreld.Prelude.{
  ℕ, zero, suc, ◌+◌, ◌%◌, ◌^◌, String, List, [], ◌∷◌, ◌++◌, Text, Bool, true, false, not, ◌&&◌,
  Option, none, some, if◌then◌else◌, str_eq, text_lt, keep_if,
}
use squirreld.Error.{Result, ok, err, panic}
use squirreld.Types.{
  Bytes, SyncStats, no_stats, SyncEvent, push_complete, pull_complete, retry_scheduled,
}
use squirreld.Db.Sql.{
  RecordRow, OutboxEntry, Db, Conn, Sql, pure, write, query, continue, ◌>>=◌, ◌>>◌,
}
use squirreld.Db.Records
use squirreld.Db.Outbox
use squirreld.Db.Outbox.{Json, peek_batch, delete_seqs, mark_retry}
use squirreld.Db.SyncState.{get_checkpoint, set_checkpoint}
use squirreld.Backend.{
  OutboxPushEntry, RemoteRecord, PushResult, pushed, conflict_at, transient_error, RecordBackend,
  Pulled, records, failed,
}

-- `DEBOUNCE_MS` and `PERIODIC_SECS` only pace the loop.
abbrev pub push_batch : ℕ
push_batch = 25

-- `let _ = ..` and `.ok()`: the error of an action is dropped.
abbrev pub attempt : {A : Type 0} → Sql A → Conn → Conn
attempt m c = (m c).1

unfoldable pub open_conn : Sql (Unit {0})
open_conn = query (λ d. tt)

-- `match open_conn(..) { Ok(c) => x, Err(_) => y }`
abbrev pub if_opened {ℓ} : {A : Type ℓ} → Result (Unit {0}) → A → A → A
if_opened (ok _) x y = x
if_opened _ x y = y

abbrev pub push_entry : OutboxEntry → Option Bytes → Option Bytes → ℕ → ℕ → OutboxPushEntry
push_entry e payload dek schema format = record {
  seq = e.seq;
  record_id = e.record_id;
  collection = e.collection;
  operation = e.operation;
  hlc = e.hlc;
  payload = payload;
  dek_encrypted = dek;
  schema_version = schema;
  format_version = format;
  retries = e.retries;
}

-- The stored bytes are sent, encrypted or not, never those of the outbox.
unfoldable pub entry_of_row : OutboxEntry → Result (Option RecordRow) → Option OutboxPushEntry
entry_of_row e (ok (some r)) =
    some (push_entry e (some r.payload) r.dek_encrypted r.schema_version r.format_version)
entry_of_row e _ = none

-- `None` also where the query fails.
unfoldable pub build_push_entry : OutboxEntry → Conn → Option OutboxPushEntry × Conn
build_push_entry e c =
    if str_eq e.operation "delete"
    then (some (push_entry e none none 0 0), c)
    else (let (r, c') = Records.get e.collection e.record_id c in (entry_of_row e r, c'))

abbrev pub cons_some {ℓ} : {A : Type ℓ} → Option A → List A → List A
cons_some none xs = xs
cons_some (some x) xs = x ∷ xs

-- `entries.iter().filter_map(..).collect()`
unfoldable pub build_push_entries : List OutboxEntry → Conn → List OutboxPushEntry × Conn
build_push_entries [] c = ([], c)
build_push_entries (e ∷ es) c =
    let (p, c') = build_push_entry e c in
    let (ps, c'') = build_push_entries es c' in (cons_some p ps, c'')

unfoldable pub mark_synced : String → String → Sql (Unit {0})
mark_synced record_id collection = write (λ d. record d {
  records = Records.update_where (λ r. record r { synced = true }) collection record_id d.records;
})

unfoldable pub of_record : String → String → OutboxEntry → Bool
of_record record_id collection e = str_eq e.record_id record_id && str_eq e.collection collection

unfoldable pub remove_outbox_for_record : String → String → Sql (Unit {0})
remove_outbox_for_record record_id collection =
    write
      (λ d. record d { outbox = keep_if (λ e. not (of_record record_id collection e)) d.outbox })

-- The database, the remote store, and the events sent so far.
pub record SyncWorld (S : Type 0) : Type 0 where
  pub conn : Conn
  pub remote : S
  pub events : List SyncEvent

-- The readings of the clock in one push cycle: for the batch, for the retry, for its log entry, and
-- for the event. There is at most one retry, since the loop stops at it.
pub record PushTimes : Type 0 where
  pub batch_ms : ℕ
  pub retry_ms : ℕ
  pub log_ms : ℕ
  pub event_ms : ℕ

abbrev pub count_error : SyncStats → SyncStats
count_error st = record st { errors = st.errors + 1 }

module _ {S : Type 0} (b : RecordBackend S) (j : Json) (t : PushTimes) where
  -- The database after the answer to one push.
  unfoldable pub settle : OutboxPushEntry → PushResult → Conn → Conn
  settle e (pushed seqs) c =
      attempt (mark_synced e.record_id e.collection) (attempt (delete_seqs seqs) c)
  settle e (conflict_at record_id seq) c = attempt (delete_seqs (seq ∷ [])) c
  settle e (transient_error error) c = attempt (mark_retry j t.retry_ms t.log_ms e.seq error) c

  -- What is counted and sent for it; a transient error ends the loop.
  unfoldable pub counted : PushResult → SyncStats → SyncStats
  counted (pushed seqs) st = record st { pushed = st.pushed + 1 }
  counted (conflict_at record_id seq) st = record st { conflicts = st.conflicts + 1 }
  counted (transient_error error) st = count_error st

  unfoldable pub retry_events : OutboxPushEntry → PushResult → List SyncEvent
  retry_events e (transient_error error) =
      retry_scheduled e.seq ((e.retries + 1) % 2 ^ 32) t.event_ms error ∷ []
  retry_events e _ = []

  unfoldable pub goes_on : PushResult → Bool
  goes_on (transient_error error) = false
  goes_on _ = true

  abbrev pub settled : OutboxPushEntry → PushResult → Conn → S → SyncWorld S → SyncWorld S
  settled e r c remote w = record {
    conn = settle e r c;
    remote = remote;
    events = w.events ++ retry_events e r;
  }

  -- The loop over the entries. The push comes first; the connection is opened for its result.
  unfoldable pub push_loop :
      List OutboxPushEntry → SyncStats → SyncWorld S → SyncStats × SyncWorld S
  push_loop [] st w = (st, w)
  push_loop (e ∷ es) st w =
      let (r, remote) = b.push_one e w.remote in
      let (opened, c) = open_conn w.conn in
      let st' = counted r st in
      let w' = settled e r c remote w in
      let rest = push_loop es st' w' in
      if_opened opened (if goes_on r then rest else (st', w'))
        (count_error st, record w { conn = c; remote = remote })

  unfoldable pub push_ready : Result (List OutboxEntry) → SyncWorld S → SyncStats × SyncWorld S
  push_ready (ok entries) w =
      let (ps, c) = build_push_entries entries w.conn in
      push_loop ps no_stats (record w { conn = c })
  push_ready (err e) w = (count_error no_stats, w)
  push_ready panic w = (count_error no_stats, w)

  unfoldable pub run_push_cycle : SyncWorld S → SyncStats × SyncWorld S
  run_push_cycle w =
      let (entries, c) = (do open_conn; peek_batch t.batch_ms push_batch) w.conn in
      push_ready entries (record w { conn = c })
