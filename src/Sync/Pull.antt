-- ===== src/Sync/Pull.antt =====
-- src/sync/mod.rs: the pull cycle and `apply_remote_record`.
use squirreld.Prelude.{
  ℕ, suc, ◌+◌, String, List, [], ◌∷◌, Text, Bool, true, false, not, ◌&&◌, Option, none, some,
  if◌then◌else◌, text_lt,
}
use squirreld.Error.{Result, ok}
use squirreld.Types.{Bytes, SyncStats, no_stats}
use squirreld.Db.Sql.{RecordRow, Conn, Sql, pure, ◌>>=◌, ◌>>◌}
use squirreld.Db.Records
use squirreld.Db.SyncState.{get_checkpoint, set_checkpoint}
use squirreld.Backend.{RemoteRecord, RecordBackend, records, failed}
use squirreld.Sync.{attempt, open_conn, if_opened, remove_outbox_for_record, SyncWorld, count_error}

-- `local_row.hlc >= remote.hlc`
unfoldable pub is_current : Option RecordRow → RemoteRecord → Bool
is_current none remote = false
is_current (some row) remote = not (text_lt row.hlc remote.hlc)

abbrev pub bytes_or_empty : Option Bytes → Bytes
bytes_or_empty none = []
bytes_or_empty (some bs) = bs

abbrev pub created_or : ℕ → Option RecordRow → ℕ
created_or now none = now
created_or now (some row) = row.created_at

abbrev pub row_of_remote : ℕ → RemoteRecord → Option RecordRow → RecordRow
row_of_remote now remote row = record {
  id = remote.record_id;
  collection = remote.collection;
  payload = bytes_or_empty remote.payload;
  hlc = remote.hlc;
  schema_version = remote.schema_version;
  format_version = remote.format_version;
  dek_encrypted = remote.dek_encrypted;
  deleted = remote.deleted;
  synced = true;
  created_at = created_or now row;
  updated_at = now;
}

unfoldable pub apply_over : ℕ → RemoteRecord → Option RecordRow → Sql (Unit {0})
apply_over now remote row = if is_current row remote then pure tt else (do
  Records.upsert_remote (row_of_remote now remote row)
  remove_outbox_for_record remote.record_id remote.collection)

unfoldable pub apply_remote_record : ℕ → RemoteRecord → Sql (Unit {0})
apply_remote_record now remote = do
  row ← Records.get remote.collection remote.record_id
  apply_over now remote row

-- The newest clock that was applied so far.
unfoldable pub advance : Option Text → Text → Option Text
advance none hlc = some hlc
advance (some cp) hlc = some (if text_lt cp hlc then hlc else cp)

pub record PullState : Type 0 where
  pub conn : Conn
  pub checkpoint : Option Text
  pub stats : SyncStats

unfoldable pub pull_step : RemoteRecord → Result (Unit {0}) → Conn → PullState → PullState
pull_step remote (ok _) c p = record {
  conn = c;
  checkpoint = advance p.checkpoint remote.hlc;
  stats = record p.stats { pulled = p.stats.pulled + 1 };
}
pull_step remote _ c p = record p { conn = c; stats = count_error p.stats }

-- `now k` is the clock when the k-th record is applied.
unfoldable pub pull_loop : (ℕ → ℕ) → ℕ → List RemoteRecord → PullState → PullState
pull_loop now k [] p = p
pull_loop now k (r ∷ rs) p =
    let (result, c) = apply_remote_record (now k) r p.conn in
    pull_loop now (suc k) rs (pull_step r result c p)

unfoldable pub same_checkpoint : Option Text → Option Text → Bool
same_checkpoint none none = true
same_checkpoint (some a) (some b) = not (text_lt a b) && not (text_lt b a)
same_checkpoint _ _ = false

unfoldable pub save_checkpoint : String → Option Text → Option Text → Conn → Conn
save_checkpoint backend old none c = c
save_checkpoint backend old (some cp) c =
    if same_checkpoint (some cp) old then c else attempt (set_checkpoint backend cp) c

module _ {S : Type 0} (b : RecordBackend S) (now : ℕ → ℕ) where
  unfoldable pub pull_records : Option Text → List RemoteRecord → Conn → SyncStats × Conn
  pull_records checkpoint [] c = (no_stats, c)
  pull_records checkpoint (r ∷ rs) c =
      let (opened, c') = open_conn c in
      let p =
        pull_loop now 0 (r ∷ rs)
          (record { conn = c'; checkpoint = checkpoint; stats = no_stats }) in
      if_opened opened (p.stats, save_checkpoint b.backend_id checkpoint p.checkpoint p.conn)
        (count_error no_stats, c')

  unfoldable pub pull_from : Result (Option Text) → Conn → S → SyncStats × Conn
  pull_from (ok checkpoint) c remote = elim (b.pull_since checkpoint remote) [
    | failed e ↦ (count_error no_stats, c)
    | records rs ↦ pull_records checkpoint rs c
  ]
  pull_from _ c remote = (count_error no_stats, c)

  unfoldable pub run_pull_cycle : SyncWorld S → SyncStats × SyncWorld S
  run_pull_cycle w =
      let (checkpoint, c) = (do open_conn; get_checkpoint b.backend_id) w.conn in
      let (st, c') = pull_from checkpoint c w.remote in (st, record w { conn = c' })
