-- ===== src/Tests/Cycles.antt =====
-- src/sync/mod.rs and src/backend/in_memory.rs at concrete runs.
use squirreld.Prelude.{
  ℕ, ◌+◌, List, [], ◌∷◌, ◌++◌, Text, ◌≡◌, ◌⊎◌, refl, arith, true, false, none, some, keep_if, All,
}
use squirreld.Error.{ok}
use squirreld.Hlc.{tick}
use squirreld.Types.{default_put_opts, no_stats}
use squirreld.Crypto.{encrypt, encrypt_record}
use squirreld.Db.Sql.{healthy, empty_db, exec, transaction}
use squirreld.Db.Records
use squirreld.Db.Records.{find_id, upsert_row, select_row, in_collection}
use squirreld.Db.Outbox
use squirreld.Db.Outbox.{new_entry, append_entry, find_seq}
use squirreld.Backend.{RemoteRecord, IsBackend, OutboxPushEntry}
use squirreld.Backend.InMemory
use squirreld.Backend.InMemory.{
  InMemoryStore, in_memory, push_one, is_stale, remote_record, same_key,
}
use squirreld.Backend.InMemory.Newest.{Covers, in_memory-IsBackend}
use squirreld.Sync.{SyncWorld, PushTimes, run_push_cycle, build_push_entry}
use squirreld.Sync.Pull.{is_current, pull_loop}
use squirreld.Sync.Push.{Present}
use squirreld.Sync.Push.Cycle.{push_cycle_safe}
use squirreld.Sync.Newer.{applied, version_at}
use squirreld.Sync.Newer.Converges.{newest_of, NotNewer, pull_loop-newest, pull_loop_latest}
use squirreld.Sync.Loop.{
  Wakeup, RoundTimes, kick, force_sync, elapsed, closed, received, idle, names, run, forced,
  run-forced,
}
use squirreld.Engine.Encryption.{maybe_encrypt, encrypt_with, should_encrypt, Stored}
use squirreld.Engine.{
  ActorState, handle_put, put_stored, put_body, maintain_index, index_of, handle_get,
}
use squirreld.Engine.Replicates.{sent, queued, put_replicates}
use squirreld.Tests.Data.{
  framing, framing-IsAead, some_entropy-IsEntropy, alice_clock-IsHlc, alice, bob, first_inputs,
  hello, repeat, char_log,
}

in_memory-IsBackend_example : IsBackend (in_memory "test") Covers
in_memory-IsBackend_example = in_memory-IsBackend "test"

abbrev world : SyncWorld InMemoryStore
world = record {
  conn = record {
    tables = record empty_db {
      outbox =
          new_entry 1 "a" "notes" "delete" (49 ∷ []) none 5
          ∷ new_entry 2 "b" "notes" "upsert" (50 ∷ []) none 6
          ∷ [];
      outbox_seq = 2;
    };
    faults = false ∷ false ∷ true ∷ [];
  };
  remote = [];
  events = [];
}

abbrev times : PushTimes
times = record { batch_ms = 10; retry_ms = 11; log_ms = 12; event_ms = 13 }

push_cycle_safe_example :
    Present 1 (run_push_cycle (in_memory "test") char_log times world).1.conn.tables
    ⊎ Covers (run_push_cycle (in_memory "test") char_log times world).1.remote "a" "notes" (49 ∷ [])
unfolding find_seq
push_cycle_safe_example =
    push_cycle_safe (in_memory "test") Covers (in_memory-IsBackend "test") char_log times world 1
      (new_entry 1 "a" "notes" "delete" (49 ∷ []) none 5) (ground arith) refl

abbrev remote_at : Text → RemoteRecord
remote_at hlc = record {
  record_id = "a";
  collection = "notes";
  hlc = hlc;
  payload = some hello;
  dek_encrypted = none;
  deleted = false;
  schema_version = 0;
  format_version = 0;
}

abbrev came : List RemoteRecord
came = remote_at (51 ∷ []) ∷ remote_at (49 ∷ []) ∷ remote_at (50 ∷ []) ∷ []

pull_loop-newest_example :
    version_at "notes" "a"
      (pull_loop
        (λ n. n)
        0
        came
        (record { conn = healthy empty_db; checkpoint = none; stats = no_stats })).conn.tables
    ≡ newest_of (version_at "notes" "a" empty_db) (keep_if (same_key "a" "notes") came)
pull_loop-newest_example =
    pull_loop-newest (λ n. n) 0 "notes" "a" came empty_db none no_stats
      ((λ e. refl), ((λ e. refl), ((λ e. refl), tt)))

pull_loop_latest_example :
    All
      (NotNewer (
        version_at "notes" "a"
          (pull_loop
            (λ n. n)
            0
            came
            (record { conn = healthy empty_db; checkpoint = none; stats = no_stats })).conn.tables))
      (keep_if (same_key "a" "notes") came)
pull_loop_latest_example =
    pull_loop_latest (λ n. n) 0 "notes" "a" came empty_db none no_stats
      ((λ e. refl), ((λ e. refl), ((λ e. refl), tt)))

abbrev sealed : Stored
sealed =
    (repeat 12 8 ++ (repeat 16 0 ++ hello), some (repeat 12 9 ++ (repeat 16 0 ++ repeat 32 7)), 1)

abbrev after_put : ActorState
after_put = (handle_put framing alice first_inputs "notes" (some "a") hello default_put_opts).1

abbrev to_push : OutboxPushEntry
to_push = sent framing alice first_inputs "notes" hello default_put_opts "a" sealed

put_replicates_example :
    ((build_push_entry
        (queued framing alice first_inputs "notes" hello default_put_opts "a")
        (healthy after_put.conn.tables)).0
      ≡ some to_push)
    × (InMemory.get "a" "notes" (push_one to_push []).1 ≡ some (remote_record to_push))
    × ((handle_get framing
          (record bob { conn = healthy (applied 3000 (remote_record to_push) bob.conn.tables) })
          3001
          "notes"
          "a").0
        ≡ ok (
            some (record {
              id = "a";
              collection = "notes";
              payload = hello;
              hlc = tick 1000 alice.last_hlc;
              schema_version = 0;
              deleted = false;
              created_at = 3000;
              updated_at = 3000;
            })))
unfolding handle_put put_stored put_body maintain_index index_of maybe_encrypt encrypt_with
    should_encrypt encrypt encrypt_record exec transaction Records.upsert Outbox.append InMemory.get
    is_stale is_current select_row in_collection find_id
put_replicates_example =
    put_replicates framing alice first_inputs "notes" hello default_put_opts (some "a") "a" sealed
      [] bob 3000 3001 framing-IsAead some_entropy-IsEntropy alice_clock-IsHlc (ground arith) refl
      refl refl refl refl

-- A forced sync in the wait after a kick, one by itself, and one after the end of the channel.
abbrev wakeups : List Wakeup
wakeups =
    received kick
    ∷ received (force_sync 7)
    ∷ elapsed
    ∷ received (force_sync 8)
    ∷ closed
    ∷ received (force_sync 9)
    ∷ []

abbrev round_times : ℕ → RoundTimes
round_times k = record { push = times; pull = λ n. 20 + n }

run-forced_example :
    names (run (in_memory "test") char_log round_times idle 0 wakeups world).0 ≡ (7 ∷ 8 ∷ [])
unfolding forced
run-forced_example = run-forced (in_memory "test") char_log round_times idle 0 wakeups world
