-- ===== src/Sync/Round.antt =====
-- src/sync/mod.rs: what `run` does between two waits.
use squirreld.Prelude.{ℕ, ◌+◌, [], ◌∷◌, ◌++◌}
use squirreld.Types.{SyncStats, push_complete, pull_complete}
use squirreld.Db.Outbox.{Json}
use squirreld.Backend.{RecordBackend}
use squirreld.Sync.{SyncWorld, PushTimes, run_push_cycle}
use squirreld.Sync.Pull.{run_pull_cycle}

-- One round of `run` between two waits: push, pull, and the events of both.
module _ {S : Type 0} (b : RecordBackend S) (j : Json) (t : PushTimes) (now : ℕ → ℕ) where
  unfoldable pub run_cycle : SyncWorld S → SyncStats × SyncWorld S
  run_cycle w =
      let (push_stats, w') = run_push_cycle b j t w in
      let (pull_stats, w'') = run_pull_cycle b now w' in
      (
        record {
          pushed = push_stats.pushed;
          pulled = pull_stats.pulled;
          conflicts = push_stats.conflicts;
          errors = push_stats.errors + pull_stats.errors;
        },
        record w'' {
          events = w''.events ++ (push_complete push_stats ∷ pull_complete pull_stats ∷ []);
        },
      )
