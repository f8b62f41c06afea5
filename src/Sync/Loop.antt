-- ===== src/Sync/Loop.antt =====
-- src/sync/mod.rs, `SyncLoop::run`: the waits, the debouncing of kicks, and who is answered.
use squirreld.Prelude.{ℕ, zero, suc, List, [], ◌∷◌, ◌++◌, ◌≡◌, refl, ap}
use squirreld.Types.{SyncStats}
use squirreld.Db.Outbox.{Json}
use squirreld.Backend.{RecordBackend}
use squirreld.Sync.{SyncWorld, PushTimes}
use squirreld.Sync.Round.{run_cycle}

-- A forced sync is named by the channel on which its sender waits.
pub data SyncTrigger : Type 0 where
  kick : SyncTrigger
  force_sync : ℕ → SyncTrigger

-- What `timeout_at(.., recv())` gives: the deadline, the end of the channel, or a message.
pub data Wakeup : Type 0 where
  elapsed : Wakeup
  closed : Wakeup
  received : SyncTrigger → Wakeup

-- The wait of the loop, and the wait within it after a kick.
pub data Phase : Type 0 where
  idle debouncing : Phase

-- The clock readings of one round.
pub record RoundTimes : Type 0 where
  pub push : PushTimes
  pub pull : ℕ → ℕ

abbrev pub answered : List ℕ → SyncStats → List (ℕ × SyncStats)
answered [] stats = []
answered (reply ∷ replies) stats = (reply, stats) ∷ answered replies stats

abbrev pub Run : Type 0 → Type 0
Run S = SyncWorld S → List (ℕ × SyncStats) × SyncWorld S

module _ {S : Type 0} (b : RecordBackend S) (j : Json) (times : ℕ → RoundTimes) where
  abbrev pub ends : Run S
  ends w = ([], w)

  -- The cycles of round `k`, the answers to it, and then `rest`.
  unfoldable pub round : ℕ → List ℕ → Run S → Run S
  round k replies rest w =
      let (stats, w') = run_cycle b j (times k).push (times k).pull w in
      let (later, w'') = rest w' in (answered replies stats ++ later, w'')

  -- `k` counts the rounds. Kicks while it debounces are swallowed, a forced sync cuts the wait short;
  -- a channel that is closed in that wait is found closed again after the round.
  unfoldable pub run : Phase → ℕ → List Wakeup → Run S
  run phase k [] = ends
  run idle k (elapsed ∷ es) = round k [] (run idle (suc k) es)
  run idle k (closed ∷ es) = ends
  run idle k (received kick ∷ es) = run debouncing k es
  run idle k (received (force_sync reply) ∷ es) = round k (reply ∷ []) (run idle (suc k) es)
  run debouncing k (elapsed ∷ es) = round k [] (run idle (suc k) es)
  run debouncing k (closed ∷ es) = round k [] ends
  run debouncing k (received kick ∷ es) = run debouncing k es
  run debouncing k (received (force_sync reply) ∷ es) = round k (reply ∷ []) (run idle (suc k) es)

-- The syncs that are forced while the channel is open.
unfoldable pub forced : List Wakeup → List ℕ
forced [] = []
forced (elapsed ∷ es) = forced es
forced (closed ∷ es) = []
forced (received kick ∷ es) = forced es
forced (received (force_sync reply) ∷ es) = reply ∷ forced es

abbrev pub names : List (ℕ × SyncStats) → List ℕ
names [] = []
names ((reply, stats) ∷ rest) = reply ∷ names rest

-- A burst of `n` kicks.
abbrev pub kicks : ℕ → List Wakeup → List Wakeup
kicks zero es = es
kicks (suc n) es = received kick ∷ kicks n es

module _ {S : Type 0} (b : RecordBackend S) (j : Json) (times : ℕ → RoundTimes) where
  round-names :
      (k : ℕ) (now later : List ℕ) (rest : Run S) (w : SyncWorld S)
      → ((w' : SyncWorld S) → names (rest w').0 ≡ later)
      → names (round b j times k now rest w).0 ≡ now ++ later
  unfolding round
  round-names k [] later rest w h = h _
  round-names k (reply ∷ now) later rest w h =
      ap (λ l. reply ∷ l) (round-names k now later rest w h)

  -- Whatever the failures and the answers of the backend: every sync that was forced while the channel
  -- was open is answered, once and in order, be it in the wait of the loop or in that after a kick.
  pub run-forced :
      (phase : Phase) (k : ℕ) (es : List Wakeup) (w : SyncWorld S)
      → names (run b j times phase k es w).0 ≡ forced es
  unfolding run forced
  run-forced idle k [] w = refl
  run-forced debouncing k [] w = refl
  run-forced idle k (elapsed ∷ es) w = round-names k [] (forced es) _ w (run-forced idle (suc k) es)
  run-forced idle k (closed ∷ es) w = refl
  run-forced idle k (received kick ∷ es) w = run-forced debouncing k es w
  run-forced idle k (received (force_sync reply) ∷ es) w =
      round-names k (reply ∷ []) (forced es) _ w (run-forced idle (suc k) es)
  run-forced debouncing k (elapsed ∷ es) w =
      round-names k [] (forced es) _ w (run-forced idle (suc k) es)
  run-forced debouncing k (closed ∷ es) w = round-names k [] [] (ends b j times) w (λ w'. refl)
  run-forced debouncing k (received kick ∷ es) w = run-forced debouncing k es w
  run-forced debouncing k (received (force_sync reply) ∷ es) w =
      round-names k (reply ∷ []) (forced es) _ w (run-forced idle (suc k) es)

  debounced :
      (n k : ℕ) (es : List Wakeup)
      → run b j times debouncing k (kicks n es) ≡ run b j times debouncing k es
  unfolding run
  debounced zero k es = refl
  debounced (suc n) k es = debounced n k es

  -- A burst of kicks, however long, costs one round: after it the loop goes on as after one kick, and a
  -- forced sync in the burst runs at once.
  pub kicks-coalesce :
      (n k reply : ℕ) (es : List Wakeup)
      → (run b j times idle k (kicks (suc n) (elapsed ∷ es)) ≡ run b j times idle k (elapsed ∷ es))
        × (run b j times idle k (kicks (suc n) (received (force_sync reply) ∷ es))
            ≡ run b j times idle k (received (force_sync reply) ∷ es))
  unfolding run
  kicks-coalesce n k reply es =
      (debounced n k (elapsed ∷ es), debounced n k (received (force_sync reply) ∷ es))
