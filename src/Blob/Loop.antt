-- ===== src/Blob/Loop.antt =====
-- src/blob/worker.rs, `BlobWorker::run`: the loop over what wakes the worker up.
use squirreld.Prelude.{ℕ, List, [], ◌∷◌, ◌++◌, ◌≡◌, refl}
use squirreld.Types.{BlobTrigger, stage, tick, download, force_flush}
use squirreld.Db.Outbox.{Json}
use squirreld.Blob.{World, Ending, done, Work, ◌>>=◌, ◌>>◌, pure}
use squirreld.Blob.Lives.Rules.{Lives}
use squirreld.Blob.Lives.{
  run_upload_cycle-Lives, run_download_cycle-Lives, handle_stage-Lives, handle_download-Lives,
}
use squirreld.Blob.Worker.{
  BlobWorker, run_upload_cycle, run_download_cycle, handle_stage, handle_download,
}

-- What `timeout_at(deadline, recv())` gives: the deadline, the end of the channel, or a message.
pub data Wakeup : Type 0 where
  elapsed : Wakeup
  closed : Wakeup
  received : BlobTrigger → Wakeup

module _ {S F : Type 0} (self : BlobWorker S F) (j : Json) where
  -- The upload and the download cycle; then whoever waits is answered.
  unfoldable pub run_cycles : List ℕ → Work S F (List ℕ)
  run_cycles waiting = do run_upload_cycle self j; run_download_cycle self j; pure waiting

  -- One turn that is not the last: the flushes that it answers. A stage and a download go back to
  -- waiting; no flush is waiting then, since each is answered in its own turn.
  unfoldable pub turn : Wakeup → Work S F (List ℕ)
  turn elapsed = run_cycles []
  turn closed = pure []
  turn (received (stage blob_id src)) = do handle_stage self j blob_id src; pure []
  turn (received tick) = run_cycles []
  turn (received (download blob_id)) = do handle_download self j blob_id; pure []
  turn (received (force_flush reply)) = run_cycles (reply ∷ [])

  abbrev before_closed : {A : Type 0} → Wakeup → A → A → A
  before_closed closed x y = x
  before_closed _ x y = y

  -- The flushes that are answered. The loop ends with the channel, and waits where the list ends.
  unfoldable pub run : List Wakeup → Work S F (List ℕ)
  run [] = pure []
  run (e ∷ es) =
      let rest = run es in
      before_closed e (pure []) (do answered ← turn e; later ← rest; pure (answered ++ later))

-- The flushes that are asked for while the channel is open.
unfoldable pub flushes : List Wakeup → List ℕ
flushes [] = []
flushes (elapsed ∷ es) = flushes es
flushes (closed ∷ es) = []
flushes (received (stage blob_id src) ∷ es) = flushes es
flushes (received tick ∷ es) = flushes es
flushes (received (download blob_id) ∷ es) = flushes es
flushes (received (force_flush reply) ∷ es) = reply ∷ flushes es

-- The call returns `a`, and no statement is to fail after it.
abbrev Gives : {S F A : Type 0} → A → Ending A × World S F → Type 0
Gives a r = (r.0 ≡ done a) × (r.1.conn.faults ≡ [])

module _ {S F : Type 0} where
  Gives-after :
      {A B : Type 0} (m : Work S F A) (k : Work S F B) (b : B) (w : World S F)
      → Lives m
      → w.conn.faults ≡ []
      → ((w' : World S F) → w'.conn.faults ≡ [] → Gives b (k w'))
      → Gives b ((m >> k) w)
  Gives-after m k b w l calm next = let (a, e, calm') = l.at w calm in rw e (next (m w).1 calm')

module _ {S F : Type 0} (self : BlobWorker S F) (j : Json) where
  run_cycles-Gives :
      (waiting : List ℕ) (w : World S F)
      → w.conn.faults ≡ []
      → Gives waiting (run_cycles self j waiting w)
  unfolding run_cycles
  run_cycles-Gives waiting w calm =
      Gives-after _ _ waiting w (run_upload_cycle-Lives self j) calm (λ w' calm'.
        Gives-after _ _ waiting w' (run_download_cycle-Lives self j) calm' (λ w'' c. (refl, c)))

  answered : Wakeup → List ℕ
  answered (received (force_flush reply)) = reply ∷ []
  answered (received tick) = []
  answered (received (stage blob_id src)) = []
  answered (received (download blob_id)) = []
  answered elapsed = []
  answered closed = []

  turn-Gives :
      (e : Wakeup) (w : World S F) → w.conn.faults ≡ [] → Gives (answered e) (turn self j e w)
  unfolding turn answered
  turn-Gives elapsed w calm = run_cycles-Gives [] w calm
  turn-Gives closed w calm = (refl, calm)
  turn-Gives (received tick) w calm = run_cycles-Gives [] w calm
  turn-Gives (received (force_flush reply)) w calm = run_cycles-Gives (reply ∷ []) w calm
  turn-Gives (received (stage i src)) w calm =
      Gives-after _ _ [] w (handle_stage-Lives self j i src) calm (λ w' c. (refl, c))
  turn-Gives (received (download i)) w calm =
      Gives-after _ _ [] w (handle_download-Lives self j i) calm (λ w' c. (refl, c))

  continued :
      (now later : List ℕ) (turn rest : Work S F (List ℕ)) (w : World S F)
      → Gives now (turn w)
      → ((w' : World S F) → w'.conn.faults ≡ [] → Gives later (rest w'))
      → Gives (now ++ later) ((do a ← turn; l ← rest; pure (a ++ l)) w)
  continued now later turn rest w (e, calm) r =
      let (e', calm') = r (turn w).1 calm in rw (e, e') (refl, calm')

-- Where no statement is to fail, a run of the loop comes to its end, whatever the files and the remote
-- store answer, and every flush that was asked for while the channel was open is answered, in order.
pub run-flushes :
    {S F : Type 0} (self : BlobWorker S F) (j : Json) (es : List Wakeup) (w : World S F)
    → w.conn.faults ≡ []
    → ((run self j es w).0 ≡ done (flushes es)) × ((run self j es w).1.conn.faults ≡ [])
unfolding run flushes answered
run-flushes self j [] w calm = (refl, calm)
run-flushes self j (elapsed ∷ es) w calm =
    continued self j [] (flushes es) (turn self j elapsed) (run self j es) w
      (turn-Gives self j elapsed w calm) (run-flushes self j es)
run-flushes self j (closed ∷ es) w calm = (refl, calm)
run-flushes self j (received (stage i src) ∷ es) w calm =
    continued self j [] (flushes es) (turn self j (received (stage i src))) (run self j es) w
      (turn-Gives self j (received (stage i src)) w calm) (run-flushes self j es)
run-flushes self j (received tick ∷ es) w calm =
    continued self j [] (flushes es) (turn self j (received tick)) (run self j es) w
      (turn-Gives self j (received tick) w calm) (run-flushes self j es)
run-flushes self j (received (download i) ∷ es) w calm =
    continued self j [] (flushes es) (turn self j (received (download i))) (run self j es) w
      (turn-Gives self j (received (download i)) w calm) (run-flushes self j es)
run-flushes self j (received (force_flush reply) ∷ es) w calm =
    continued self j (reply ∷ []) (flushes es) (turn self j (received (force_flush reply)))
      (run self j es) w (turn-Gives self j (received (force_flush reply)) w calm)
      (run-flushes self j es)
