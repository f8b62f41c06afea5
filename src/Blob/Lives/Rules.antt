-- ===== src/Blob/Lives/Rules.antt =====
-- src/blob/worker.rs: calls that do not panic, and the rules for them.
use squirreld.Prelude.{ℕ, String, List, [], ◌∷◌, ◌≡◌, refl, ap, arith, Bool, true, false}
use squirreld.Error.{Result, ok, err, panic}
use squirreld.Types.{SyncEvent}
use squirreld.Db.Sql.{Conn, Sql, continue, ◌>>=◌ as ◌>>=sql◌}
use squirreld.Db.Outbox.{Json}
use squirreld.Db.Blobs
use squirreld.Backend.{BackendError}
use squirreld.Backend.Blobs.{Answer, accepted, refused}
use squirreld.Blob.{
  World, Ending, done, failed, died, Work, then_do, ◌>>=◌, pure, fail, matched, match_result,
  on_files, on_remote, on_both, on_db, ignore, send, read_clock, io_result, remote_result,
}
use squirreld.Blob.Progress.Rules.{Calm, Calm-exec}

pub Calm-bind :
    {A B : Type 0} (m : Sql A) (f : A → Sql B) → Calm m → ((a : A) → Calm (f a)) → Calm (m >>=sql f)
Calm-bind {A} {B} m f cm cf = record { at = λ c h. go (m c).0 (m c).1 (cm.at c h) }
  where
    go : (r : Result A) (c : Conn) → c.faults ≡ [] → (continue r f c).1.faults ≡ []
    go (ok a) c h = (cf a).at c h
    go (err e) c h = h
    go panic c h = h

pub Calm-mark_retry :
    (j : Json) (now log_now update_now : ℕ) (i error : String)
    → Calm (Blobs.mark_retry j now log_now update_now i error)
unfolding Blobs.mark_retry
Calm-mark_retry j now log_now update_now i error = Calm-bind _ _ (Calm-exec _) (λ row. Calm-exec _)

pub Calm-list_ready : (now : ℕ) (statuses : List String) → Calm (Blobs.list_ready now statuses)
unfolding Blobs.list_ready
Calm-list_ready now [] = record { at = λ c h. h }
Calm-list_ready now (s ∷ ss) = Calm-exec _

abbrev pub is_alive : {A : Type 0} → Ending A → Bool
is_alive (done a) = true
is_alive (failed e) = true
is_alive died = false

pub io_alive : {A : Type 0} (r : Answer String A) → is_alive (io_result r) ≡ true
io_alive (accepted a) = refl
io_alive (refused e) = refl

pub remote_alive : {A : Type 0} (r : Answer BackendError A) → is_alive (remote_result r) ≡ true
remote_alive (accepted a) = refl
remote_alive (refused e) = refl

module _ {S F : Type 0} where
  -- The call returns or fails, and no statement is to fail after it.
  pub record Alive {A : Type 0} (m : Work S F A) : Type 0 where
    pub at :
        (w : World S F)
        → w.conn.faults ≡ []
        → (is_alive (m w).0 ≡ true) × ((m w).1.conn.faults ≡ [])

  -- The call returns.
  pub record Lives {A : Type 0} (m : Work S F A) : Type 0 where
    pub at :
        (w : World S F)
        → w.conn.faults ≡ []
        → (a : A) × ((m w).0 ≡ done a) × ((m w).1.conn.faults ≡ [])

  pub Lives-Alive : {A : Type 0} {m : Work S F A} → Lives m → Alive m
  Lives-Alive l = record { at = λ w h. let (a, e, calm) = l.at w h in (ap is_alive e, calm) }

  pub Lives-bind :
      {A B : Type 0} (m : Work S F A) (f : A → Work S F B)
      → Lives m
      → ((a : A) → Lives (f a))
      → Lives (m >>= f)
  Lives-bind m f lm lf = record {
    at = λ w h. let (a, e, calm) = lm.at w h in rw e ((lf a).at (m w).1 calm);
  }

  pub Alive-bind :
      {A B : Type 0} (m : Work S F A) (f : A → Work S F B)
      → Alive m
      → ((a : A) → Alive (f a))
      → Alive (m >>= f)
  Alive-bind {A} {B} m f am af = record { at = λ w h. go (m w).0 (m w).1 (am.at w h) }
    where
      go :
          (r : Ending A) (w : World S F)
          → (is_alive r ≡ true) × (w.conn.faults ≡ [])
          → (is_alive (then_do r f w).0 ≡ true) × ((then_do r f w).1.conn.faults ≡ [])
      go (done a) w h = (af a).at w h.1
      go (failed e) w h = h
      go died w h = h

  -- `match` on a result catches the failure.
  pub Lives-match :
      {A B : Type 0} (m : Work S F A) (f : A → Work S F B) (g : String → Work S F B)
      → Alive m
      → ((a : A) → Lives (f a))
      → ((e : String) → Lives (g e))
      → Lives (match_result m f g)
  Lives-match {A} {B} m f g am lf lg = record { at = λ w h. go (m w).0 (m w).1 (am.at w h) }
    where
      go :
          (r : Ending A) (w : World S F)
          → (is_alive r ≡ true) × (w.conn.faults ≡ [])
          → (b : B) × ((matched r f g w).0 ≡ done b) × ((matched r f g w).1.conn.faults ≡ [])
      go (done a) w h = (lf a).at w h.1
      go (failed e) w h = (lg e).at w h.1
      go died w h = absurd (ground (arith, h.0))

  pub Lives-pure : {A : Type 0} (a : A) → Lives (pure a)
  Lives-pure a = record { at = λ w h. (a, refl, h) }

  pub Alive-fail : {A : Type 0} (e : String) → Alive (fail {A = A} e)
  Alive-fail e = record { at = λ w h. (refl, h) }

  pub Lives-db : {A : Type 0} (m : Sql A) → Calm m → Lives (on_db m)
  unfolding on_db
  Lives-db m calm = record { at = λ w h. ((m w.conn).0, refl, calm.at w.conn h) }

  pub Lives-ignore : {A : Type 0} (m : Sql A) → Calm m → Lives (ignore m)
  Lives-ignore m calm = Lives-bind _ _ (Lives-db m calm) (λ r. Lives-pure tt)

  pub Lives-read_clock : (now : ℕ → ℕ) → Lives (read_clock now)
  unfolding read_clock
  Lives-read_clock now = record { at = λ w h. (now w.readings, refl, h) }

  pub Lives-send : (e : SyncEvent) → Lives (send e)
  unfolding send
  Lives-send e = record { at = λ w h. (tt, refl, h) }

  pub Alive-files : {A : Type 0} (call : F → Answer String A × F) → Alive (on_files call)
  unfolding on_files
  Alive-files call = record { at = λ w h. (io_alive (call w.files).0, h) }

  pub Alive-remote : {A : Type 0} (call : S → Answer BackendError A × S) → Alive (on_remote call)
  unfolding on_remote
  Alive-remote call = record { at = λ w h. (remote_alive (call w.remote).0, h) }

  pub Alive-both :
      {A : Type 0} (call : S → F → Answer BackendError A × S × F) → Alive (on_both call)
  unfolding on_both
  Alive-both call = record { at = λ w h. (remote_alive (call w.remote w.files).0, h) }
