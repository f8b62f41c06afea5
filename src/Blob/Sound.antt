-- ===== src/Blob/Sound.antt =====
-- src/blob/worker.rs: what holds of one blob while the worker runs, and the rules by which it is kept.
pub mod Row
use squirreld.Prelude.{
  ℕ, ◌≤◌, String, [], ◌∷◌, ◌≡◌, refl, ◌∙◌, true, Option, some, All, All-imp, All-append, length,
}
use squirreld.Error.{Result}
use squirreld.Types.{Bytes, SyncEvent, blob_uploaded}
use squirreld.Db.Sql.{BlobRow, Db, Conn, Sql}
use squirreld.Db.Keeps.{Keeps}
use squirreld.Backend.{BackendError}
use squirreld.Backend.Blobs.{Answer, accepted, refused, Shown}
use squirreld.Blob.{
  World, Ending, done, failed, died, Work, then_do, ◌>>=◌, pure, fail, matched, match_result,
  on_files, on_remote, on_db, send, io_result, remote_result, read_clock,
}
use squirreld.Blob.Worker.{total_parts}
use squirreld.Blob.Chunks.{chunk}
use squirreld.Blob.Sound.Row.{
  Watched, Chunked, Right, Clean, Uploaded, Good, Fits, Rows, Honest, Advances, Advances-refl,
  Advances-trans, Good-Advances, Fits-Advances,
}

module _ {S F : Type 0} (v : Shown S) (content : F → String → Option Bytes) (c : ℕ)
    (x : Watched) where
  pub record Sound (w : World S F) : Type 0 where
    pub kept : content w.files x.path ≡ some x.bytes
    pub rows : Rows v c x w.remote w.conn.tables
    pub told : All (Honest v c x w.remote) w.events
    pub clean : Clean v c x w.remote

  Sound-remote :
      (w : World S F) (t : S)
      → Advances v c x w.remote t
      → Sound w
      → Sound (record w { remote = t })
  Sound-remote w t a h = record {
    kept = h.kept;
    rows = All-imp _ _ w.conn.tables.blobs (λ b. Fits-Advances v c x w.remote t b a) h.rows;
    told = All-imp _ _ w.events (λ e honest same. a.1 (honest same)) h.told;
    clean = a.2 h.clean;
  }

  abbrev Returns : {A : Type 0} → (A → S → Type 0) → Ending A → S → Type 0
  Returns Q (done a) s = Q a s
  Returns Q (failed e) s = Unit
  Returns Q died s = Unit

  -- However a call ends that began at `s`, the world is sound and the remote store has advanced; where
  -- it returned, `Q` holds of what was returned and of the store.
  abbrev Ends : {A : Type 0} → S → (A → S → Type 0) → Ending A × World S F → Type 0
  Ends s Q (r, w) = Sound w × Advances v c x s w.remote × Returns Q r w.remote

  pub record Safe {A : Type 0} (P : S → Type 0) (m : Work S F A) (Q : A → S → Type 0) : Type 0 where
    pub at : (w : World S F) → Sound w → P w.remote → Ends w.remote Q (m w)

  pub Safe-Sound :
      {A : Type 0} {P : S → Type 0} {Q : A → S → Type 0} (m : Work S F A)
      → Safe P m Q
      → (w : World S F) → Sound w
      → P w.remote
      → Sound (m w).1
  Safe-Sound m s w h p = (s.at w h p).0

  pub Safe-imp :
      {A : Type 0} {P P' : S → Type 0} {Q : A → S → Type 0} (m : Work S F A)
      → ((s : S) → P' s → P s)
      → Safe P m Q
      → Safe P' m Q
  Safe-imp m imp s = record { at = λ w h p. s.at w h (imp w.remote p) }

  -- What is known at the start may be used throughout.
  pub Safe-given :
      {A : Type 0} {P : S → Type 0} {Q : A → S → Type 0} (m : Work S F A)
      → ((s : S) → P s → Safe P m Q)
      → Safe P m Q
  Safe-given m known = record { at = λ w h p. (known w.remote p).at w h p }

  after :
      {A : Type 0} (Q : A → S → Type 0) (s : S) (w : World S F) (r : Ending A × World S F)
      → Advances v c x s w.remote
      → Ends w.remote Q r
      → Ends s Q r
  after Q s w r a e = (e.0, Advances-trans v c x s w.remote r.1.remote a e.1, e.2)

  then_at :
      {A B : Type 0} {Q : A → S → Type 0} (R : B → S → Type 0) (s : S) (r : Ending A)
      (w : World S F) (f : A → Work S F B)
      → Ends s Q (r, w)
      → ((a : A) → Safe (Q a) (f a) R)
      → Ends s R (then_do r f w)
  then_at R s (done a) w f e k = after R s w (f a w) e.1 ((k a).at w e.0 e.2)
  then_at R s (failed y) w f e k = e
  then_at R s died w f e k = e

  pub Safe-bind :
      {A B : Type 0} {P : S → Type 0} {Q : A → S → Type 0} {R : B → S → Type 0} (m : Work S F A)
      (f : A → Work S F B)
      → Safe P m Q
      → ((a : A) → Safe (Q a) (f a) R)
      → Safe P (m >>= f) R
  Safe-bind m f sm sf = record {
    at = λ w h p. then_at _ w.remote (m w).0 (m w).1 f (sm.at w h p) sf;
  }

  matched_at :
      {A B : Type 0} {Q : A → S → Type 0} (R : B → S → Type 0) (s : S) (r : Ending A)
      (w : World S F) (f : A → Work S F B) (g : String → Work S F B)
      → Ends s Q (r, w)
      → ((a : A) → Safe (Q a) (f a) R)
      → ((y : String) → Safe (λ _. Unit {0}) (g y) R)
      → Ends s R (matched r f g w)
  matched_at R s (done a) w f g e k t = after R s w (f a w) e.1 ((k a).at w e.0 e.2)
  matched_at R s (failed y) w f g e k t = after R s w (g y w) e.1 ((t y).at w e.0 tt)
  matched_at R s died w f g e k t = e

  pub Safe-match :
      {A B : Type 0} {P : S → Type 0} {Q : A → S → Type 0} {R : B → S → Type 0} (m : Work S F A)
      (f : A → Work S F B) (g : String → Work S F B)
      → Safe P m Q
      → ((a : A) → Safe (Q a) (f a) R)
      → ((y : String) → Safe (λ _. Unit {0}) (g y) R)
      → Safe P (match_result m f g) R
  Safe-match m f g sm sf sg = record {
    at = λ w h p. matched_at _ w.remote (m w).0 (m w).1 f g (sm.at w h p) sf sg;
  }

  pub Safe-pure :
      {A : Type 0} {P : S → Type 0} {Q : A → S → Type 0} (a : A)
      → ((s : S) → P s → Q a s)
      → Safe P (pure a) Q
  Safe-pure a q = record { at = λ w h p. (h, Advances-refl v c x w.remote, q w.remote p) }

  pub Safe-fail :
      {A : Type 0} {P : S → Type 0} {Q : A → S → Type 0} (e : String) → Safe P (fail {A = A} e) Q
  Safe-fail e = record { at = λ w h p. (h, Advances-refl v c x w.remote, tt) }

  pub Safe-read_clock : {P : S → Type 0} (now : ℕ → ℕ) → Safe P (read_clock now) (λ _ s. P s)
  unfolding read_clock
  Safe-read_clock now = record {
    at = λ w h p. (
      record { kept = h.kept; rows = h.rows; told = h.told; clean = h.clean },
      Advances-refl v c x w.remote,
      p,
    );
  }

  pub Safe-send :
      {P : S → Type 0} (e : SyncEvent)
      → ((s : S) → P s → Honest v c x s e)
      → Safe P (send e) (λ _ s. P s)
  unfolding send
  Safe-send e honest = record {
    at = λ w h p. (
      record {
        kept = h.kept;
        rows = h.rows;
        told = All-append _ w.events (e ∷ []) h.told (honest w.remote p, tt);
        clean = h.clean;
      },
      Advances-refl v c x w.remote,
      p,
    );
  }

  -- A statement that keeps the rows sound.
  pub Safe-db :
      {A : Type 0} {P : S → Type 0} {Q : Result A → S → Type 0} (m : Sql A)
      → ((s : S) → P s → Keeps (Rows v c x s) m)
      → ((s : S) (conn : Conn) → P s → Rows v c x s conn.tables → Q (m conn).0 s)
      → Safe P (on_db m) Q
  unfolding on_db
  Safe-db m keeps q = record {
    at = λ w h p. (
      record {
        kept = h.kept;
        rows = (keeps w.remote p).at w.conn h.rows;
        told = h.told;
        clean = h.clean;
      },
      Advances-refl v c x w.remote,
      q w.remote w.conn p h.rows,
    );
  }

  files_at :
      {A : Type 0} (Q : A → S → Type 0) (r : Answer String A) (s : S)
      → ((a : A) → r ≡ accepted a → Q a s)
      → Returns Q (io_result r) s
  files_at Q (accepted a) s q = q a refl
  files_at Q (refused e) s q = tt

  -- A call of the files that leaves the file of the blob alone.
  pub Safe-files :
      {A : Type 0} {P : S → Type 0} {Q : A → S → Type 0} (call : F → Answer String A × F)
      → ((s : F) → content (call s).1 x.path ≡ content s x.path)
      → ((t : F) (s : S) (a : A)
          → P s
          → content t x.path ≡ some x.bytes
          → (call t).0 ≡ accepted a
          → Q a s)
      → Safe P (on_files call) Q
  unfolding on_files
  Safe-files call keeps q = record {
    at = λ w h p. (
      record { kept = keeps w.files ∙ h.kept; rows = h.rows; told = h.told; clean = h.clean },
      Advances-refl v c x w.remote,
      files_at _ (call w.files).0 w.remote (λ a e. q w.files w.remote a p h.kept e),
    );
  }

  remote_at :
      {A : Type 0} (Q : A → S → Type 0) (r : Answer BackendError A) (s : S)
      → ((a : A) → r ≡ accepted a → Q a s)
      → Returns Q (remote_result r) s
  remote_at Q (accepted a) s q = q a refl
  remote_at Q (refused e) s q = tt

  pub Safe-remote :
      {A : Type 0} {P : S → Type 0} {Q : A → S → Type 0} (call : S → Answer BackendError A × S)
      → ((s : S) → P s → Clean v c x s → Advances v c x s (call s).1)
      → ((s : S) (a : A) → P s → Clean v c x s → (call s).0 ≡ accepted a → Q a (call s).1)
      → Safe P (on_remote call) Q
  unfolding on_remote
  Safe-remote call advances q = record {
    at = λ w h p. (
      Sound-remote w (call w.remote).1 (advances w.remote p h.clean) h,
      advances w.remote p h.clean,
      remote_at _ (call w.remote).0 (call w.remote).1 (λ a e. q w.remote a p h.clean e),
    );
  }

  pub Safe-then :
      {A : Type 0} {P : S → Type 0} {Q R : A → S → Type 0} (m : Work S F A)
      → ((a : A) (s : S) → Q a s → R a s)
      → Safe P m Q
      → Safe P m R
  Safe-then {A} {P} {Q} {R} m imp safe = record {
    at = λ w h p. let (sound, a, q) = safe.at w h p in (sound, a, weaker (m w).0 (m w).1.remote q);
  }
    where
      weaker : (r : Ending A) (s : S) → Returns Q r s → Returns R r s
      weaker (done a) s q = imp a s q
      weaker (failed e) s q = tt
      weaker died s q = tt

  -- What advancing loses nothing of is kept by any call.
  pub Safe-frame :
      {A : Type 0} {P : S → Type 0} {Q : A → S → Type 0} (R : S → Type 0) (m : Work S F A)
      → ((s t : S) → Advances v c x s t → R s → R t)
      → Safe P m Q
      → Safe (λ s. P s × R s) m (λ _ s. R s)
  Safe-frame {A} R m keeps safe = record {
    at = λ w h p.
        let (sound, a, q) = safe.at w h p.0 in
        (sound, a, kept_at (m w).0 (m w).1.remote (keeps w.remote _ a p.1));
  }
    where
      kept_at : (r : Ending A) (s : S) → R s → Returns (λ _ s. R s) r s
      kept_at (done a) s r = r
      kept_at (failed e) s r = tt
      kept_at died s r = tt
