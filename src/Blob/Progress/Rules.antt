-- ===== src/Blob/Progress/Rules.antt =====
-- src/blob/worker.rs: calls that return from a world where nothing fails, and the rules for them.
use squirreld.Prelude.{
  ℕ, ◌-◌, ◌≤◌, String, List, [], ◌∷◌, ◌≡◌, refl, ap, ◌∙◌, inl, inr, arith, Bool-cases, Option, some,
  str_eq, eq_iff, length, All,
}
use squirreld.Error.{Result, ok}
use squirreld.Types.{Bytes, as_str, uploaded}
use squirreld.Db.Sql.{BlobRow, Db, Conn, Sql, healthy, exec}
use squirreld.Db.Blobs
use squirreld.Db.Blobs.{update_blob}
use squirreld.Engine.Open.{initialize}
use squirreld.Backend.{BackendError}
use squirreld.Backend.Blobs.{Answer, accepted, UploadedPart, BlobBackend}
use squirreld.Blob.{
  Files, World, Ending, done, Work, ◌>>=◌, pure, match_result, on_files, on_remote, on_db, ignore,
  read_clock, io_result, remote_result,
}

-- A store that accepts whatever it is asked.
pub record Accepts {S F : Type 0} (b : BlobBackend S F) : Type 0 where
  pub put : (key : String) (bytes : Bytes) (s : S) → (b.put_object key bytes s).0 ≡ accepted tt
  pub create :
      (key : String) (s : S)
      → (upload : String) × ((b.create_multipart_upload key s).0 ≡ accepted upload)
  pub upload :
      (key upload : String) (n : ℕ) (bytes : Bytes) (s : S)
      → (etag : String) × ((b.upload_part key upload n bytes s).0 ≡ accepted etag)
  pub list :
      (key upload : String) (s : S)
      → (ps : List UploadedPart) × ((b.list_parts key upload s).0 ≡ accepted ps)
  pub complete :
      (key upload : String) (ps : List UploadedPart) (s : S)
      → (b.complete_multipart_upload key upload ps s).0 ≡ accepted tt

-- Files that can be read as far as they go.
pub record Readable {F : Type 0} (fs : Files F) (content : F → String → Option Bytes) : Type 0 where
  pub len :
      (p : String) (s : F) (bytes : Bytes)
      → content s p ≡ some bytes
      → (fs.len p s).0 ≡ accepted (length bytes)
  pub read :
      (p : String) (s : F) (bytes : Bytes)
      → content s p ≡ some bytes
      → (fs.read p s).0 ≡ accepted bytes
  pub open_file :
      (p : String) (s : F) (bytes : Bytes)
      → content s p ≡ some bytes
      → (fs.open_file p s).0 ≡ accepted tt
  pub read_exact :
      (p : String) (off n : ℕ) (s : F) (bytes : Bytes)
      → content s p ≡ some bytes
      → n ≤ length bytes - off
      → (part : Bytes) × ((fs.read_exact p off n s).0 ≡ accepted part)

-- A statement whose faults are over.
pub record Calm {A : Type 0} (m : Sql A) : Type 0 where
  pub at : (c : Conn) → c.faults ≡ [] → (m c).1.faults ≡ []

pub Calm-exec : {A : Type 0} (f : Db → Result A × Db) → Calm (exec f)
unfolding exec
Calm-exec f = record { at = λ c h. ground (arith, h) }

pub initialize-healthy : (d : Db) → initialize (healthy d) ≡ (ok tt, healthy d)
unfolding initialize exec
initialize-healthy d = refl

pub initialize_calm : (c : Conn) → c.faults ≡ [] → initialize c ≡ (ok tt, healthy c.tables)
initialize_calm c h =
    ap initialize (ap (λ f. record { tables = c.tables; faults = f }) h)
    ∙ initialize-healthy c.tables

pub Calm-initialize : Calm initialize
Calm-initialize = record { at = λ c h. ap (λ r. r.1.faults) (initialize_calm c h) }

abbrev pub Marked : String → Db → Type 0
Marked i d = All (λ b. b.id ≡ i → b.status ≡ "uploaded") d.blobs

pub Marked-update_blob :
    (now : ℕ) (i : String) (bs : List BlobRow)
    → All
        (λ b. b.id ≡ i → b.status ≡ "uploaded")
        (update_blob (λ b. record b { status = as_str uploaded; updated_at = now }) i bs)
unfolding update_blob as_str
Marked-update_blob now i [] = tt
Marked-update_blob now i (b ∷ bs) = elim (Bool-cases (str_eq b.id i)) [
  | inl same ↦ rw same (λ e. refl, Marked-update_blob now i bs)
  | inr other ↦
      rw other (λ e. absurd (ground (arith, other, e, eq_iff b.id i)), Marked-update_blob now i bs)
]

pub set_status-Marked :
    (now : ℕ) (i : String) (c : Conn)
    → c.faults ≡ []
    → Marked i (Blobs.set_status now i uploaded c).1.tables
unfolding Blobs.set_status exec
set_status-Marked now i c h = rw h (Marked-update_blob now i c.tables.blobs)

pub Calm-set_status : (now : ℕ) (i : String) → Calm (Blobs.set_status now i uploaded)
unfolding Blobs.set_status
Calm-set_status now i = Calm-exec _

module _ {S F : Type 0} (content : F → String → Option Bytes) (path : String) (bytes : Bytes) where
  -- No statement is to fail, and the file is there.
  pub record Ready (w : World S F) : Type 0 where
    pub calm : w.conn.faults ≡ []
    pub there : content w.files path ≡ some bytes

  abbrev pub Any : World S F → Type 0
  Any w = Unit

  abbrev pub AnyOf : {A : Type 0} → A → World S F → Type 0
  AnyOf a w = Unit

  abbrev pub Returned : {A : Type 0} → (A → World S F → Type 0) → Ending A × World S F → Type 0
  Returned {A} Q r = (a : A) × (r.0 ≡ done a) × Ready r.1 × Q a r.1

  -- From a world that is ready the call returns, and the world is ready again.
  pub record Runs {A : Type 0} (P : World S F → Type 0) (m : Work S F A)
      (Q : A → World S F → Type 0) : Type 0 where
    pub at : (w : World S F) → Ready w → P w → Returned Q (m w)

  pub Runs-bind :
      {A B : Type 0} {P : World S F → Type 0} {Q : A → World S F → Type 0}
      {R : B → World S F → Type 0} (m : Work S F A) (f : A → Work S F B)
      → Runs P m Q
      → ((a : A) → Runs (Q a) (f a) R)
      → Runs P (m >>= f) R
  Runs-bind {R} m f rm rf = record {
    at = λ w h p. let (a, e, r, q) = rm.at w h p in rw e ((rf a).at (m w).1 r q);
  }

  pub Runs-match :
      {A B : Type 0} {P : World S F → Type 0} {Q : A → World S F → Type 0}
      {R : B → World S F → Type 0} (m : Work S F A) (f : A → Work S F B) (g : String → Work S F B)
      → Runs P m Q
      → ((a : A) → Runs (Q a) (f a) R)
      → Runs P (match_result m f g) R
  Runs-match m f g rm rf = record {
    at = λ w h p. let (a, e, r, q) = rm.at w h p in rw e ((rf a).at (m w).1 r q);
  }

  pub Runs-pure :
      {A : Type 0} {P : World S F → Type 0} {Q : A → World S F → Type 0} (a : A)
      → ((w : World S F) → P w → Q a w)
      → Runs P (pure a) Q
  Runs-pure a q = record { at = λ w h p. (a, refl, h, q w p) }

  pub Runs-db :
      {A : Type 0} {P : World S F → Type 0} {Q : Result A → World S F → Type 0} (m : Sql A)
      → Calm m
      → ((w : World S F) → w.conn.faults ≡ [] → Q (m w.conn).0 (record w { conn = (m w.conn).1 }))
      → Runs P (on_db m) Q
  unfolding on_db
  Runs-db m calm q = record {
    at = λ w h p.
        ((m w.conn).0, refl, record { calm = calm.at w.conn h.calm; there = h.there }, q w h.calm);
  }

  pub Runs-ignore :
      {A : Type 0} {P : World S F → Type 0} (m : Sql A) → Calm m → Runs P (ignore m) AnyOf
  Runs-ignore m calm =
      Runs-bind _ _ (Runs-db {Q = AnyOf} m calm (λ w h. tt)) (λ r. Runs-pure tt (λ w p. tt))

  pub Runs-read_clock : {P : World S F → Type 0} (now : ℕ → ℕ) → Runs P (read_clock now) AnyOf
  unfolding read_clock
  Runs-read_clock now = record {
    at = λ w h p. (now w.readings, refl, record { calm = h.calm; there = h.there }, tt);
  }

  pub Runs-files :
      {A : Type 0} {P : World S F → Type 0} (call : F → Answer String A × F)
      → ((s : F) → content (call s).1 path ≡ content s path)
      → ((s : F) → content s path ≡ some bytes → (a : A) × ((call s).0 ≡ accepted a))
      → Runs P (on_files call) AnyOf
  unfolding on_files
  Runs-files call keeps ok_ = record {
    at = λ w h p.
        let (a, e) = ok_ w.files h.there in
        (a, ap io_result e, record { calm = h.calm; there = keeps w.files ∙ h.there }, tt);
  }

  pub Runs-value :
      {A : Type 0} {P : World S F → Type 0} (call : F → Answer String A × F) (a : A)
      → ((s : F) → content (call s).1 path ≡ content s path)
      → ((s : F) → content s path ≡ some bytes → (call s).0 ≡ accepted a)
      → Runs P (on_files call) (λ b w. b ≡ a)
  unfolding on_files
  Runs-value call a keeps ok_ = record {
    at = λ w h p. (
      a,
      ap io_result (ok_ w.files h.there),
      record { calm = h.calm; there = keeps w.files ∙ h.there },
      refl,
    );
  }

  pub Runs-remote :
      {A : Type 0} {P : World S F → Type 0} (call : S → Answer BackendError A × S)
      → ((s : S) → (a : A) × ((call s).0 ≡ accepted a))
      → Runs P (on_remote call) AnyOf
  unfolding on_remote
  Runs-remote call ok_ = record {
    at = λ w h p.
        let (a, e) = ok_ w.remote in
        (a, ap remote_result e, record { calm = h.calm; there = h.there }, tt);
  }
