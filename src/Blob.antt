-- ===== src/Blob.antt =====
-- src/blob: what the blob worker (src/blob/worker.rs) works on, and its calls: the database, the
-- remote store, the local files, the events and the clock.
pub mod Worker
pub mod Chunks
pub mod Sound
pub mod Remote
pub mod Rows
pub mod Steps
pub mod Upload
pub mod Cycle
pub mod Progress
pub mod Lives
pub mod Loop
use squirreld.Prelude.{
  ℕ, suc, String, List, [], ◌∷◌, ◌++◌, ◌≡◌, ◌≢◌, Bool, true, false, Option, none, some,
  if◌then◌else◌, length, take, drop,
}
use squirreld.Error.{Result, ok, err, panic}
use squirreld.Types.{Bytes, SyncEvent}
use squirreld.Db.Sql.{Conn, Sql}
use squirreld.Backend.{BackendError, transient, config}
use squirreld.Backend.Blobs.{Answer, accepted, refused, BlobBackend}
use Prim.Native.String.{◌++◌ as ◌<>◌}

-- The calls of `tokio::fs` and of `std::path`, over the state `F` of the local files. The text of an
-- error is what `to_string` gives. `read_exact` seeks to an offset and reads so many bytes. A path is
-- its text; one that is not Unicode is left out.
pub record Files (F : Type 0) : Type 0 where
  pub copy : String → String → F → Answer String ℕ × F
  pub len : String → F → Answer String ℕ × F
  pub read : String → F → Answer String Bytes × F
  pub open_file : String → F → Answer String (Unit {0}) × F
  pub read_exact : String → ℕ → ℕ → F → Answer String Bytes × F
  pub join : String → String → String

-- What the worker relies on: `content` is what a path holds. Nothing but a copy changes it.
pub record IsFiles {F : Type 0} (fs : Files F) (content : F → String → Option Bytes) : Type 0 where
  pub len_keeps : (p : String) (s : F) (q : String) → content (fs.len p s).1 q ≡ content s q
  pub read_keeps : (p : String) (s : F) (q : String) → content (fs.read p s).1 q ≡ content s q
  pub open_keeps : (p : String) (s : F) (q : String) → content (fs.open_file p s).1 q ≡ content s q
  pub exact_keeps :
      (p : String) (off n : ℕ) (s : F) (q : String)
      → content (fs.read_exact p off n s).1 q ≡ content s q
  pub copy_keeps :
      (src dest : String) (s : F) (q : String)
      → q ≢ dest
      → content (fs.copy src dest s).1 q ≡ content s q
  pub len_tells :
      (p : String) (s : F) (n : ℕ)
      → (fs.len p s).0 ≡ accepted n
      → (bytes : Bytes) × (content s p ≡ some bytes) × (n ≡ length bytes)
  pub read_reads :
      (p : String) (s : F) (bytes : Bytes)
      → (fs.read p s).0 ≡ accepted bytes
      → content s p ≡ some bytes
  pub exact_reads :
      (p : String) (off n : ℕ) (s : F) (part : Bytes)
      → (fs.read_exact p off n s).0 ≡ accepted part
      → (bytes : Bytes) × (content s p ≡ some bytes) × (part ≡ take n (drop off bytes))
  pub copy_copies :
      (src dest : String) (s : F) (n : ℕ)
      → (fs.copy src dest s).0 ≡ accepted n
      → (bytes : Bytes) × (content s src ≡ some bytes)
        × (content (fs.copy src dest s).1 dest ≡ some bytes)
        × (n ≡ length bytes)

-- `readings` counts the readings of the clock so far.
pub record World (S F : Type 0) : Type 0 where
  pub conn : Conn
  pub remote : S
  pub files : F
  pub events : List SyncEvent
  pub readings : ℕ

-- How a call ends: `died` is the panic of `open_conn`, with which the task of the worker ends.
pub data Ending (A : Type 0) : Type 0 where
  done : A → Ending A
  failed : String → Ending A
  died : Ending A

abbrev pub Work : Type 0 → Type 0 → Type 0 → Type 0
Work S F A = World S F → Ending A × World S F

abbrev pub then_do : {S F A B : Type 0} → Ending A → (A → Work S F B) → Work S F B
then_do (done a) f w = f a w
then_do (failed e) f w = (failed e, w)
then_do died f w = (died, w)

infixl 5 ◌>>=◌ ◌>>◌
abbrev pub ◌>>=◌ : {S F A B : Type 0} → Work S F A → (A → Work S F B) → Work S F B
◌>>=◌ m f w = let (r, w') = m w in then_do r f w'

abbrev pub ◌>>◌ : {S F A B : Type 0} → Work S F A → Work S F B → Work S F B
m >> k = m >>= λ _. k

abbrev pub pure : {S F A : Type 0} → A → Work S F A
pure a w = (done a, w)

abbrev pub fail : {S F A : Type 0} → String → Work S F A
fail e w = (failed e, w)

-- `match m { Ok(a) => f a, Err(e) => g e }`
abbrev pub matched :
    {S F A B : Type 0} → Ending A → (A → Work S F B) → (String → Work S F B) → Work S F B
matched (done a) f g w = f a w
matched (failed e) f g w = g e w
matched died f g w = (died, w)

abbrev pub match_result :
    {S F A B : Type 0} → Work S F A → (A → Work S F B) → (String → Work S F B) → Work S F B
match_result m f g w = let (r, w') = m w in matched r f g w'

-- `BackendError::to_string`
unfoldable pub error_text : BackendError → String
error_text (transient e) = "transient: " <> e
error_text (config e) = "configuration error: " <> e

abbrev pub io_result : {A : Type 0} → Answer String A → Ending A
io_result (accepted a) = done a
io_result (refused e) = failed e

abbrev pub remote_result : {A : Type 0} → Answer BackendError A → Ending A
remote_result (accepted a) = done a
remote_result (refused e) = failed (error_text e)

module _ {S F : Type 0} where
  -- `.await.map_err(|e| e.to_string())?` of a call of the files, and of the store.
  unfoldable pub on_files : {A : Type 0} → (F → Answer String A × F) → Work S F A
  on_files f w = let (r, files) = f w.files in (io_result r, record w { files = files })

  unfoldable pub on_remote : {A : Type 0} → (S → Answer BackendError A × S) → Work S F A
  on_remote f w = let (r, remote) = f w.remote in (remote_result r, record w { remote = remote })

  unfoldable pub on_both : {A : Type 0} → (S → F → Answer BackendError A × S × F) → Work S F A
  on_both f w =
      let (r, remote, files) = f w.remote w.files in
      (remote_result r, record w { remote = remote; files = files })

  -- A statement, and what it returned.
  unfoldable pub on_db : {A : Type 0} → Sql A → Work S F (Result A)
  on_db m w = let (r, c) = m w.conn in (done r, record w { conn = c })

  -- `let _ = ..`
  abbrev pub ignore : {A : Type 0} → Sql A → Work S F (Unit {0})
  ignore m = do on_db m; pure tt

  -- `let _ = self.events_tx.send(..)`
  unfoldable pub send : SyncEvent → Work S F (Unit {0})
  send e w = (done tt, record w { events = w.events ++ (e ∷ []) })

  -- The clock gives `now n` at its reading number `n`.
  unfoldable pub read_clock : (ℕ → ℕ) → Work S F ℕ
  read_clock now w = (done (now w.readings), record w { readings = suc w.readings })
