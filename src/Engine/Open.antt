-- ===== src/Engine/Open.antt =====
-- src/engine.rs, `SquirrelEngine::open`: the state that the actor starts from. Of the channels to the
-- sync loop and the blob worker, only the presence and what waits in them is kept.
pub mod Clock
use squirreld.Prelude.{
  ℕ, String, List, [], ◌∷◌, Text, ◌≡◌, refl, ap, ◌∙◌, sym, arith, Bool, true, false, Option, none,
  some, if◌then◌else◌, Bool-cases, inl, inr, text_lt, All, All-imp,
}
use squirreld.Error.{Result, SquirrelError, ok, err, panic, other}
use squirreld.Types.{Bytes}
use squirreld.Hlc.{Hlc, IsHlc, new, fmt, from_str}
use squirreld.Hlc.Format.{from_str-fmt}
use squirreld.Db.Sql.{
  RecordRow, Db, Conn, Sql, pure, lift, exec, query, write, continue, ◌>>=◌, ◌>>◌,
}
use squirreld.Db.Keeps.{Keeps, Keeps-exec, Keeps-pure, Keeps-lift, Keeps-bind}
use squirreld.Db.Records.{max_of, max_hlc}
use squirreld.Db.Config.{
  get, set, node_id_or_new, get_or_create_node_id, get_or_create_kek_salt, stored_node_id,
}
use squirreld.Backend.InMemory.Newest.{text_le_trans, text_lt_irrefl, text_lt_asym}
use squirreld.Engine.{ActorState}

pub data KeySource : Type 0 where
  raw_key : Bytes → KeySource
  passphrase : String → KeySource

-- `derive_kek` is Argon2id of the `argon2` crate: a passphrase and a salt give a key or an error.
pub record Kdf : Type 0 where
  pub derive : String → Bytes → Option Bytes
  pub derive_error : String

-- What `open` reads: the wall clock, random bytes for a node id and a salt, and the configuration.
pub record OpenInputs : Type 0 where
  pub wall_ms : ℕ
  pub random_node : List ℕ
  pub random_salt : List ℕ
  pub encryption_key : Option KeySource
  pub has_backend : Bool
  pub has_blob_backend : Bool

-- `Connection::open`, and the three batches of `schema::initialize`; the tables are there already.
unfoldable pub initialize : Sql (Unit {0})
initialize = do query (λ d. tt); query (λ d. tt); query (λ d. tt); query (λ d. tt)

unfoldable pub or_new : ℕ → List ℕ → Result Hlc → Result Hlc
or_new wall_ms node (ok h) = ok h
or_new wall_ms node (err e) = ok (new wall_ms node)
or_new wall_ms node panic = panic

-- A stored clock that does not parse is replaced by a new one; a panic of the parser is not caught.
unfoldable pub clock_of : ℕ → List ℕ → Option Text → Result Hlc
clock_of wall_ms node none = ok (new wall_ms node)
clock_of wall_ms node (some s) = or_new wall_ms node (from_str s)

unfoldable pub derived : Kdf → String → Bytes → Result (Option Bytes)
derived k pass salt = elim (k.derive pass salt) [
  | none ↦ err (other k.derive_error)
  | some kek ↦ ok (some kek)
]

unfoldable pub resolve_key : Kdf → List ℕ → Option KeySource → Sql (Option Bytes)
resolve_key k random none = pure none
resolve_key k random (some (raw_key kek)) = pure (some kek)
resolve_key k random (some (passphrase pass)) = do
  salt ← get_or_create_kek_salt random
  lift (derived k pass salt)

unfoldable pub open_clock : OpenInputs → Sql Hlc
open_clock i = do
  initialize
  node ← get_or_create_node_id i.random_node
  stored ← max_hlc
  lift (clock_of i.wall_ms node stored)

abbrev pub started : OpenInputs → Conn → Hlc → Option Bytes → ActorState
started i c clock kek = record {
  conn = c;
  last_hlc = clock;
  sync_trigger = if i.has_backend then some 0 else none;
  blob_trigger = if i.has_blob_backend then some [] else none;
  indexes = [];
  kek = kek;
}

unfoldable pub open_parts : Kdf → OpenInputs → Sql (Hlc × Option Bytes)
open_parts k i = do
  clock ← open_clock i
  kek ← resolve_key k i.random_salt i.encryption_key
  pure (clock, kek)

unfoldable pub open_engine : Kdf → OpenInputs → Conn → Result ActorState
open_engine k i c =
    let (r, c') = open_parts k i c in
    elim r [ ok (clock, kek) ↦ ok (started i c' clock kek) | err e ↦ err e | panic ↦ panic ]
