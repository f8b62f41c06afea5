-- ===== src/Tests/Handlers.antt =====
-- src/db/blobs.rs, and `open` and the actor of src/engine.rs, at concrete inputs.
use squirreld.Prelude.{List, [], ◌∷◌, ◌≡◌, ◌⊎◌, refl, arith, true, false, none, some, text_lt, All}
use squirreld.Error.{ok, err, actor_closed}
use squirreld.Hlc.{fmt, from_str}
use squirreld.Types.{IndexDef, default_put_opts}
use squirreld.Db.Sql.{BlobRow, Db, healthy, empty_db, exec}
use squirreld.Db.Records.{max_of, max_hlc}
use squirreld.Db.Config.{setting, get, set, node_id_or_new, get_or_create_node_id, put_setting}
use squirreld.Hex.{hex_encode}
use squirreld.Hlc
use squirreld.Hex
use squirreld.Db.Blobs.{to_download}
use squirreld.Db.Blobs.Parts.{done_part}
use squirreld.Engine.{ActorState, Inputs}
use squirreld.Engine.Open.{
  Kdf, OpenInputs, open_engine, open_parts, open_clock, initialize, clock_of, or_new, resolve_key,
}
use squirreld.Engine.Open.Clock.{open_engine_newest}
use squirreld.Engine.Commands.{Command, put, delete, shutdown, actor_loop}
use squirreld.Engine.Handle.{running, gone, count_reply, call, Handled, IsClosed, call_lem}
use squirreld.Engine.Commands.Loop.{NotBefore, actor_loop-NotBefore}
use squirreld.Tests.Data.{
  framing, alice, first_inputs, second_inputs, hello, repeat, bob_clock, bob_clock-IsHlc,
}

abbrev photo : BlobRow
photo = record (to_download "photo" "blobs/photo" 5) { status = "uploaded" }

abbrev with_photo : Db
with_photo = record empty_db {
  blobs = photo ∷ [];
  blob_parts = done_part "photo" 2 "x" ∷ done_part "photo" 1 "y" ∷ [];
}

-- A database with one record, from `bob`.
abbrev stored : Db
stored = record empty_db {
  records =
      record {
        id = "a";
        collection = "notes";
        payload = hello;
        hlc = fmt bob_clock;
        schema_version = 0;
        format_version = 0;
        dek_encrypted = none;
        deleted = false;
        synced = true;
        created_at = 1;
        updated_at = 1;
      }
      ∷ [];
}

abbrev open_inputs : OpenInputs
open_inputs = record {
  wall_ms = 500;
  random_node = 1 ∷ 2 ∷ 3 ∷ 4 ∷ 5 ∷ 6 ∷ [];
  random_salt = repeat 16 1;
  encryption_key = none;
  has_backend = true;
  has_blob_backend = true;
}

abbrev no_kdf : Kdf
no_kdf = record { derive = λ pass salt. none; derive_error = "argon2" }

abbrev reopened : ActorState
reopened = record {
  conn =
      healthy
        (record stored { config = ("node_id", hex_encode (1 ∷ 2 ∷ 3 ∷ 4 ∷ 5 ∷ 6 ∷ [])) ∷ [] });
  last_hlc = bob_clock;
  sync_trigger = some 0;
  blob_trigger = some [];
  indexes = [];
  kek = none;
}

-- The clock of the new engine is that of `bob`, with the node id of `bob`.
reopened_lem : open_engine no_kdf open_inputs (healthy stored) ≡ ok reopened
unfolding open_engine open_parts open_clock initialize clock_of or_new resolve_key
    get_or_create_node_id get set node_id_or_new exec setting put_setting max_hlc max_of from_str
    Hlc.fmt Hlc.split_dash Hlc.parse_parts Hlc.parse_node Hex.digit Hex.hex_fixed Hex.hex_width
    Hex.hex_padded Hex.to_digit Hex.add_digit Hex.parse_digits Hex.from_str_radix Hex.hex_encode
    Hex.is_continuation Hex.starts_char Hex.hex_decode_pairs Hex.hex_decode
reopened_lem = refl

open_engine_newest_example : All (λ r. text_lt (fmt reopened.last_hlc) r.hlc ≡ false) stored.records
open_engine_newest_example =
    open_engine_newest no_kdf open_inputs (healthy stored) reopened
      ((bob_clock, bob_clock-IsHlc, refl), tt) reopened_lem

abbrev commands : List (Inputs × Command)
commands =
    (first_inputs, put "notes" (some "a") hello default_put_opts)
    ∷ (second_inputs, delete "notes" "a")
    ∷ (second_inputs, shutdown)
    ∷ []

actor_loop-NotBefore_example :
    NotBefore alice.last_hlc (actor_loop framing commands alice).1.last_hlc
actor_loop-NotBefore_example = actor_loop-NotBefore framing commands alice (ground arith)

abbrev notes_index : IndexDef
notes_index = record { collection = "notes"; fields = []; fts_fields = "title" ∷ [] }

call_lem_example :
    Handled framing first_inputs count_reply Command.rebuild_indexes
      (running alice)
      (call framing first_inputs count_reply Command.rebuild_indexes (running alice))
    ⊎ (IsClosed framing first_inputs count_reply Command.rebuild_indexes (running alice)
        × (call framing first_inputs count_reply Command.rebuild_indexes (running alice)
            ≡ (err actor_closed, gone)))
call_lem_example = call_lem framing first_inputs count_reply Command.rebuild_indexes (running alice)
