-- ===== src/Db/Config.antt =====
-- src/db/config.rs: keyed settings, the node id and the KDF salt. Fresh random bytes are arguments.
use squirreld.Prelude.{
  ℕ, String, List, [], ◌∷◌, Text, ◌≡◌, ◌∙◌, false, arith, All, Option, none, some, if◌then◌else◌,
  ◌==◌, str_eq, length, ◌<◌, eq_iff,
}
use squirreld.Error.{Result, ok, err, panic, other, other_with}
use squirreld.Hex.{hex_encode, hex_decode, bytes, malformed, panics}
use squirreld.Db.Sql.{Sql, Conn, next_fails, exec, pure, lift, write, query, ◌>>=◌, ◌>>◌}
use squirreld.Hex.RoundTrip.{hex_decode-hex_encode}

unfoldable pub setting : String → List (String × Text) → Option Text
setting key [] = none
setting key ((k, v) ∷ rows) = if str_eq k key then some v else setting key rows

unfoldable pub get : String → Sql (Option Text)
get key = query (λ d. setting key d.config)

unfoldable pub put_setting : String → Text → List (String × Text) → List (String × Text)
put_setting key value [] = (key, value) ∷ []
put_setting key value ((k, v) ∷ rows) =
    if str_eq k key then (k, value) ∷ rows else (k, v) ∷ put_setting key value rows

unfoldable pub set : String → Text → Sql (Unit {0})
set key value = write (λ d. record d { config = put_setting key value d.config })

-- A stored value as its `n` bytes, as both functions below read it.
unfoldable pub stored_node_id : Text → Result (List ℕ)
stored_node_id val = elim (hex_decode val) [
  | bytes bs ↦ if length bs == 6 then ok bs else err (other "node_id must be exactly 6 bytes")
  | malformed ↦ err (other_with "corrupt node_id in config: " val)
  | panics ↦ panic
]

unfoldable pub stored_kek_salt : Text → Result (List ℕ)
stored_kek_salt val = elim (hex_decode val) [
  | bytes bs ↦ if length bs == 16 then ok bs else err (other "kek_salt must be 16 bytes")
  | malformed ↦ err (other "corrupt kek_salt in config")
  | panics ↦ panic
]

-- `random` is what `rand::rng().fill` gives.
unfoldable pub node_id_or_new : List ℕ → Option Text → Sql (List ℕ)
node_id_or_new random (some val) = lift (stored_node_id val)
node_id_or_new random none = do set "node_id" (hex_encode random); pure random

unfoldable pub get_or_create_node_id : List ℕ → Sql (List ℕ)
get_or_create_node_id random = do val ← get "node_id"; node_id_or_new random val

unfoldable pub kek_salt_or_new : List ℕ → Option Text → Sql (List ℕ)
kek_salt_or_new random (some val) = lift (stored_kek_salt val)
kek_salt_or_new random none = do set "kek_salt" (hex_encode random); pure random

unfoldable pub get_or_create_kek_salt : List ℕ → Sql (List ℕ)
get_or_create_kek_salt random = do val ← get "kek_salt"; kek_salt_or_new random val

setting-put :
    (key : String) (value : Text) (rows : List (String × Text))
    → setting key (put_setting key value rows) ≡ some value
unfolding setting put_setting
setting-put key value [] = ground (arith, eq_iff key key)
setting-put key value ((k, v) ∷ rows) = ground (arith, eq_iff k key, setting-put key value rows)

stored_node_id-hex_encode :
    (random : List ℕ)
    → length random ≡ 6
    → All (λ b. b < 256) random
    → stored_node_id (hex_encode random) ≡ ok random
unfolding stored_node_id
stored_node_id-hex_encode random hl hb = ground (arith, hex_decode-hex_encode random hb)

-- The node id is stable: a first call that returns, on a database without a node id and with six random
-- bytes, returns these bytes and has stored their hexadecimal digits under "node_id". On any connection
-- with that setting as the first call left it, whatever else its tables hold and whichever of its later
-- statements fail, a call whose read does not fail returns the same id, whatever its random bytes, and
-- writes nothing.
pub node_id_stable :
    (random random' node : List ℕ) (c c' : Conn)
    → setting "node_id" c.tables.config ≡ none
    → length random ≡ 6
    → All (λ b. b < 256) random
    → (get_or_create_node_id random c).0 ≡ ok node
    → setting "node_id" c'.tables.config
      ≡ setting "node_id" (get_or_create_node_id random c).1.tables.config
    → next_fails c'.faults ≡ false
    → (node ≡ random)
      × (setting "node_id" (get_or_create_node_id random c).1.tables.config
          ≡ some (hex_encode random))
      × ((get_or_create_node_id random' c').0 ≡ ok node)
      × ((get_or_create_node_id random' c').1.tables ≡ c'.tables)
unfolding get_or_create_node_id get set node_id_or_new exec
node_id_stable random random' node c c' fresh hl hb h kept runs =
    let put = setting-put "node_id" (hex_encode random) c.tables.config in
    let read = stored_node_id-hex_encode random hl hb in
    let same : node ≡ random = ground (arith, fresh, h) in
    let stored : setting "node_id" (get_or_create_node_id random c).1.tables.config
        ≡ some (hex_encode random) =
      ground (arith, fresh, h, put) in
    let held = kept ∙ stored in
    (same, stored, ground (arith, held, runs, read, same), ground (arith, held, runs, read))
