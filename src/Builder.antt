-- ===== src/Builder.antt =====
-- src/builder.rs and src/collection.rs: the configuration of an engine, and how it is built.
use squirreld.Prelude.{
  ℕ, String, List, [], ◌∷◌, ◌≡◌, ◌∙◌, refl, Bool, true, false, Option, none, some, if◌then◌else◌,
  str_eq,
}
use squirreld.Error.{Result, ok, err, panic, other}
use squirreld.Types.{Bytes}
use squirreld.Db.Sql.{Conn}
use squirreld.Engine.{ActorState}
use squirreld.Engine.Open.{KeySource, Kdf, OpenInputs, open_engine}

pub data CollectionEncryption : Type 0 where
  default enabled disabled : CollectionEncryption

pub data IndexKind : Type 0 where
  text integer float text_array : IndexKind

pub record IndexDef : Type 0 where
  pub field_path : String
  pub kind : IndexKind

-- `migrate` gets the old version and the old payload.
pub record CollectionConfig : Type 0 where
  pub schema_version : ℕ
  pub encryption : CollectionEncryption
  pub migrate : Option (ℕ → Bytes → Result Bytes)
  pub indices : List IndexDef
  pub fts_fields : List String

-- Of a backend, its presence is kept.
pub record EngineBuilder : Type 0 where
  pub path : Option String
  pub collections : List (String × CollectionConfig)
  pub capacity : ℕ
  pub has_record_backend : Bool
  pub has_blob_backend : Bool
  pub cache : Option String
  pub key : Option KeySource

pub record EngineConfig : Type 0 where
  pub db_path : String
  pub collections : List (String × CollectionConfig)
  pub channel_capacity : ℕ
  pub has_record_backend : Bool
  pub has_blob_backend : Bool
  pub cache_dir : Option String
  pub encryption_key : Option KeySource

abbrev pub new_builder : EngineBuilder
new_builder = record {
  path = none;
  collections = [];
  capacity = 256;
  has_record_backend = false;
  has_blob_backend = false;
  cache = none;
  key = none;
}

-- `HashMap::insert`
unfoldable pub insert_collection :
    String → CollectionConfig → List (String × CollectionConfig) → List (String × CollectionConfig)
insert_collection name config [] = (name, config) ∷ []
insert_collection name config ((k, old) ∷ rest) =
    if str_eq k name then (k, config) ∷ rest else (k, old) ∷ insert_collection name config rest

-- The calls that may be chained before `build`.
pub data Setting : Type 0 where
  db_path : String → Setting
  collection : String → CollectionConfig → Setting
  channel_capacity : ℕ → Setting
  record_backend : Setting
  blob_backend : Setting
  cache_dir : String → Setting
  encryption_key : KeySource → Setting

unfoldable pub set : Setting → EngineBuilder → EngineBuilder
set (db_path p) b = record b { path = some p }
set (collection name config) b = record b {
  collections = insert_collection name config b.collections;
}
set (channel_capacity n) b = record b { capacity = n }
set record_backend b = record b { has_record_backend = true }
set blob_backend b = record b { has_blob_backend = true }
set (cache_dir p) b = record b { cache = some p }
set (encryption_key source) b = record b { key = some source }

unfoldable pub set_all : List Setting → EngineBuilder → EngineBuilder
set_all [] b = b
set_all (x ∷ xs) b = set_all xs (set x b)

abbrev pub config_of : String → EngineBuilder → EngineConfig
config_of p b = record {
  db_path = p;
  collections = b.collections;
  channel_capacity = b.capacity;
  has_record_backend = b.has_record_backend;
  has_blob_backend = b.has_blob_backend;
  cache_dir = b.cache;
  encryption_key = b.key;
}

abbrev pub no_path : String
no_path = "db_path is required — call .db_path() on the builder"

unfoldable pub configure : EngineBuilder → Result EngineConfig
configure b = elim b.path [ none ↦ err (other no_path) | some p ↦ ok (config_of p b) ]

-- What `open` is given beside the configuration: the wall clock and random bytes, and the database
-- that is at a path.
pub record Ambient : Type 0 where
  pub wall_ms : ℕ
  pub random_node : List ℕ
  pub random_salt : List ℕ
  pub database : String → Conn

abbrev pub inputs_of : Ambient → EngineConfig → OpenInputs
inputs_of a config = record {
  wall_ms = a.wall_ms;
  random_node = a.random_node;
  random_salt = a.random_salt;
  encryption_key = config.encryption_key;
  has_backend = config.has_record_backend;
  has_blob_backend = config.has_blob_backend;
}

unfoldable pub build : Kdf → Ambient → EngineBuilder → Result ActorState
unfolding configure
build k a b = elim (configure b) [
  | ok config ↦ open_engine k (inputs_of a config) (a.database config.db_path)
  | err e ↦ err e
  | panic ↦ panic
]

-- The last call with a value of a kind counts.
abbrev pub last_path : List Setting → Option String → Option String
last_path [] p = p
last_path (db_path q ∷ xs) p = last_path xs (some q)
last_path (collection n c ∷ xs) p = last_path xs p
last_path (channel_capacity n ∷ xs) p = last_path xs p
last_path (record_backend ∷ xs) p = last_path xs p
last_path (blob_backend ∷ xs) p = last_path xs p
last_path (cache_dir q ∷ xs) p = last_path xs p
last_path (encryption_key s ∷ xs) p = last_path xs p

path-set_all : (xs : List Setting) (b : EngineBuilder) → (set_all xs b).path ≡ last_path xs b.path
unfolding set_all set
path-set_all [] b = refl
path-set_all (db_path q ∷ xs) b = path-set_all xs _
path-set_all (collection n c ∷ xs) b = path-set_all xs _
path-set_all (channel_capacity n ∷ xs) b = path-set_all xs _
path-set_all (record_backend ∷ xs) b = path-set_all xs _
path-set_all (blob_backend ∷ xs) b = path-set_all xs _
path-set_all (cache_dir q ∷ xs) b = path-set_all xs _
path-set_all (encryption_key s ∷ xs) b = path-set_all xs _

-- A build is refused where no path was given, whatever else was; and otherwise it opens the database
-- at the last path, with what the builder has.
pub build-set_all :
    (k : Kdf) (a : Ambient) (xs : List Setting)
    → (last_path xs none ≡ none → build k a (set_all xs new_builder) ≡ err (other no_path))
      × ((p : String)
          → last_path xs none ≡ some p
          → build k a (set_all xs new_builder)
            ≡ open_engine k (inputs_of a (config_of p (set_all xs new_builder))) (a.database p))
unfolding build configure
build-set_all k a xs = (
  λ h. rw (path-set_all xs new_builder ∙ h, build, configure) refl,
  λ p h. rw (path-set_all xs new_builder ∙ h, build, configure) refl,
)
