-- ===== src/Tests/Data.antt =====
-- What the concrete runs share.
use squirreld.Prelude.{
  false, ℕ, zero, suc, String, List, [], ◌∷◌, ◌++◌, ◌≡◌, refl, ap, sym, arith, Option, none, some,
  length, drop,
}
use Prim.Native.Char.{Char}
use squirreld.Hlc.{Hlc, IsHlc}
use squirreld.Error.{ok}
use squirreld.Types.{Bytes}
use squirreld.Crypto.{Cipher, IsAead, Entropy, IsEntropy}
use squirreld.Db.Sql.{healthy, empty_db}
use squirreld.Db.Outbox.{Json}
use squirreld.Db.Outbox.Backoff.{IsJson}
use squirreld.Engine.{ActorState, Inputs}

abbrev pub repeat : ℕ → ℕ → Bytes
repeat zero b = []
repeat (suc n) b = b ∷ repeat n b

-- A cipher that puts sixteen zero bytes before the plaintext.
abbrev pub framing : Cipher
framing = record {
  seal = λ key nonce plaintext. some (repeat 16 0 ++ plaintext);
  unseal = λ key nonce ciphertext. some (drop 16 ciphertext);
  encrypt_error = "encrypt";
  decrypt_error = "decrypt";
}

abbrev bytes_of : Option Bytes → Bytes
bytes_of none = []
bytes_of (some bs) = bs

pub framing-IsAead : IsAead framing
framing-IsAead = record {
  unseal-seal = λ key nonce p ct h. ap (λ o. some (drop 16 (bytes_of o))) (sym h);
  length-seal = λ key nonce p ct h. omega (arith, ap (λ o. length (bytes_of o)) h);
}

abbrev pub some_entropy : Entropy
some_entropy = record { dek = repeat 32 7; data_nonce = repeat 12 8; dek_nonce = repeat 12 9 }

pub some_entropy-IsEntropy : IsEntropy some_entropy
some_entropy-IsEntropy = record { dek_len = refl; data_nonce_len = refl; dek_nonce_len = refl }

abbrev pub alice_clock : Hlc
alice_clock = record { physical_ms = 1000; logical = 3; node_id = 1 ∷ 2 ∷ 3 ∷ 4 ∷ 5 ∷ 6 ∷ [] }

abbrev pub bob_clock : Hlc
bob_clock = record { physical_ms = 990; logical = 0; node_id = 9 ∷ 8 ∷ 7 ∷ 6 ∷ 5 ∷ 4 ∷ [] }

pub alice_clock-IsHlc : IsHlc alice_clock
alice_clock-IsHlc = record {
  physical_u64 = ground arith;
  logical_u16 = ground arith;
  node_len = refl;
  node_u8 = ground arith;
}

pub bob_clock-IsHlc : IsHlc bob_clock
bob_clock-IsHlc = record {
  physical_u64 = ground arith;
  logical_u16 = ground arith;
  node_len = refl;
  node_u8 = ground arith;
}

abbrev pub alice : ActorState
alice = record {
  conn = healthy empty_db;
  last_hlc = alice_clock;
  sync_trigger = none;
  blob_trigger = some [];
  indexes = [];
  kek = some (repeat 32 5);
}

abbrev pub bob : ActorState
bob = record alice { last_hlc = bob_clock }

abbrev pub first_inputs : Inputs
first_inputs = record {
  wall_ms = 1000;
  now_ms = 1001;
  outbox_ms = 1002;
  ulid = "u1";
  path_exists = λ p. false;
  select = λ sql params d. ok [];
  parse_json = λ bytes. none;
  sync_reply = none;
  flush_reply = none;
  entropy = some_entropy;
}

abbrev pub second_inputs : Inputs
second_inputs = record {
  wall_ms = 1005;
  now_ms = 1006;
  outbox_ms = 1007;
  ulid = "u2";
  path_exists = λ p. false;
  select = λ sql params d. ok [];
  parse_json = λ bytes. none;
  sync_reply = none;
  flush_reply = none;
  entropy = some_entropy;
}

abbrev pub hello : Bytes
hello = 104 ∷ 105 ∷ []

-- A log whose values are characters and whose text is the string of them.
abbrev to_chars : String → List Char
to_chars String.[] = []
to_chars (String.◌∷◌ c s) = c ∷ to_chars s

abbrev of_chars : List Char → String
of_chars [] = String.[]
of_chars (c ∷ cs) = String.◌∷◌ c (of_chars cs)

to_chars-of_chars : (cs : List Char) → to_chars (of_chars cs) ≡ cs
to_chars-of_chars [] = refl
to_chars-of_chars (c ∷ cs) = ap (λ t. c ∷ t) (to_chars-of_chars cs)

abbrev first_char : String → Char
first_char String.[] = "-"
first_char (String.◌∷◌ c s) = c

abbrev pub char_log : Json
char_log = record {
  Value = Char;
  log_entry = λ now error. first_char error;
  to_string = λ log. some (of_chars log);
  from_str = λ s. some (to_chars s);
}

abbrev string_of : Option String → String
string_of none = ""
string_of (some s) = s

pub char_log-IsJson : IsJson char_log
char_log-IsJson = record {
  from_str-to_string = λ log s h. rw (ap string_of (sym h)) (ap some (to_chars-of_chars log));
  prints = λ log. (of_chars log, refl);
}
