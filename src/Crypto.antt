-- ===== src/Crypto.antt =====
-- src/crypto.rs: envelope encryption. AES-256-GCM is the `aes-gcm` crate and a parameter; random
-- keys and nonces are arguments.
pub mod RoundTrip
use squirreld.Prelude.{
  ℕ, ◌+◌, ◌<◌, String, List, ◌++◌, ◌≡◌, Option, none, some, ltb, ◌==◌, if◌then◌else◌, length, take,
  drop,
}
use squirreld.Error.{Result, ok, err, other, ◌>>=◌}
use squirreld.Types.{Bytes}

-- `cipher.encrypt(nonce, plaintext)` and `cipher.decrypt(nonce, ciphertext)` for a 32-byte key, and
-- the texts of the errors that the crate's failures are wrapped in.
pub record Cipher : Type 0 where
  pub seal : Bytes → Bytes → Bytes → Option Bytes
  pub unseal : Bytes → Bytes → Bytes → Option Bytes
  pub encrypt_error : String
  pub decrypt_error : String

-- What AES-GCM promises: what was sealed is unsealed, and the ciphertext has a 16-byte tag more.
pub record IsAead (c : Cipher) : Type 0 where
  pub unseal-seal :
      (key nonce plaintext ciphertext : Bytes)
      → c.seal key nonce plaintext ≡ some ciphertext
      → c.unseal key nonce ciphertext ≡ some plaintext
  pub length-seal :
      (key nonce plaintext ciphertext : Bytes)
      → c.seal key nonce plaintext ≡ some ciphertext
      → length ciphertext ≡ length plaintext + 16

-- What `OsRng` and `rand::rng()` give to one `encrypt_record`.
pub record Entropy : Type 0 where
  pub dek : Bytes
  pub data_nonce : Bytes
  pub dek_nonce : Bytes

pub record IsEntropy (e : Entropy) : Type 0 where
  pub dek_len : length e.dek ≡ 32
  pub data_nonce_len : length e.data_nonce ≡ 12
  pub dek_nonce_len : length e.dek_nonce ≡ 12

abbrev pub nonce_len : ℕ
nonce_len = 12

-- The nonce and the GCM tag.
abbrev pub min_ciphertext_len : ℕ
min_ciphertext_len = nonce_len + 16

module _ (c : Cipher) where
  unfoldable pub encrypt : Bytes → Bytes → Bytes → Result Bytes
  encrypt key nonce plaintext = elim (c.seal key nonce plaintext) [
    | none ↦ err (other c.encrypt_error)
    | some ciphertext ↦ ok (nonce ++ ciphertext)
  ]

  unfoldable pub decrypt : Bytes → Bytes → Result Bytes
  decrypt key stored =
      if ltb (length stored) min_ciphertext_len
      then err (other "ciphertext too short")
      else elim (c.unseal key (take nonce_len stored) (drop nonce_len stored)) [
        | none ↦ err (other c.decrypt_error)
        | some plaintext ↦ ok plaintext
      ]

  unfoldable pub encrypt_record : Entropy → Bytes → Bytes → Result (Bytes × Bytes)
  encrypt_record e kek payload = do
    enc_data ← encrypt e.dek e.data_nonce payload
    enc_dek ← encrypt kek e.dek_nonce e.dek
    ok (enc_data, enc_dek)

  -- `try_into` of the unwrapped key into `[u8; 32]`
  abbrev pub as_key : Bytes → Result Bytes
  as_key bs = if length bs == 32 then ok bs else err (other "decrypted DEK has wrong length")

  unfoldable pub decrypt_record : Bytes → Bytes → Bytes → Result Bytes
  decrypt_record kek enc_data enc_dek = do
    dek_bytes ← decrypt kek enc_dek
    dek ← as_key dek_bytes
    decrypt dek enc_data
