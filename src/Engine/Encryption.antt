-- ===== src/Engine/Encryption.antt =====
-- src/engine.rs: `maybe_encrypt` and `maybe_decrypt`, in a build with the `encryption` feature, which
-- is on by default.
use squirreld.Prelude.{
  ℕ, ◌==◌, String, ◌≡◌, ◌≢◌, refl, arith, Bool, true, false, Option, none, some, if◌then◌else◌,
}
use squirreld.Error.{Result, ok, err, other, ◌>>=◌}
use squirreld.Types.{Bytes, ItemEncryption, default, enabled, disabled}
use squirreld.Crypto.{Cipher, IsAead, Entropy, IsEntropy, encrypt_record, decrypt_record}
use squirreld.Crypto.RoundTrip.{decrypt_record-encrypt_record}
use squirreld.Db.Sql.{RecordRow}

abbrev pub is_some {ℓ} : {A : Type ℓ} → Option A → Bool
is_some none = false
is_some (some a) = true

unfoldable pub should_encrypt : Option Bytes → ItemEncryption → Bool
should_encrypt kek default = is_some kek
should_encrypt kek enabled = true
should_encrypt kek disabled = false

-- The stored bytes, the wrapped key, and the format version.
abbrev pub Stored : Type 0
Stored = Bytes × Option Bytes × ℕ

abbrev pub no_kek : String
no_kek = "ItemEncryption::Enabled requires a KEK — call .encryption_key() on the builder"

unfoldable pub encrypt_with : Cipher → Entropy → Option Bytes → Bytes → Result Stored
encrypt_with c e none payload = err (other no_kek)
encrypt_with c e (some kek) payload = do
  (enc_data, enc_dek) ← encrypt_record c e kek payload
  ok (enc_data, some enc_dek, 1)

unfoldable pub maybe_encrypt :
    Cipher → Entropy → Option Bytes → Bytes → ItemEncryption → Result Stored
maybe_encrypt c e kek payload enc =
    if should_encrypt kek enc then encrypt_with c e kek payload else ok (payload, none, 0)

unfoldable pub decrypt_payload : Cipher → Option Bytes → Option Bytes → Bytes → Result Bytes
decrypt_payload c none dek payload = err (other "record is encrypted but no KEK is configured")
decrypt_payload c (some kek) none payload = err (other "format_version=1 but dek_encrypted is NULL")
decrypt_payload c (some kek) (some enc_dek) payload = decrypt_record c kek payload enc_dek

unfoldable pub maybe_decrypt : Cipher → Option Bytes → RecordRow → Result RecordRow
maybe_decrypt c kek row =
    if row.format_version == 1
    then (do
      plain ← decrypt_payload c kek row.dek_encrypted row.payload
      ok (record row { payload = plain; dek_encrypted = none }))
    else ok row

-- Under the setting of an item, for an engine with or without a key, the payload is stored as it is
-- or sealed, or refused where the item asks for encryption and there is no key.
pub maybe_encrypt_cases :
    (c : Cipher) (e : Entropy) (kek : Bytes) (payload : Bytes)
    → (maybe_encrypt c e none payload default ≡ ok (payload, none, 0))
      × (maybe_encrypt c e none payload disabled ≡ ok (payload, none, 0))
      × (maybe_encrypt c e (some kek) payload disabled ≡ ok (payload, none, 0))
      × (maybe_encrypt c e none payload enabled ≡ err (other no_kek))
      × (maybe_encrypt c e (some kek) payload default
          ≡ maybe_encrypt c e (some kek) payload enabled)
unfolding maybe_encrypt should_encrypt encrypt_with
maybe_encrypt_cases c e kek payload = (refl, refl, refl, refl, refl)

sealed_payload :
    (c : Cipher) (e : Entropy) (kek payload stored : Bytes) (dek : Option Bytes) (version : ℕ)
    → IsAead c
    → IsEntropy e
    → encrypt_with c e (some kek) payload ≡ ok (stored, dek, version)
    → (version ≡ 1) × (decrypt_payload c (some kek) dek stored ≡ ok payload)
unfolding encrypt_with decrypt_payload
sealed_payload c e kek payload stored none version aead he h = ground arith
sealed_payload c e kek payload stored (some enc_dek) version aead he h =
    ground (arith, decrypt_record-encrypt_record c aead e kek payload stored enc_dek he)

no_key-err :
    (c : Cipher) (e : Entropy) (payload : Bytes) (stored : Stored)
    → encrypt_with c e none payload ≢ ok stored
unfolding encrypt_with
no_key-err c e payload stored h = cc

-- For an AEAD that keeps its contract and random bytes of the right lengths, a row that was stored
-- by `maybe_encrypt` is read back with its payload in the clear, whatever the setting of the item,
-- by an engine with the same key.
pub maybe_decrypt-maybe_encrypt :
    (c : Cipher) (e : Entropy) (kek : Option Bytes) (payload : Bytes) (enc : ItemEncryption)
    (row : RecordRow)
    → IsAead c
    → IsEntropy e
    → maybe_encrypt c e kek payload enc ≡ ok (row.payload, row.dek_encrypted, row.format_version)
    → maybe_decrypt c kek row ≡ ok (record row { payload = payload; dek_encrypted = none })
unfolding maybe_encrypt maybe_decrypt should_encrypt
maybe_decrypt-maybe_encrypt c e none payload enc row aead he h =
    ground (arith, no_key-err c e payload (row.payload, row.dek_encrypted, row.format_version))
maybe_decrypt-maybe_encrypt c e (some kek) payload enc row aead he h =
    ground (
      arith,
      sealed_payload c e kek payload row.payload row.dek_encrypted row.format_version aead he,
    )
