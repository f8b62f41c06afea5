-- ===== src/Crypto/RoundTrip.antt =====
-- src/crypto.rs, decryption after encryption.
use squirreld.Prelude.{
  ℕ, zero, suc, List, [], ◌∷◌, ◌++◌, ◌≡◌, refl, arith, Option-cases, inl, inr, length, take, drop,
  length-append, ap,
}
use squirreld.Error.{ok}
use squirreld.Types.{Bytes}
use squirreld.Crypto.{
  Cipher, IsAead, Entropy, IsEntropy, nonce_len, encrypt, decrypt, encrypt_record, decrypt_record,
}

take_append {ℓ} : {A : Type ℓ} (n : ℕ) (xs ys : List A) → length xs ≡ n → take n (xs ++ ys) ≡ xs
take_append zero [] ys h = refl
take_append zero (x ∷ xs) ys h = absurd (omega arith)
take_append (suc n) [] ys h = absurd (omega arith)
take_append (suc n) (x ∷ xs) ys h = ap (λ t. x ∷ t) (take_append n xs ys (omega arith))

drop_append {ℓ} : {A : Type ℓ} (n : ℕ) (xs ys : List A) → length xs ≡ n → drop n (xs ++ ys) ≡ ys
drop_append zero [] ys h = refl
drop_append zero (x ∷ xs) ys h = absurd (omega arith)
drop_append (suc n) [] ys h = absurd (omega arith)
drop_append (suc n) (x ∷ xs) ys h = drop_append n xs ys (omega arith)

module _ (c : Cipher) (aead : IsAead c) where
  -- Decrypting what was encrypted, with the same key and a nonce of twelve bytes, gives the plaintext.
  pub decrypt-encrypt :
      (key nonce plaintext stored : Bytes)
      → length nonce ≡ nonce_len
      → encrypt c key nonce plaintext ≡ ok stored
      → decrypt c key stored ≡ ok plaintext
  unfolding encrypt decrypt
  decrypt-encrypt key nonce plaintext stored hn h =
      elim (Option-cases (c.seal key nonce plaintext)) [
        | inl e ↦ ground arith
        | inr (ct, e) ↦ ground (
          arith,
          aead.unseal-seal key nonce plaintext ct e,
          aead.length-seal key nonce plaintext ct e,
          length-append nonce ct,
          take_append nonce_len nonce ct hn,
          drop_append nonce_len nonce ct hn,
        )
      ]

  -- For an AEAD that keeps its contract and random bytes of the right lengths, a record that was
  -- encrypted is decrypted to its payload with the same key.
  pub decrypt_record-encrypt_record :
      (e : Entropy) (kek payload enc_data enc_dek : Bytes)
      → IsEntropy e
      → encrypt_record c e kek payload ≡ ok (enc_data, enc_dek)
      → decrypt_record c kek enc_data enc_dek ≡ ok payload
  unfolding encrypt_record decrypt_record
  decrypt_record-encrypt_record e kek payload enc_data enc_dek he h = ground (
    arith,
    he.dek_len,
    decrypt-encrypt e.dek e.data_nonce payload enc_data he.data_nonce_len,
    decrypt-encrypt kek e.dek_nonce e.dek enc_dek he.dek_nonce_len,
  )
