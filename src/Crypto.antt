-- ===== src/Crypto.antt =====
-- gorouter/internal/crypto/crypto.go: the sealing of secrets. Base64, AES-GCM and the random reader are records of
-- functions on bytes; a text that is sealed is its bytes.
use yi_api_proxy.Base.{
  ℕ, zero, suc, ◌≡◌, refl, ap, String, false, List, [], ◌∷◌, ◌++◌, Option, none, some, ◌⊎◌, inl,
  inr, if◌then◌else◌, ltb, ◌==◌, length, length-append, arith,
}
use yi_api_proxy.Base.Text.{slice_from}

pub data CryptoError : Type 0 where
  bad_key bad_text not_initialized no_cipher no_nonce too_short not_authentic : CryptoError
  key_length : ℕ → CryptoError

-- `base64.StdEncoding`
pub record Base64 : Type 0 where
  pub encode : List ℕ → String
  pub decode : String → Option (List ℕ)
  pub decode-encode : (bytes : List ℕ) → decode (encode bytes) ≡ some bytes

-- A GCM of one key, `Seal` and `Open`: what is sealed under a nonce of its size opens under it.
pub record Aead : Type 0 where
  pub nonce_size : ℕ
  pub seal : List ℕ → List ℕ → List ℕ
  pub unseal : List ℕ → List ℕ → Option (List ℕ)
  pub unseal-seal :
      (nonce plaintext : List ℕ)
      → length nonce ≡ nonce_size
      → unseal nonce (seal nonce plaintext) ≡ some plaintext

abbrev pub Attempted : Type 0 → Type 0
Attempted A = CryptoError ⊎ A

-- s[:n] for an n that is at most the length.
abbrev pub first_bytes : ℕ → List ℕ → List ℕ
first_bytes zero s = []
first_bytes (suc n) [] = []
first_bytes (suc n) (b ∷ s) = b ∷ first_bytes n s

first_bytes-append : (s r : List ℕ) → first_bytes (length s) (s ++ r) ≡ s
first_bytes-append [] r = refl
first_bytes-append (b ∷ s) r = ap (λ q. b ∷ q) (first_bytes-append s r)

slice_from-append : (s r : List ℕ) → slice_from (length s) (s ++ r) ≡ r
slice_from-append [] r = refl
slice_from-append (b ∷ s) r = slice_from-append s r

-- `masterKey`, none for nil.
abbrev pub MasterKey : Type 0
MasterKey = Option (List ℕ)

-- `new_aead` is `aes.NewCipher` and `cipher.NewGCM`.
module _ (base64 : Base64) (new_aead : List ℕ → Option Aead) where
  abbrev pub install_key : MasterKey → Option (List ℕ) → Option CryptoError × MasterKey
  install_key old none = (some bad_key, old)
  install_key old (some key) =
      if length key == 32 then (none, some key) else (some (key_length (length key)), old)

  -- `Init`
  unfoldable pub init_key : String → MasterKey → Option CryptoError × MasterKey
  init_key encryption_key old = install_key old (base64.decode encryption_key)

  abbrev pub seal_with : Aead → String ⊎ List ℕ → List ℕ → Attempted String
  seal_with aead (inl err) plaintext = inl no_nonce
  seal_with aead (inr nonce) plaintext = inr (base64.encode (nonce ++ aead.seal nonce plaintext))

  abbrev pub encrypt_under : (ℕ → String ⊎ List ℕ) → List ℕ → Option Aead → Attempted String
  encrypt_under random plaintext none = inl no_cipher
  encrypt_under random plaintext (some aead) = seal_with aead (random aead.nonce_size) plaintext

  -- `Encrypt`; `random` reads that many random bytes.
  unfoldable pub encrypt : (ℕ → String ⊎ List ℕ) → List ℕ → MasterKey → Attempted String
  encrypt random plaintext none = inl not_initialized
  encrypt random plaintext (some key) = encrypt_under random plaintext (new_aead key)

  abbrev pub opened : Option (List ℕ) → Attempted (List ℕ)
  opened none = inl not_authentic
  opened (some plaintext) = inr plaintext

  abbrev pub open_with : List ℕ → Option Aead → Attempted (List ℕ)
  open_with ciphertext none = inl no_cipher
  open_with ciphertext (some aead) =
      if ltb (length ciphertext) aead.nonce_size
      then inl too_short
      else opened (
          aead.unseal (first_bytes aead.nonce_size ciphertext)
            (slice_from aead.nonce_size ciphertext))

  abbrev pub decrypt_bytes : List ℕ → Option (List ℕ) → Attempted (List ℕ)
  decrypt_bytes key none = inl bad_text
  decrypt_bytes key (some ciphertext) = open_with ciphertext (new_aead key)

  -- `Decrypt`
  unfoldable pub decrypt : String → MasterKey → Attempted (List ℕ)
  decrypt encoded none = inl not_initialized
  decrypt encoded (some key) = decrypt_bytes key (base64.decode encoded)

  open_with-seal :
      (aead : Aead) (nonce plaintext : List ℕ)
      → length nonce ≡ aead.nonce_size
      → open_with (nonce ++ aead.seal nonce plaintext) (some aead) ≡ inr plaintext
  open_with-seal aead nonce plaintext h =
      let long : ltb (length (nonce ++ aead.seal nonce plaintext)) aead.nonce_size ≡ false =
        ground (arith, length-append nonce (aead.seal nonce plaintext), h) in
      rw
        (
          long,
          ← h,
          first_bytes-append nonce (aead.seal nonce plaintext),
          slice_from-append nonce (aead.seal nonce plaintext),
          aead.unseal-seal nonce plaintext h,
        )
        refl

  module _ (random : ℕ → String ⊎ List ℕ) (plaintext : List ℕ) (encoded : String)
      (fills : (n : ℕ) (bytes : List ℕ) → random n ≡ inr bytes → length bytes ≡ n) where
    abbrev encoded_or : String → Attempted String → String
    encoded_or s (inl err) = s
    encoded_or s (inr t) = t

    clash : {A : Type 0} {err : CryptoError} {a : A} → inl err ≡ inr a → ⊥
    clash h = cc

    sealed_opens :
        (key : List ℕ) (aead : Aead) (r : String ⊎ List ℕ)
        → new_aead key ≡ some aead
        → random aead.nonce_size ≡ r
        → seal_with aead r plaintext ≡ inr encoded
        → decrypt_bytes key (base64.decode encoded) ≡ inr plaintext
    sealed_opens key aead (inl err) n f h = absurd (clash h)
    sealed_opens key aead (inr nonce) n f h =
        let same : base64.encode (nonce ++ aead.seal nonce plaintext) ≡ encoded =
          ap (encoded_or encoded) h in
        rw (← same, base64.decode-encode (nonce ++ aead.seal nonce plaintext), n)
          (open_with-seal aead nonce plaintext (fills aead.nonce_size nonce f))

    encrypted_opens :
        (key : List ℕ) (o : Option Aead)
        → new_aead key ≡ o
        → encrypt_under random plaintext o ≡ inr encoded
        → decrypt_bytes key (base64.decode encoded) ≡ inr plaintext
    encrypted_opens key none n h = absurd (clash h)
    encrypted_opens key (some aead) n h = sealed_opens key aead (random aead.nonce_size) n refl h

    -- What `Encrypt` returned under a master key, `Decrypt` turns back under the same key, if the random reader
    -- fills the nonce, base64 decodes what it encoded, and GCM opens what it sealed.
    pub decrypt-encrypt :
        (master_key : MasterKey)
        → encrypt random plaintext master_key ≡ inr encoded
        → decrypt encoded master_key ≡ inr plaintext
    unfolding encrypt decrypt
    decrypt-encrypt none h = absurd (clash h)
    decrypt-encrypt (some key) h = encrypted_opens key (new_aead key) refl h
