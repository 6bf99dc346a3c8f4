-- ===== src/Native/Certificates.antt =====
-- native/interface.c: the certificate that `security` returns, and the state that it leaves.
use logful_api.Base.{
  ℕ, ◌≡◌, ◌≢◌, ◌≤◌, Bool, true, false, ◌==◌, if◌then◌else◌, ◌++◌, drop, length, replicate, Option,
  none, some, arith, ◌∙◌, ◌||◌, length-append, length-drop, length-replicate, take_all, drop_all,
  append-nil,
}
use logful_api.Base.Int.{ℤ}
use logful_api.ByteUtil.{Bytes}
use logful_api.StringUtil.{Text}
use logful_api.Native.{
  EvpCipher, EvpMd, Derived, Evp, Jni, State, Stack, returned, overwrite, set_region,
  create_certificate, security,
}

-- No JNI call fails.
pub record IsWorking (jni : Jni) : Type 0 where
  pub class_found : jni.find_certificate_class ≡ some tt
  pub constructor_found : jni.get_constructor ≡ some tt
  pub zeroed : (n : ℕ) → jni.new_byte_array n ≡ some (replicate n 0)
  pub constructs :
      (key iv : Bytes) → jni.new_certificate key iv ≡ some (record { key = key; iv = iv })

-- The local arrays have the sizes that they are declared with.
pub record IsStack (stack : Stack) : Type 0 where
  pub key_length : length stack.key ≡ 64
  pub iv_length : length stack.iv ≡ 16

-- OpenSSL knows AES-256 in CBC mode and MD5, and derives a key and an IV of the sizes of the cipher.
pub record Provides (evp : Evp) (c : EvpCipher) (d : EvpMd) : Type 0 where
  pub cipher_found : evp.get_cipherbyname true "aes-256-cbc" ≡ some c
  pub digest_found : evp.get_digestbyname true "md5" ≡ some d
  pub cipher_key : c.key_len ≡ 32
  pub cipher_iv : c.iv_len ≡ 16
  pub derives :
      (salt : Option Bytes) (bytes : Bytes) (n : ℤ)
      → ((evp.bytes_to_key c d salt (some bytes) n 1).returned ≢ 0)
        × (length (evp.bytes_to_key c d salt (some bytes) n 1).key ≡ c.key_len)
        × (length (evp.bytes_to_key c d salt (some bytes) n 1).iv ≡ c.iv_len)

region_all :
    (buffer : Bytes) (n : ℕ) → length buffer ≡ n → set_region (replicate n 0) n buffer ≡ buffer
region_all buffer n h = rw (
  take_all buffer n h,
  drop_all {A = ℕ} (replicate n 0) n (omega (arith, length-replicate {A = ℕ} n 0)),
  append-nil,
)

create_certificate_lem :
    (evp : Evp) (jni : Jni) (key iv : Bytes)
    → IsWorking jni
    → length key ≡ 64
    → length iv ≡ 16
    → create_certificate evp jni key iv ≡ returned (some (record { key = key; iv = iv }))
unfolding create_certificate
create_certificate_lem evp jni key iv w hk hi = rw (
  create_certificate,
  w.class_found,
  w.constructor_found,
  w.zeroed,
  w.zeroed,
  region_all key 64 hk,
  region_all iv 16 hi,
  w.constructs,
)

length-overwrite :
    (written buffer : Bytes)
    → length written ≤ length buffer
    → length (overwrite written buffer) ≡ length buffer
length-overwrite written buffer h = omega (
  arith,
  length-append written (drop (length written) buffer),
  length-drop (length written) buffer,
)

-- The branch on what EVP_BytesToKey returned, for a key of 32 bytes and an IV of 16.
on_derived :
    (evp : Evp) (jni : Jni) (dd : Derived) (stack : Stack)
    → IsWorking jni
    → IsStack stack
    → dd.returned ≢ 0
    → length dd.key ≡ 32
    → length dd.iv ≡ 16
    → (if dd.returned == 0
        then returned none
        else create_certificate evp jni (overwrite dd.key stack.key) (overwrite dd.iv stack.iv))
      ≡ returned (some (record { key = dd.key ++ drop 32 stack.key; iv = dd.iv }))
on_derived evp jni dd stack w k r hk hi = ground (
  arith,
  create_certificate_lem evp jni (overwrite dd.key stack.key) (overwrite dd.iv stack.iv) w,
  length-overwrite dd.key stack.key,
  length-overwrite dd.iv stack.iv,
  drop_all stack.iv 16,
  append-nil dd.iv,
)

abbrev is_none {ℓ} : {A : Type ℓ} → Option A → Bool
is_none none = true
is_none (some a) = false

module _ (evp : Evp) (jni : Jni) (key_str : Text) (key_len : ℤ) (stack : Stack) (s : State) where
  -- Where OpenSSL has the cipher and the digest, no JNI call fails and the local arrays have their
  -- declared sizes, `security` returns a certificate: its IV is the derived one, and its key is the
  -- 32 derived bytes with the last 32 bytes that the stack happened to hold behind them.
  pub security_certificate :
      (c : EvpCipher) (d : EvpMd) (key_char : Bytes)
      → Provides evp c d
      → IsWorking jni
      → IsStack stack
      → jni.get_string_utf_chars key_str ≡ some key_char
      → (security evp jni key_str key_len stack s).1
        ≡ returned (
            some (record {
              key =
                  (evp.bytes_to_key c d s.salt (some key_char) key_len 1).key ++ drop 32 stack.key;
              iv = (evp.bytes_to_key c d s.salt (some key_char) key_len 1).iv;
            }))
  unfolding security
  security_certificate c d key_char p w k chars =
      let (r, hk, hi) = p.derives s.salt key_char key_len in
      simp (p.cipher_found, p.digest_found, chars)
        (on_derived evp jni _ stack w k r (hk ∙ p.cipher_key) (hi ∙ p.cipher_iv))

  -- On every branch, if the string's characters are at hand: `security` sets the globals to what the
  -- lookups found, keeps the salt, leaves as many strings pinned as before, and leaves the
  -- algorithms loaded exactly if a lookup failed.
  pub security_state :
      jni.get_string_utf_chars key_str ≢ none
      → ((security evp jni key_str key_len stack s).0.cipher
          ≡ evp.get_cipherbyname true "aes-256-cbc")
        × ((security evp jni key_str key_len stack s).0.dgst ≡ evp.get_digestbyname true "md5")
        × ((security evp jni key_str key_len stack s).0.salt ≡ s.salt)
        × ((security evp jni key_str key_len stack s).0.pinned ≡ s.pinned)
        × ((security evp jni key_str key_len stack s).0.loaded ≡ (
            is_none (evp.get_cipherbyname true "aes-256-cbc")
            || is_none (evp.get_digestbyname true "md5")))
  unfolding security
  security_state h = ground arith

  pub security_salt : (security evp jni key_str key_len stack s).0.salt ≡ s.salt
  unfolding security
  security_salt = ground arith
