-- ===== src/Native.antt =====
-- native/interface.c: `CryptoTool.security`, the JNI function that derives a certificate from an
-- application's key. The structures are those of native/include/openssl/evp.h.
--
-- OpenSSL's functions and the JNI environment are the records `Evp` and `Jni`. A char pointer is
-- an `Option Bytes`, with `none` for NULL.
pub mod Certificates
pub mod Objects
use logful_api.Base.{
  ℕ, ◌+◌, ◌-◌, Bool, true, false, ◌==◌, if◌then◌else◌, List, ◌++◌, drop, take, length, Option, none,
  some, String,
}
use logful_api.Base.Int.{ℤ}
use logful_api.ByteUtil.{Bytes}
use logful_api.StringUtil.{Text}

-- The data of `struct evp_cipher_st` and `struct env_md_st`, without their methods.
pub record EvpCipher : Type 0 where
  pub nid : ℕ
  pub block_size : ℕ
  pub key_len : ℕ
  pub iv_len : ℕ
  pub flags : ℕ

pub record EvpMd : Type 0 where
  pub type : ℕ
  pub pkey_type : ℕ
  pub md_size : ℕ
  pub flags : ℕ

abbrev pub evp_max_key_length : ℕ
evp_max_key_length = 64

abbrev pub evp_max_iv_length : ℕ
evp_max_iv_length = 16

-- What EVP_BytesToKey returns, and what it writes at the front of its two buffers.
pub record Derived : Type 0 where
  pub returned : ℕ
  pub key : Bytes
  pub iv : Bytes

-- OpenSSL. The flag says whether the algorithms are loaded.
pub record Evp : Type 0 where
  pub get_cipherbyname : Bool → String → Option EvpCipher
  pub get_digestbyname : Bool → String → Option EvpMd
  -- cipher, digest, salt, data, length of the data, count
  pub bytes_to_key : EvpCipher → EvpMd → Option Bytes → Option Bytes → ℤ → ℕ → Derived

-- A Java object of class Certificate.
pub record Certificate : Type 0 where
  pub key : Bytes
  pub iv : Bytes

-- The JNI environment; `none` is NULL, with a Java exception pending.
pub record Jni : Type 0 where
  pub get_string_utf_chars : Text → Option Bytes
  pub find_certificate_class : Option (Unit {0})
  pub get_constructor : Option (Unit {0})
  pub new_byte_array : ℕ → Option Bytes
  pub new_certificate : Bytes → Bytes → Option Certificate

-- The globals of interface.c, with what it changes outside: whether OpenSSL's algorithms are
-- loaded, and how many strings of the Java heap are pinned.
pub record State : Type 0 where
  pub cipher : Option EvpCipher
  pub dgst : Option EvpMd
  pub salt : Option Bytes
  pub loaded : Bool
  pub pinned : ℕ

-- The bytes that the local arrays `key` and `iv` hold before anything is written to them.
pub record Stack : Type 0 where
  pub key : Bytes
  pub iv : Bytes

-- `undefined` is a call that the JNI specification leaves undefined: a NULL argument, or any but a
-- few functions while an exception is pending.
pub data Outcome : Type 0 where
  returned : Option Certificate → Outcome
  undefined : Outcome

-- The buffer after a write at its front.
abbrev pub overwrite : Bytes → Bytes → Bytes
overwrite written buffer = written ++ drop (length written) buffer

-- `SetByteArrayRegion(array, 0, n, buffer)`
abbrev pub set_region : Bytes → ℕ → Bytes → Bytes
set_region array n buffer = take n buffer ++ drop n array

-- OpenSSL_add_all_algorithms, EVP_cleanup, GetStringUTFChars and ReleaseStringUTFChars.
load : State → State
load s = record s { loaded = true }

cleanup : State → State
cleanup s = record s { loaded = false }

pin : Option Bytes → State → State
pin none s = s
pin (some chars) s = record s { pinned = s.pinned + 1 }

release : State → State
release s = record s { pinned = s.pinned - 1 }

module _ (evp : Evp) (jni : Jni) where
  -- The Java part of the branch that is taken if a key was derived.
  pub create_certificate : Bytes → Bytes → Outcome
  create_certificate key iv = elim jni.find_certificate_class [
    | none ↦ undefined
    | some cls ↦ elim jni.get_constructor [
      | none ↦ undefined
      | some constructor ↦ elim (jni.new_byte_array evp_max_key_length) [
        | none ↦ undefined
        | some key_array ↦ elim (jni.new_byte_array evp_max_iv_length) [
          | none ↦ undefined
          | some iv_array ↦ returned (
              jni.new_certificate (set_region key_array evp_max_key_length key)
                (set_region iv_array evp_max_iv_length iv))
        ]
      ]
    ]
  ]

  -- The derivation, with the string pinned. A NULL string has an exception pending, so every JNI
  -- call after it is undefined.
  pub derive : EvpCipher → EvpMd → Option Bytes → Option Bytes → ℤ → Stack → Outcome
  unfolding create_certificate
  derive cipher dgst salt none key_len stack = undefined
  derive cipher dgst salt (some key_char) key_len stack =
      let d = evp.bytes_to_key cipher dgst salt (some key_char) key_len 1 in
      if d.returned == 0
      then returned none
      else create_certificate (overwrite d.key stack.key) (overwrite d.iv stack.iv)

  lookups : State → State
  lookups s = record s {
    cipher = evp.get_cipherbyname s.loaded "aes-256-cbc";
    dgst = evp.get_digestbyname s.loaded "md5";
  }

  -- What follows the two lookups. `key_char` is pinned while the certificate is made.
  pub with_algorithms : EvpCipher → EvpMd → Text → ℤ → Stack → State → State × Outcome
  unfolding derive pin release cleanup
  with_algorithms cipher dgst key_str key_len stack s =
      let key_char = jni.get_string_utf_chars key_str in
      let s' = pin key_char s in
      let value = derive cipher dgst s'.salt key_char key_len stack in (cleanup (release s'), value)

  -- Java_com_getui_logful_server_util_CryptoTool_security
  pub security : Text → ℤ → Stack → State → State × Outcome
  unfolding with_algorithms load lookups
  security key_str key_len stack s =
      let s' = lookups (load s) in
      elim s'.cipher [
        | none ↦ (s', returned none)
        | some c ↦ elim s'.dgst [
          | none ↦ (s', returned none)
          | some d ↦ with_algorithms c d key_str key_len stack s'
        ]
      ]
