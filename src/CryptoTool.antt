-- ===== src/CryptoTool.antt =====
-- util/CryptoTool.java: the two `AESDecrypt` methods. The one for older clients derives its key by
-- the native `security` of Native.antt and keeps the certificates that it made.
--
-- The charsets, Base64 and the ciphers are the record `Primitives`. The Cipher objects that the
-- class keeps are initialised at each use, so they carry no state from one call to the next.
pub mod Cache
use logful_api.Base.{
  ℕ, ◌+◌, ◌-◌, Bool, true, false, ◌&&◌, ◌||◌, ◌==◌, if◌then◌else◌, List, [], ◌∷◌, ◌++◌, take,
  length, replicate, Option, none, some,
}
use logful_api.Base.Int.{ℤ, pos}
use logful_api.ByteUtil.{Bytes}
use logful_api.StringUtil.{Text, codes, equals, crypto_error}
use logful_api.Native.{Evp, Jni, Certificate, State, Stack, Outcome, returned, undefined, security}
use mathlib.Core.Option

-- `none` from a cipher is an exception.
pub record Primitives : Type 0 where
  pub get_bytes : Text → Bytes
  pub to_string : Bytes → Text
  pub encode_base64 : Bytes → Bytes
  pub decode_base64 : Bytes → Bytes
  pub cbc_decrypt : Bytes → Bytes → Bytes → Option Bytes
  pub ecb_decrypt : Bytes → Bytes → Option Bytes

abbrev pub key_suffix : Text
key_suffix = codes "A8P20vWlvfSu3JMO6tBjgr05UvjHAh2x"

abbrev pub error_bytes : Bytes
error_bytes = 0 ∷ 0 ∷ []

-- `String.split("__")`: the pieces between the separators, found from the left.
pub pieces : Text → Text → List Text
pieces current [] = current ∷ []
pieces current (a ∷ []) = (current ++ (a ∷ [])) ∷ []
pieces current (a ∷ b ∷ s) = elim (a == b'_' && b == b'_') [
  | true ↦ current ∷ pieces [] s
  | false ↦ pieces (current ++ (a ∷ [])) (b ∷ s)
]

unfoldable pub is_empty : Text → Bool
is_empty [] = true
is_empty (c ∷ s) = false

-- `split` leaves the empty pieces at the end out, unless there is no separator.
unfoldable pub drop_empty_end : List Text → List Text
unfolding is_empty
drop_empty_end [] = []
drop_empty_end (p ∷ ps) =
    let rest = drop_empty_end ps in if is_empty p && length rest == 0 then [] else p ∷ rest

unfoldable pub split : Text → List Text
unfolding pieces drop_empty_end
split s = let ps = pieces [] s in if length ps == 1 then ps else drop_empty_end ps

-- `Arrays.copyOf`
abbrev pub copy_of : Bytes → ℕ → Bytes
copy_of b n = take n b ++ replicate (n - length b) 0

-- The certificates, by application, and the state of interface.c.
pub record Store : Type 0 where
  pub key_map : List (Text × Certificate)
  pub native : State

pub find_key : Text → List (Text × Certificate) → Option Certificate
find_key k [] = none
find_key k ((j, c) ∷ m) = if equals j k then some c else find_key k m

-- What a call ends in. `undefined_call` is an undefined call in interface.c.
pub data Answer : Type 0 where
  answer : Option Text → Answer
  undefined_call : Answer

-- The tests on the arguments: what is not there, and the client's marks of failed encryption.
unfoldable pub refused : Bytes → Bool
refused chunk = equals chunk error_bytes || equals chunk crypto_error

module _ (prim : Primitives) where
  -- The part behind the second of two underscores, decrypted by a key of 32 bytes.
  unfoldable pub decrypt_parts : Bytes → Bytes → List Text → Option Text
  decrypt_parts key iv (salt ∷ text ∷ []) =
      Option.map prim.to_string (prim.cbc_decrypt key iv (prim.decode_base64 (prim.get_bytes text)))
  decrypt_parts key iv _ = none

  unfoldable pub decrypt_text : Bytes → Bytes → Bytes → Option Text
  decrypt_text key iv chunk =
      decrypt_parts key iv (split (prim.to_string (prim.decode_base64 chunk)))

  pub decrypt_by : Certificate → Bytes → Option Text
  decrypt_by c chunk = decrypt_text (copy_of c.key 32) c.iv chunk

  -- The key that stands for an application: its Base64 form and the length of that.
  pub key_string : Text → Bytes
  key_string app_id = prim.encode_base64 (prim.get_bytes (app_id ++ key_suffix))

  module _ (evp : Evp) (jni : Jni) where
    -- A certificate that the native code made is kept.
    pub on_created : Text → Bytes → List (Text × Certificate) → State × Outcome → Store × Answer
    on_created app_id chunk m (s, undefined) = (record { key_map = m; native = s }, undefined_call)
    on_created app_id chunk m (s, returned none) = (record { key_map = m; native = s }, answer none)
    on_created app_id chunk m (s, returned (some c)) =
        (record { key_map = (app_id, c) ∷ m; native = s }, answer (decrypt_by c chunk))

    pub decrypt_cached : Text → Bytes → Stack → Store → Option Certificate → Store × Answer
    unfolding on_created
    decrypt_cached app_id chunk stack st (some c) = (st, answer (decrypt_by c chunk))
    decrypt_cached app_id chunk stack st none = on_created app_id chunk st.key_map (
        security evp jni (prim.to_string (key_string app_id)) (pos (length (key_string app_id)))
          stack st.native)

    -- `AESDecrypt(String appId, byte[] data)`
    pub aes_decrypt_app : Option Text → Option Bytes → Stack → Store → Store × Answer
    unfolding decrypt_cached
    aes_decrypt_app none chunk stack st = (st, answer none)
    aes_decrypt_app (some []) chunk stack st = (st, answer none)
    aes_decrypt_app (some (a ∷ id)) none stack st = (st, answer none)
    aes_decrypt_app (some (a ∷ id)) (some chunk) stack st =
        if refused chunk
        then (st, answer none)
        else decrypt_cached (a ∷ id) chunk stack st (find_key (a ∷ id) st.key_map)

  -- `AESDecrypt(byte[] security, byte[] data)`
  unfoldable pub aes_decrypt : Option Bytes → Option Bytes → Option Text
  aes_decrypt none chunk = none
  aes_decrypt (some key) none = none
  aes_decrypt (some key) (some chunk) =
      if refused chunk then none else Option.map prim.to_string (prim.ecb_decrypt key chunk)
