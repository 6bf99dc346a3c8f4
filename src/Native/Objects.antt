-- ===== src/Native/Objects.antt =====
-- native/interface.c with native/include/openssl/obj_mac.h: which cipher and which digest `security`
-- looks up by their names.
use logful_api.Base.{ℕ, ◌≡◌, true, [], ◌∷◌, some, String, get_elem?}
use logful_api.Native.{EvpCipher, EvpMd, Evp}
use logful_api.Objects.Defs.{under, Obj, object, has_name, has_nid}
use logful_api.Objects.Table.{objects}

-- An object of the header has the name and the number.
abbrev pub HasObject : String → ℕ → Type 0
HasObject s n =
    (i : ℕ) × (x : Obj) × (get_elem? objects i ≡ some x)
    × (has_name x s ≡ true)
    × (has_nid x n ≡ true)

-- OpenSSL registers a cipher and a digest under the short and the long name of the object whose NID
-- is in its structure.
pub record Registers (evp : Evp) : Type 0 where
  pub cipher_object :
      (c : EvpCipher)
      → evp.get_cipherbyname true "aes-256-cbc" ≡ some c
      → HasObject "aes-256-cbc" c.nid
  pub digest_object :
      (d : EvpMd) → evp.get_digestbyname true "md5" ≡ some d → HasObject "md5" d.type

abbrev aes_256_cbc : Obj
aes_256_cbc =
    object "aes_256_cbc" (some "AES-256-CBC") (some "aes-256-cbc") (some 427)
      (under "aes" (42 ∷ []))

abbrev md5 : Obj
md5 = object "md5" (some "MD5") (some "md5") (some 4) (under "rsadsi" (2 ∷ 5 ∷ []))
