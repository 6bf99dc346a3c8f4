-- ===== src/Tests/Certificates.antt =====
-- native/interface.c, util/CryptoTool.java and the objects of obj_mac.h.
use logful_api.Base.{◌≡◌, refl, arith, true, false, [], ◌∷◌, ◌++◌, replicate, none, some}
use logful_api.Base.Int.{pos}
use logful_api.ByteUtil.{Bytes}
use logful_api.StringUtil.{codes, equals}
use logful_api.Native.{EvpCipher, EvpMd, Derived, Evp, Jni, State, Stack, returned, security}
use logful_api.Native.Certificates.{
  IsWorking, IsStack, Provides, security_certificate, security_state,
}
use logful_api.CryptoTool.{
  Primitives, Store, answer, aes_decrypt_app, decrypt_text, decrypt_parts, split, refused,
}
use logful_api.CryptoTool.Cache.{app_text, AllServe, aes_decrypt_app_lem}
use logful_api.Objects.Defs.{Obj, object, under, expand}
use logful_api.Objects.Expansion.{defined}
use logful_api.Objects.Table.{objects}

abbrev aes : EvpCipher
aes = record { nid = 427; block_size = 16; key_len = 32; iv_len = 16; flags = 2 }

abbrev md5 : EvpMd
md5 = record { type = 4; pkey_type = 8; md_size = 16; flags = 0 }

-- A derivation that forgets its input.
abbrev fixed : Derived
fixed = record { returned = 32; key = replicate 32 1; iv = replicate 16 2 }

abbrev evp : Evp
evp = record {
  get_cipherbyname = λ loaded name. some aes;
  get_digestbyname = λ loaded name. some md5;
  bytes_to_key = λ c d salt bytes n count. fixed;
}

abbrev jni : Jni
jni = record {
  get_string_utf_chars = λ t. some t;
  find_certificate_class = some tt;
  get_constructor = some tt;
  new_byte_array = λ n. some (replicate n 0);
  new_certificate = λ key iv. some (record { key = key; iv = iv });
}

abbrev before : State
before = record { cipher = none; dgst = none; salt = none; loaded = false; pinned = 0 }

abbrev junk : Stack
junk = record { key = replicate 64 9; iv = replicate 16 9 }

jni-IsWorking : IsWorking jni
jni-IsWorking = record {
  class_found = refl;
  constructor_found = refl;
  zeroed = λ n. refl;
  constructs = λ key iv. refl;
}

junk-IsStack : IsStack junk
junk-IsStack = record { key_length = refl; iv_length = refl }

evp-Provides : Provides evp aes md5
evp-Provides = record {
  cipher_found = refl;
  digest_found = refl;
  cipher_key = refl;
  cipher_iv = refl;
  derives = λ salt bytes n. (omega arith, refl, refl);
}

security_certificate_example :
    (security evp jni (codes "key") (pos 3) junk before).1
    ≡ returned (some (record { key = replicate 32 1 ++ replicate 32 9; iv = replicate 16 2 }))
security_certificate_example =
    security_certificate evp jni (codes "key") (pos 3) junk before aes md5 (codes "key")
      evp-Provides jni-IsWorking junk-IsStack refl

security_state_example :
    ((security evp jni (codes "key") (pos 3) junk before).0.cipher ≡ some aes)
    × ((security evp jni (codes "key") (pos 3) junk before).0.dgst ≡ some md5)
    × ((security evp jni (codes "key") (pos 3) junk before).0.salt ≡ none)
    × ((security evp jni (codes "key") (pos 3) junk before).0.pinned ≡ 0)
    × ((security evp jni (codes "key") (pos 3) junk before).0.loaded ≡ false)
security_state_example = security_state evp jni (codes "key") (pos 3) junk before (λ e. cc)

-- A cipher that does nothing.
abbrev plain : Primitives
plain = record {
  get_bytes = λ t. t;
  to_string = λ b. b;
  encode_base64 = λ b. b;
  decode_base64 = λ b. b;
  cbc_decrypt = λ key iv b. some b;
  ecb_decrypt = λ key b. some b;
}

abbrev empty : Store
empty = record { key_map = []; native = before }

abbrev salted : Bytes
salted = codes "salt__text"

aes_decrypt_app_lem_example :
    ((aes_decrypt_app plain evp jni (some (codes "id")) (some salted) junk empty).1
      ≡ answer (app_text plain evp (λ t. t) aes md5 (some (codes "id")) (some salted)))
    × AllServe plain evp
        (λ t. t)
        aes
        md5
        (aes_decrypt_app plain evp jni (some (codes "id")) (some salted) junk empty).0.key_map
    × ((aes_decrypt_app plain evp jni (some (codes "id")) (some salted) junk empty).0.native.salt
        ≡ none)
aes_decrypt_app_lem_example =
    aes_decrypt_app_lem plain evp jni (λ t. t) aes md5 evp-Provides jni-IsWorking (λ t. refl) junk
      junk-IsStack (some (codes "id")) (some salted) empty refl tt

app_text_run :
    app_text plain evp (λ t. t) aes md5 (some (codes "id")) (some salted) ≡ some (codes "text")
unfolding app_text decrypt_text decrypt_parts split refused equals
app_text_run = refl

-- The object of AES-256 in CBC mode, which interface.c asks for.
abbrev aes_256_cbc : Obj
aes_256_cbc =
    object "aes_256_cbc" (some "AES-256-CBC") (some "aes-256-cbc") (some 427)
      (under "aes" (42 ∷ []))

abbrev md5_object : Obj
md5_object = object "md5" (some "MD5") (some "md5") (some 4) (under "rsadsi" (2 ∷ 5 ∷ []))

aes_defined : defined objects "aes_256_cbc" ≡ true
unfolding defined objects
aes_defined = refl

aes_oid : expand objects "aes_256_cbc" ≡ some (2 ∷ 16 ∷ 840 ∷ 1 ∷ 101 ∷ 3 ∷ 4 ∷ 1 ∷ 42 ∷ [])
unfolding expand objects
aes_oid = refl
