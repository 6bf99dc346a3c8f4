-- ===== src/Objects/PartFourteen.antt =====
-- native/include/openssl/obj_mac.h, lines 3940 to 4031. The newest object of a list is the last of the lines.
use logful_api.Base.{List, [], ◌∷◌, some}
use logful_api.Objects.Defs.{Obj, object, no_oid, under}

unfoldable pub objects_27 : List Obj
objects_27 =
    object "aes_256_cbc_hmac_sha1" (some "AES-256-CBC-HMAC-SHA1") (some "aes-256-cbc-hmac-sha1")
      (some 918) no_oid
    ∷ object "aes_192_cbc_hmac_sha1" (some "AES-192-CBC-HMAC-SHA1") (some "aes-192-cbc-hmac-sha1")
        (some 917) no_oid
    ∷ object "aes_128_cbc_hmac_sha1" (some "AES-128-CBC-HMAC-SHA1") (some "aes-128-cbc-hmac-sha1")
        (some 916) no_oid
    ∷ object "rc4_hmac_md5" (some "RC4-HMAC-MD5") (some "rc4-hmac-md5") (some 915) no_oid
    ∷ object "cmac" (some "CMAC") (some "cmac") (some 894) no_oid
    ∷ object "hmac" (some "HMAC") (some "hmac") (some 855) no_oid
    ∷ object "seed_ofb128" (some "SEED-OFB") (some "seed-ofb") (some 778)
        (under "kisa" (1 ∷ 6 ∷ []))
    ∷ object "seed_cfb128" (some "SEED-CFB") (some "seed-cfb") (some 779)
        (under "kisa" (1 ∷ 5 ∷ []))
    ∷ object "seed_cbc" (some "SEED-CBC") (some "seed-cbc") (some 777) (under "kisa" (1 ∷ 4 ∷ []))
    ∷ object "seed_ecb" (some "SEED-ECB") (some "seed-ecb") (some 776) (under "kisa" (1 ∷ 3 ∷ []))
    ∷ object "kisa" (some "KISA") (some "kisa") (some 773) (under "member_body" (410 ∷ 200004 ∷ []))
    ∷ object "camellia_256_cfb8" (some "CAMELLIA-256-CFB8") (some "camellia-256-cfb8") (some 765)
        no_oid
    ∷ object "camellia_192_cfb8" (some "CAMELLIA-192-CFB8") (some "camellia-192-cfb8") (some 764)
        no_oid
    ∷ object "camellia_128_cfb8" (some "CAMELLIA-128-CFB8") (some "camellia-128-cfb8") (some 763)
        no_oid
    ∷ object "camellia_256_cfb1" (some "CAMELLIA-256-CFB1") (some "camellia-256-cfb1") (some 762)
        no_oid
    ∷ object "camellia_192_cfb1" (some "CAMELLIA-192-CFB1") (some "camellia-192-cfb1") (some 761)
        no_oid
    ∷ object "camellia_128_cfb1" (some "CAMELLIA-128-CFB1") (some "camellia-128-cfb1") (some 760)
        no_oid
    ∷ object "camellia_256_cfb128" (some "CAMELLIA-256-CFB") (some "camellia-256-cfb") (some 759)
        (under "camellia" (44 ∷ []))
    ∷ object "camellia_256_ofb128" (some "CAMELLIA-256-OFB") (some "camellia-256-ofb") (some 768)
        (under "camellia" (43 ∷ []))
    ∷ object "camellia_256_ecb" (some "CAMELLIA-256-ECB") (some "camellia-256-ecb") (some 756)
        (under "camellia" (41 ∷ []))
    ∷ object "camellia_192_cfb128" (some "CAMELLIA-192-CFB") (some "camellia-192-cfb") (some 758)
        (under "camellia" (24 ∷ []))
    ∷ []
