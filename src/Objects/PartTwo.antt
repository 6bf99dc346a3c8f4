-- ===== src/Objects/PartTwo.antt =====
-- native/include/openssl/obj_mac.h, lines 364 to 662. The newest object of a list is the last of the lines.
use logful_api.Base.{List, [], ◌∷◌, none, some}
use logful_api.Objects.Defs.{Obj, object, no_oid, under}

unfoldable pub objects_3 : List Obj
objects_3 =
    object "wap_wsg_idm_ecid_wtls12" (some "wap-wsg-idm-ecid-wtls12") none (some 745)
      (under "wap_wsg_idm_ecid" (12 ∷ []))
    ∷ object "wap_wsg_idm_ecid_wtls11" (some "wap-wsg-idm-ecid-wtls11") none (some 744)
        (under "wap_wsg_idm_ecid" (11 ∷ []))
    ∷ object "wap_wsg_idm_ecid_wtls10" (some "wap-wsg-idm-ecid-wtls10") none (some 743)
        (under "wap_wsg_idm_ecid" (10 ∷ []))
    ∷ object "wap_wsg_idm_ecid_wtls9" (some "wap-wsg-idm-ecid-wtls9") none (some 742)
        (under "wap_wsg_idm_ecid" (9 ∷ []))
    ∷ object "wap_wsg_idm_ecid_wtls8" (some "wap-wsg-idm-ecid-wtls8") none (some 741)
        (under "wap_wsg_idm_ecid" (8 ∷ []))
    ∷ object "wap_wsg_idm_ecid_wtls7" (some "wap-wsg-idm-ecid-wtls7") none (some 740)
        (under "wap_wsg_idm_ecid" (7 ∷ []))
    ∷ object "wap_wsg_idm_ecid_wtls6" (some "wap-wsg-idm-ecid-wtls6") none (some 739)
        (under "wap_wsg_idm_ecid" (6 ∷ []))
    ∷ object "wap_wsg_idm_ecid_wtls5" (some "wap-wsg-idm-ecid-wtls5") none (some 738)
        (under "wap_wsg_idm_ecid" (5 ∷ []))
    ∷ object "wap_wsg_idm_ecid_wtls4" (some "wap-wsg-idm-ecid-wtls4") none (some 737)
        (under "wap_wsg_idm_ecid" (4 ∷ []))
    ∷ object "wap_wsg_idm_ecid_wtls3" (some "wap-wsg-idm-ecid-wtls3") none (some 736)
        (under "wap_wsg_idm_ecid" (3 ∷ []))
    ∷ object "wap_wsg_idm_ecid_wtls1" (some "wap-wsg-idm-ecid-wtls1") none (some 735)
        (under "wap_wsg_idm_ecid" (1 ∷ []))
    ∷ object "wap_wsg_idm_ecid" none none none (under "wap_wsg" (4 ∷ []))
    ∷ object "sect571r1" (some "sect571r1") none (some 734) (under "secg_ellipticCurve" (39 ∷ []))
    ∷ object "sect571k1" (some "sect571k1") none (some 733) (under "secg_ellipticCurve" (38 ∷ []))
    ∷ object "sect409r1" (some "sect409r1") none (some 732) (under "secg_ellipticCurve" (37 ∷ []))
    ∷ object "sect409k1" (some "sect409k1") none (some 731) (under "secg_ellipticCurve" (36 ∷ []))
    ∷ object "sect283r1" (some "sect283r1") none (some 730) (under "secg_ellipticCurve" (17 ∷ []))
    ∷ object "sect283k1" (some "sect283k1") none (some 729) (under "secg_ellipticCurve" (16 ∷ []))
    ∷ object "sect239k1" (some "sect239k1") none (some 728) (under "secg_ellipticCurve" (3 ∷ []))
    ∷ object "sect233r1" (some "sect233r1") none (some 727) (under "secg_ellipticCurve" (27 ∷ []))
    ∷ object "sect233k1" (some "sect233k1") none (some 726) (under "secg_ellipticCurve" (26 ∷ []))
    ∷ object "sect193r2" (some "sect193r2") none (some 725) (under "secg_ellipticCurve" (25 ∷ []))
    ∷ object "sect193r1" (some "sect193r1") none (some 724) (under "secg_ellipticCurve" (24 ∷ []))
    ∷ object "sect163r2" (some "sect163r2") none (some 723) (under "secg_ellipticCurve" (15 ∷ []))
    ∷ object "sect163r1" (some "sect163r1") none (some 722) (under "secg_ellipticCurve" (2 ∷ []))
    ∷ object "sect163k1" (some "sect163k1") none (some 721) (under "secg_ellipticCurve" (1 ∷ []))
    ∷ object "sect131r2" (some "sect131r2") none (some 720) (under "secg_ellipticCurve" (23 ∷ []))
    ∷ object "sect131r1" (some "sect131r1") none (some 719) (under "secg_ellipticCurve" (22 ∷ []))
    ∷ object "sect113r2" (some "sect113r2") none (some 718) (under "secg_ellipticCurve" (5 ∷ []))
    ∷ object "sect113r1" (some "sect113r1") none (some 717) (under "secg_ellipticCurve" (4 ∷ []))
    ∷ object "secp521r1" (some "secp521r1") none (some 716) (under "secg_ellipticCurve" (35 ∷ []))
    ∷ object "secp384r1" (some "secp384r1") none (some 715) (under "secg_ellipticCurve" (34 ∷ []))
    ∷ object "secp256k1" (some "secp256k1") none (some 714) (under "secg_ellipticCurve" (10 ∷ []))
    ∷ object "secp224r1" (some "secp224r1") none (some 713) (under "secg_ellipticCurve" (33 ∷ []))
    ∷ object "secp224k1" (some "secp224k1") none (some 712) (under "secg_ellipticCurve" (32 ∷ []))
    ∷ object "secp192k1" (some "secp192k1") none (some 711) (under "secg_ellipticCurve" (31 ∷ []))
    ∷ object "secp160r2" (some "secp160r2") none (some 710) (under "secg_ellipticCurve" (30 ∷ []))
    ∷ object "secp160r1" (some "secp160r1") none (some 709) (under "secg_ellipticCurve" (8 ∷ []))
    ∷ []

unfoldable pub objects_4 : List Obj
objects_4 =
    object "id_pbkdf2" none (some "PBKDF2") (some 69) (under "pkcs5" (12 ∷ []))
    ∷ object "pbeWithSHA1AndRC2_CBC" (some "PBE-SHA1-RC2-64") (some "pbeWithSHA1AndRC2-CBC")
        (some 68) (under "pkcs5" (11 ∷ []))
    ∷ object "pbeWithSHA1AndDES_CBC" (some "PBE-SHA1-DES") (some "pbeWithSHA1AndDES-CBC") (some 170)
        (under "pkcs5" (10 ∷ []))
    ∷ object "pbeWithMD5AndRC2_CBC" (some "PBE-MD5-RC2-64") (some "pbeWithMD5AndRC2-CBC") (some 169)
        (under "pkcs5" (6 ∷ []))
    ∷ object "pbeWithMD2AndRC2_CBC" (some "PBE-MD2-RC2-64") (some "pbeWithMD2AndRC2-CBC") (some 168)
        (under "pkcs5" (4 ∷ []))
    ∷ object "pbeWithMD5AndDES_CBC" (some "PBE-MD5-DES") (some "pbeWithMD5AndDES-CBC") (some 10)
        (under "pkcs5" (3 ∷ []))
    ∷ object "pbeWithMD2AndDES_CBC" (some "PBE-MD2-DES") (some "pbeWithMD2AndDES-CBC") (some 9)
        (under "pkcs5" (1 ∷ []))
    ∷ object "pkcs5" (some "pkcs5") none (some 187) (under "pkcs" (5 ∷ []))
    ∷ object "dhKeyAgreement" none (some "dhKeyAgreement") (some 28) (under "pkcs3" (1 ∷ []))
    ∷ object "pkcs3" (some "pkcs3") none (some 27) (under "pkcs" (3 ∷ []))
    ∷ object "sha224WithRSAEncryption" (some "RSA-SHA224") (some "sha224WithRSAEncryption")
        (some 671) (under "pkcs1" (14 ∷ []))
    ∷ object "sha512WithRSAEncryption" (some "RSA-SHA512") (some "sha512WithRSAEncryption")
        (some 670) (under "pkcs1" (13 ∷ []))
    ∷ object "sha384WithRSAEncryption" (some "RSA-SHA384") (some "sha384WithRSAEncryption")
        (some 669) (under "pkcs1" (12 ∷ []))
    ∷ object "sha256WithRSAEncryption" (some "RSA-SHA256") (some "sha256WithRSAEncryption")
        (some 668) (under "pkcs1" (11 ∷ []))
    ∷ object "rsassaPss" (some "RSASSA-PSS") (some "rsassaPss") (some 912) (under "pkcs1" (10 ∷ []))
    ∷ object "mgf1" (some "MGF1") (some "mgf1") (some 911) (under "pkcs1" (8 ∷ []))
    ∷ object "rsaesOaep" (some "RSAES-OAEP") (some "rsaesOaep") (some 919) (under "pkcs1" (7 ∷ []))
    ∷ object "sha1WithRSAEncryption" (some "RSA-SHA1") (some "sha1WithRSAEncryption") (some 65)
        (under "pkcs1" (5 ∷ []))
    ∷ object "md5WithRSAEncryption" (some "RSA-MD5") (some "md5WithRSAEncryption") (some 8)
        (under "pkcs1" (4 ∷ []))
    ∷ object "md4WithRSAEncryption" (some "RSA-MD4") (some "md4WithRSAEncryption") (some 396)
        (under "pkcs1" (3 ∷ []))
    ∷ object "md2WithRSAEncryption" (some "RSA-MD2") (some "md2WithRSAEncryption") (some 7)
        (under "pkcs1" (2 ∷ []))
    ∷ object "rsaEncryption" none (some "rsaEncryption") (some 6) (under "pkcs1" (1 ∷ []))
    ∷ object "pkcs1" (some "pkcs1") none (some 186) (under "pkcs" (1 ∷ []))
    ∷ object "pkcs" (some "pkcs") (some "RSA Data Security, Inc. PKCS") (some 2)
        (under "rsadsi" (1 ∷ []))
    ∷ object "rsadsi" (some "rsadsi") (some "RSA Data Security, Inc.") (some 1)
        (under "ISO_US" (113549 ∷ []))
    ∷ object "id_DHBasedMac" (some "id-DHBasedMac") (some "Diffie-Hellman based MAC") (some 783)
        (under "ISO_US" (113533 ∷ 7 ∷ 66 ∷ 30 ∷ []))
    ∷ object "id_PasswordBasedMAC" (some "id-PasswordBasedMAC") (some "password based MAC")
        (some 782) (under "ISO_US" (113533 ∷ 7 ∷ 66 ∷ 13 ∷ []))
    ∷ object "pbeWithMD5AndCast5_CBC" none (some "pbeWithMD5AndCast5CBC") (some 112)
        (under "ISO_US" (113533 ∷ 7 ∷ 66 ∷ 12 ∷ []))
    ∷ object "cast5_ofb64" (some "CAST5-OFB") (some "cast5-ofb") (some 111) no_oid
    ∷ object "cast5_cfb64" (some "CAST5-CFB") (some "cast5-cfb") (some 110) no_oid
    ∷ object "cast5_ecb" (some "CAST5-ECB") (some "cast5-ecb") (some 109) no_oid
    ∷ object "cast5_cbc" (some "CAST5-CBC") (some "cast5-cbc") (some 108)
        (under "ISO_US" (113533 ∷ 7 ∷ 66 ∷ 10 ∷ []))
    ∷ []
