-- ===== src/Objects/PartOne.antt =====
-- native/include/openssl/obj_mac.h, lines 65 to 362. The newest object of a list is the last of the lines.
use logful_api.Base.{List, [], ◌∷◌, none, some}
use logful_api.Objects.Defs.{Obj, object, root, under}

unfoldable pub objects_1 : List Obj
objects_1 =
    object "X9_62_c2pnb163v3" (some "c2pnb163v3") none (some 686)
      (under "X9_62_c_TwoCurve" (3 ∷ []))
    ∷ object "X9_62_c2pnb163v2" (some "c2pnb163v2") none (some 685)
        (under "X9_62_c_TwoCurve" (2 ∷ []))
    ∷ object "X9_62_c2pnb163v1" (some "c2pnb163v1") none (some 684)
        (under "X9_62_c_TwoCurve" (1 ∷ []))
    ∷ object "X9_62_c_TwoCurve" none none none (under "X9_62_ellipticCurve" (0 ∷ []))
    ∷ object "X9_62_ellipticCurve" none none none (under "ansi_X9_62" (3 ∷ []))
    ∷ object "X9_62_id_ecPublicKey" (some "id-ecPublicKey") none (some 408)
        (under "X9_62_id_publicKeyType" (1 ∷ []))
    ∷ object "X9_62_id_publicKeyType" none none none (under "ansi_X9_62" (2 ∷ []))
    ∷ object "X9_62_ppBasis" (some "ppBasis") none (some 683)
        (under "X9_62_id_characteristic_two_basis" (3 ∷ []))
    ∷ object "X9_62_tpBasis" (some "tpBasis") none (some 682)
        (under "X9_62_id_characteristic_two_basis" (2 ∷ []))
    ∷ object "X9_62_onBasis" (some "onBasis") none (some 681)
        (under "X9_62_id_characteristic_two_basis" (1 ∷ []))
    ∷ object "X9_62_id_characteristic_two_basis" (some "id-characteristic-two-basis") none
        (some 680) (under "X9_62_characteristic_two_field" (3 ∷ []))
    ∷ object "X9_62_characteristic_two_field" (some "characteristic-two-field") none (some 407)
        (under "X9_62_id_fieldType" (2 ∷ []))
    ∷ object "X9_62_prime_field" (some "prime-field") none (some 406)
        (under "X9_62_id_fieldType" (1 ∷ []))
    ∷ object "X9_62_id_fieldType" none none none (under "ansi_X9_62" (1 ∷ []))
    ∷ object "ansi_X9_62" (some "ansi-X9-62") (some "ANSI X9.62") (some 405)
        (under "ISO_US" (10045 ∷ []))
    ∷ object "dsaWithSHA1" (some "DSA-SHA1") (some "dsaWithSHA1") (some 113) (under "X9cm" (3 ∷ []))
    ∷ object "dsa" (some "DSA") (some "dsaEncryption") (some 116) (under "X9cm" (1 ∷ []))
    ∷ object "X9cm" (some "X9cm") (some "X9.57 CM ?") (some 185) (under "X9_57" (4 ∷ []))
    ∷ object "X9_57" (some "X9-57") (some "X9.57") (some 184) (under "ISO_US" (10040 ∷ []))
    ∷ object "ISO_US" (some "ISO-US") (some "ISO US Member Body") (some 183)
        (under "member_body" (840 ∷ []))
    ∷ object "clearance" (some "clearance") none (some 395)
        (under "selected_attribute_types" (55 ∷ []))
    ∷ object "selected_attribute_types" (some "selected-attribute-types")
        (some "Selected Attribute Types") (some 394) (under "joint_iso_itu_t" (5 ∷ 1 ∷ 5 ∷ []))
    ∷ object "wap_wsg" (some "wap-wsg") none (some 679) (under "wap" (1 ∷ []))
    ∷ object "wap" (some "wap") none (some 678) (under "international_organizations" (43 ∷ []))
    ∷ object "international_organizations" (some "international-organizations")
        (some "International Organizations") (some 647) (under "joint_iso_itu_t" (23 ∷ []))
    ∷ object "certicom_arc" (some "certicom-arc") none (some 677)
        (under "identified_organization" (132 ∷ []))
    ∷ object "hmac_sha1" (some "HMAC-SHA1") (some "hmac-sha1") (some 781)
        (under "identified_organization" (6 ∷ 1 ∷ 5 ∷ 5 ∷ 8 ∷ 1 ∷ 2 ∷ []))
    ∷ object "hmac_md5" (some "HMAC-MD5") (some "hmac-md5") (some 780)
        (under "identified_organization" (6 ∷ 1 ∷ 5 ∷ 5 ∷ 8 ∷ 1 ∷ 1 ∷ []))
    ∷ object "identified_organization" (some "identified-organization") none (some 676)
        (under "iso" (3 ∷ []))
    ∷ object "member_body" (some "member-body") (some "ISO Member Body") (some 182)
        (under "iso" (2 ∷ []))
    ∷ object "joint_iso_ccitt" none none (some 393) (under "joint_iso_itu_t" [])
    ∷ object "joint_iso_itu_t" (some "JOINT-ISO-ITU-T") (some "joint-iso-itu-t") (some 646)
        (root (2 ∷ []))
    ∷ object "iso" (some "ISO") (some "iso") (some 181) (root (1 ∷ []))
    ∷ object "ccitt" none none (some 404) (under "itu_t" [])
    ∷ object "itu_t" (some "ITU-T") (some "itu-t") (some 645) (root (0 ∷ []))
    ∷ object "undef" (some "UNDEF") (some "undefined") (some 0) (root (0 ∷ []))
    ∷ []

unfoldable pub objects_2 : List Obj
objects_2 =
    object "secp160k1" (some "secp160k1") none (some 708) (under "secg_ellipticCurve" (9 ∷ []))
    ∷ object "secp128r2" (some "secp128r2") none (some 707) (under "secg_ellipticCurve" (29 ∷ []))
    ∷ object "secp128r1" (some "secp128r1") none (some 706) (under "secg_ellipticCurve" (28 ∷ []))
    ∷ object "secp112r2" (some "secp112r2") none (some 705) (under "secg_ellipticCurve" (7 ∷ []))
    ∷ object "secp112r1" (some "secp112r1") none (some 704) (under "secg_ellipticCurve" (6 ∷ []))
    ∷ object "secg_ellipticCurve" none none none (under "certicom_arc" (0 ∷ []))
    ∷ object "ecdsa_with_SHA512" (some "ecdsa-with-SHA512") none (some 796)
        (under "ecdsa_with_Specified" (4 ∷ []))
    ∷ object "ecdsa_with_SHA384" (some "ecdsa-with-SHA384") none (some 795)
        (under "ecdsa_with_Specified" (3 ∷ []))
    ∷ object "ecdsa_with_SHA256" (some "ecdsa-with-SHA256") none (some 794)
        (under "ecdsa_with_Specified" (2 ∷ []))
    ∷ object "ecdsa_with_SHA224" (some "ecdsa-with-SHA224") none (some 793)
        (under "ecdsa_with_Specified" (1 ∷ []))
    ∷ object "ecdsa_with_Specified" (some "ecdsa-with-Specified") none (some 792)
        (under "X9_62_id_ecSigType" (3 ∷ []))
    ∷ object "ecdsa_with_Recommended" (some "ecdsa-with-Recommended") none (some 791)
        (under "X9_62_id_ecSigType" (2 ∷ []))
    ∷ object "ecdsa_with_SHA1" (some "ecdsa-with-SHA1") none (some 416)
        (under "X9_62_id_ecSigType" (1 ∷ []))
    ∷ object "X9_62_id_ecSigType" none none none (under "ansi_X9_62" (4 ∷ []))
    ∷ object "X9_62_prime256v1" (some "prime256v1") none (some 415)
        (under "X9_62_primeCurve" (7 ∷ []))
    ∷ object "X9_62_prime239v3" (some "prime239v3") none (some 414)
        (under "X9_62_primeCurve" (6 ∷ []))
    ∷ object "X9_62_prime239v2" (some "prime239v2") none (some 413)
        (under "X9_62_primeCurve" (5 ∷ []))
    ∷ object "X9_62_prime239v1" (some "prime239v1") none (some 412)
        (under "X9_62_primeCurve" (4 ∷ []))
    ∷ object "X9_62_prime192v3" (some "prime192v3") none (some 411)
        (under "X9_62_primeCurve" (3 ∷ []))
    ∷ object "X9_62_prime192v2" (some "prime192v2") none (some 410)
        (under "X9_62_primeCurve" (2 ∷ []))
    ∷ object "X9_62_prime192v1" (some "prime192v1") none (some 409)
        (under "X9_62_primeCurve" (1 ∷ []))
    ∷ object "X9_62_primeCurve" none none none (under "X9_62_ellipticCurve" (1 ∷ []))
    ∷ object "X9_62_c2tnb431r1" (some "c2tnb431r1") none (some 703)
        (under "X9_62_c_TwoCurve" (20 ∷ []))
    ∷ object "X9_62_c2pnb368w1" (some "c2pnb368w1") none (some 702)
        (under "X9_62_c_TwoCurve" (19 ∷ []))
    ∷ object "X9_62_c2tnb359v1" (some "c2tnb359v1") none (some 701)
        (under "X9_62_c_TwoCurve" (18 ∷ []))
    ∷ object "X9_62_c2pnb304w1" (some "c2pnb304w1") none (some 700)
        (under "X9_62_c_TwoCurve" (17 ∷ []))
    ∷ object "X9_62_c2pnb272w1" (some "c2pnb272w1") none (some 699)
        (under "X9_62_c_TwoCurve" (16 ∷ []))
    ∷ object "X9_62_c2onb239v5" (some "c2onb239v5") none (some 698)
        (under "X9_62_c_TwoCurve" (15 ∷ []))
    ∷ object "X9_62_c2onb239v4" (some "c2onb239v4") none (some 697)
        (under "X9_62_c_TwoCurve" (14 ∷ []))
    ∷ object "X9_62_c2tnb239v3" (some "c2tnb239v3") none (some 696)
        (under "X9_62_c_TwoCurve" (13 ∷ []))
    ∷ object "X9_62_c2tnb239v2" (some "c2tnb239v2") none (some 695)
        (under "X9_62_c_TwoCurve" (12 ∷ []))
    ∷ object "X9_62_c2tnb239v1" (some "c2tnb239v1") none (some 694)
        (under "X9_62_c_TwoCurve" (11 ∷ []))
    ∷ object "X9_62_c2pnb208w1" (some "c2pnb208w1") none (some 693)
        (under "X9_62_c_TwoCurve" (10 ∷ []))
    ∷ object "X9_62_c2onb191v5" (some "c2onb191v5") none (some 692)
        (under "X9_62_c_TwoCurve" (9 ∷ []))
    ∷ object "X9_62_c2onb191v4" (some "c2onb191v4") none (some 691)
        (under "X9_62_c_TwoCurve" (8 ∷ []))
    ∷ object "X9_62_c2tnb191v3" (some "c2tnb191v3") none (some 690)
        (under "X9_62_c_TwoCurve" (7 ∷ []))
    ∷ object "X9_62_c2tnb191v2" (some "c2tnb191v2") none (some 689)
        (under "X9_62_c_TwoCurve" (6 ∷ []))
    ∷ object "X9_62_c2tnb191v1" (some "c2tnb191v1") none (some 688)
        (under "X9_62_c_TwoCurve" (5 ∷ []))
    ∷ object "X9_62_c2pnb176v1" (some "c2pnb176v1") none (some 687)
        (under "X9_62_c_TwoCurve" (4 ∷ []))
    ∷ []
