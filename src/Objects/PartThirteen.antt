-- ===== src/Objects/PartThirteen.antt =====
-- native/include/openssl/obj_mac.h, lines 3639 to 3938. The newest object of a list is the last of the lines.
use logful_api.Base.{List, [], ◌∷◌, none, some}
use logful_api.Objects.Defs.{Obj, object, no_oid, root, under}

unfoldable pub objects_25 : List Obj
objects_25 =
    object "id_GostR3410_94_CryptoPro_A_ParamSet" (some "id-GostR3410-94-CryptoPro-A-ParamSet") none
      (some 832) (under "cryptopro" (32 ∷ 2 ∷ []))
    ∷ object "id_GostR3410_94_TestParamSet" (some "id-GostR3410-94-TestParamSet") none (some 831)
        (under "cryptopro" (32 ∷ 0 ∷ []))
    ∷ object "id_Gost28147_89_CryptoPro_RIC_1_ParamSet"
        (some "id-Gost28147-89-CryptoPro-RIC-1-ParamSet") none (some 830)
        (under "cryptopro" (31 ∷ 7 ∷ []))
    ∷ object "id_Gost28147_89_CryptoPro_Oscar_1_0_ParamSet"
        (some "id-Gost28147-89-CryptoPro-Oscar-1-0-ParamSet") none (some 829)
        (under "cryptopro" (31 ∷ 6 ∷ []))
    ∷ object "id_Gost28147_89_CryptoPro_Oscar_1_1_ParamSet"
        (some "id-Gost28147-89-CryptoPro-Oscar-1-1-ParamSet") none (some 828)
        (under "cryptopro" (31 ∷ 5 ∷ []))
    ∷ object "id_Gost28147_89_CryptoPro_D_ParamSet" (some "id-Gost28147-89-CryptoPro-D-ParamSet")
        none (some 827) (under "cryptopro" (31 ∷ 4 ∷ []))
    ∷ object "id_Gost28147_89_CryptoPro_C_ParamSet" (some "id-Gost28147-89-CryptoPro-C-ParamSet")
        none (some 826) (under "cryptopro" (31 ∷ 3 ∷ []))
    ∷ object "id_Gost28147_89_CryptoPro_B_ParamSet" (some "id-Gost28147-89-CryptoPro-B-ParamSet")
        none (some 825) (under "cryptopro" (31 ∷ 2 ∷ []))
    ∷ object "id_Gost28147_89_CryptoPro_A_ParamSet" (some "id-Gost28147-89-CryptoPro-A-ParamSet")
        none (some 824) (under "cryptopro" (31 ∷ 1 ∷ []))
    ∷ object "id_Gost28147_89_TestParamSet" (some "id-Gost28147-89-TestParamSet") none (some 823)
        (under "cryptopro" (31 ∷ 0 ∷ []))
    ∷ object "id_GostR3411_94_CryptoProParamSet" (some "id-GostR3411-94-CryptoProParamSet") none
        (some 822) (under "cryptopro" (30 ∷ 1 ∷ []))
    ∷ object "id_GostR3411_94_TestParamSet" (some "id-GostR3411-94-TestParamSet") none (some 821)
        (under "cryptopro" (30 ∷ 0 ∷ []))
    ∷ object "id_Gost28147_89_None_KeyMeshing" (some "id-Gost28147-89-None-KeyMeshing") none
        (some 820) (under "cryptopro" (14 ∷ 0 ∷ []))
    ∷ object "id_Gost28147_89_CryptoPro_KeyMeshing" (some "id-Gost28147-89-CryptoPro-KeyMeshing")
        none (some 819) (under "cryptopro" (14 ∷ 1 ∷ []))
    ∷ object "id_GostR3410_94DH" (some "id-GostR3410-94DH") (some "GOST R 34.10-94 DH") (some 818)
        (under "cryptopro" (99 ∷ []))
    ∷ object "id_GostR3410_2001DH" (some "id-GostR3410-2001DH") (some "GOST R 34.10-2001 DH")
        (some 817) (under "cryptopro" (98 ∷ []))
    ∷ object "id_GostR3411_94_prf" (some "prf-gostr3411-94") (some "GOST R 34.11-94 PRF") (some 816)
        (under "cryptopro" (23 ∷ []))
    ∷ object "id_Gost28147_89_MAC" (some "gost-mac") (some "GOST 28147-89 MAC") (some 815)
        (under "cryptopro" (22 ∷ []))
    ∷ object "gost89_cnt" (some "gost89-cnt") none (some 814) no_oid
    ∷ object "id_Gost28147_89" (some "gost89") (some "GOST 28147-89") (some 813)
        (under "cryptopro" (21 ∷ []))
    ∷ object "id_GostR3410_94" (some "gost94") (some "GOST R 34.10-94") (some 812)
        (under "cryptopro" (20 ∷ []))
    ∷ object "id_GostR3410_2001" (some "gost2001") (some "GOST R 34.10-2001") (some 811)
        (under "cryptopro" (19 ∷ []))
    ∷ object "id_HMACGostR3411_94" (some "id-HMACGostR3411-94") (some "HMAC GOST 34.11-94")
        (some 810) (under "cryptopro" (10 ∷ []))
    ∷ object "id_GostR3411_94" (some "md_gost94") (some "GOST R 34.11-94") (some 809)
        (under "cryptopro" (9 ∷ []))
    ∷ object "id_GostR3411_94_with_GostR3410_94" (some "id-GostR3411-94-with-GostR3410-94")
        (some "GOST R 34.11-94 with GOST R 34.10-94") (some 808) (under "cryptopro" (4 ∷ []))
    ∷ object "id_GostR3411_94_with_GostR3410_2001" (some "id-GostR3411-94-with-GostR3410-2001")
        (some "GOST R 34.11-94 with GOST R 34.10-2001") (some 807) (under "cryptopro" (3 ∷ []))
    ∷ object "cryptocom" (some "cryptocom") none (some 806) (under "member_body" (643 ∷ 2 ∷ 9 ∷ []))
    ∷ object "cryptopro" (some "cryptopro") none (some 805) (under "member_body" (643 ∷ 2 ∷ 2 ∷ []))
    ∷ object "whirlpool" (some "whirlpool") none (some 804)
        (under "iso" (0 ∷ 10118 ∷ 3 ∷ 0 ∷ 55 ∷ []))
    ∷ object "ipsec4" (some "Oakley-EC2N-4") (some "ipsec4") (some 750) no_oid
    ∷ object "ipsec3" (some "Oakley-EC2N-3") (some "ipsec3") (some 749) no_oid
    ∷ object "rsaOAEPEncryptionSET" (some "rsaOAEPEncryptionSET") none (some 644)
        (under "rsadsi" (1 ∷ 1 ∷ 6 ∷ []))
    ∷ object "des_cdmf" (some "DES-CDMF") (some "des-cdmf") (some 643)
        (under "rsadsi" (3 ∷ 10 ∷ []))
    ∷ object "set_brand_Novus" (some "set-brand-Novus") none (some 642)
        (under "set_brand" (6011 ∷ []))
    ∷ object "set_brand_MasterCard" (some "set-brand-MasterCard") none (some 641)
        (under "set_brand" (5 ∷ []))
    ∷ []

unfoldable pub objects_26 : List Obj
objects_26 =
    object "camellia_192_ofb128" (some "CAMELLIA-192-OFB") (some "camellia-192-ofb") (some 767)
      (under "camellia" (23 ∷ []))
    ∷ object "camellia_192_ecb" (some "CAMELLIA-192-ECB") (some "camellia-192-ecb") (some 755)
        (under "camellia" (21 ∷ []))
    ∷ object "camellia_128_cfb128" (some "CAMELLIA-128-CFB") (some "camellia-128-cfb") (some 757)
        (under "camellia" (4 ∷ []))
    ∷ object "camellia_128_ofb128" (some "CAMELLIA-128-OFB") (some "camellia-128-ofb") (some 766)
        (under "camellia" (3 ∷ []))
    ∷ object "camellia_128_ecb" (some "CAMELLIA-128-ECB") (some "camellia-128-ecb") (some 754)
        (under "camellia" (1 ∷ []))
    ∷ object "camellia" none none none (under "ntt_ds" (3 ∷ 1 ∷ 9 ∷ []))
    ∷ object "ntt_ds" none none none (root (0 ∷ 3 ∷ 4401 ∷ 5 ∷ []))
    ∷ object "id_camellia256_wrap" (some "id-camellia256-wrap") none (some 909)
        (root (1 ∷ 2 ∷ 392 ∷ 200011 ∷ 61 ∷ 1 ∷ 1 ∷ 3 ∷ 4 ∷ []))
    ∷ object "id_camellia192_wrap" (some "id-camellia192-wrap") none (some 908)
        (root (1 ∷ 2 ∷ 392 ∷ 200011 ∷ 61 ∷ 1 ∷ 1 ∷ 3 ∷ 3 ∷ []))
    ∷ object "id_camellia128_wrap" (some "id-camellia128-wrap") none (some 907)
        (root (1 ∷ 2 ∷ 392 ∷ 200011 ∷ 61 ∷ 1 ∷ 1 ∷ 3 ∷ 2 ∷ []))
    ∷ object "camellia_256_cbc" (some "CAMELLIA-256-CBC") (some "camellia-256-cbc") (some 753)
        (root (1 ∷ 2 ∷ 392 ∷ 200011 ∷ 61 ∷ 1 ∷ 1 ∷ 1 ∷ 4 ∷ []))
    ∷ object "camellia_192_cbc" (some "CAMELLIA-192-CBC") (some "camellia-192-cbc") (some 752)
        (root (1 ∷ 2 ∷ 392 ∷ 200011 ∷ 61 ∷ 1 ∷ 1 ∷ 1 ∷ 3 ∷ []))
    ∷ object "camellia_128_cbc" (some "CAMELLIA-128-CBC") (some "camellia-128-cbc") (some 751)
        (root (1 ∷ 2 ∷ 392 ∷ 200011 ∷ 61 ∷ 1 ∷ 1 ∷ 1 ∷ 2 ∷ []))
    ∷ object "id_GostR3410_2001_ParamSet_cc" (some "id-GostR3410-2001-ParamSet-cc")
        (some "GOST R 3410-2001 Parameter Set Cryptocom") (some 854)
        (under "cryptocom" (1 ∷ 8 ∷ 1 ∷ []))
    ∷ object "id_GostR3411_94_with_GostR3410_2001_cc"
        (some "id-GostR3411-94-with-GostR3410-2001-cc")
        (some "GOST R 34.11-94 with GOST R 34.10-2001 Cryptocom") (some 853)
        (under "cryptocom" (1 ∷ 3 ∷ 4 ∷ []))
    ∷ object "id_GostR3411_94_with_GostR3410_94_cc" (some "id-GostR3411-94-with-GostR3410-94-cc")
        (some "GOST R 34.11-94 with GOST R 34.10-94 Cryptocom") (some 852)
        (under "cryptocom" (1 ∷ 3 ∷ 3 ∷ []))
    ∷ object "id_GostR3410_2001_cc" (some "gost2001cc") (some "GOST 34.10-2001 Cryptocom")
        (some 851) (under "cryptocom" (1 ∷ 5 ∷ 4 ∷ []))
    ∷ object "id_GostR3410_94_cc" (some "gost94cc") (some "GOST 34.10-94 Cryptocom") (some 850)
        (under "cryptocom" (1 ∷ 5 ∷ 3 ∷ []))
    ∷ object "id_Gost28147_89_cc" (some "id-Gost28147-89-cc")
        (some "GOST 28147-89 Cryptocom ParamSet") (some 849) (under "cryptocom" (1 ∷ 6 ∷ 1 ∷ []))
    ∷ object "id_GostR3410_94_bBis" (some "id-GostR3410-94-bBis") none (some 848)
        (under "id_GostR3410_94" (4 ∷ []))
    ∷ object "id_GostR3410_94_b" (some "id-GostR3410-94-b") none (some 847)
        (under "id_GostR3410_94" (3 ∷ []))
    ∷ object "id_GostR3410_94_aBis" (some "id-GostR3410-94-aBis") none (some 846)
        (under "id_GostR3410_94" (2 ∷ []))
    ∷ object "id_GostR3410_94_a" (some "id-GostR3410-94-a") none (some 845)
        (under "id_GostR3410_94" (1 ∷ []))
    ∷ object "id_GostR3410_2001_CryptoPro_XchB_ParamSet"
        (some "id-GostR3410-2001-CryptoPro-XchB-ParamSet") none (some 844)
        (under "cryptopro" (36 ∷ 1 ∷ []))
    ∷ object "id_GostR3410_2001_CryptoPro_XchA_ParamSet"
        (some "id-GostR3410-2001-CryptoPro-XchA-ParamSet") none (some 843)
        (under "cryptopro" (36 ∷ 0 ∷ []))
    ∷ object "id_GostR3410_2001_CryptoPro_C_ParamSet"
        (some "id-GostR3410-2001-CryptoPro-C-ParamSet") none (some 842)
        (under "cryptopro" (35 ∷ 3 ∷ []))
    ∷ object "id_GostR3410_2001_CryptoPro_B_ParamSet"
        (some "id-GostR3410-2001-CryptoPro-B-ParamSet") none (some 841)
        (under "cryptopro" (35 ∷ 2 ∷ []))
    ∷ object "id_GostR3410_2001_CryptoPro_A_ParamSet"
        (some "id-GostR3410-2001-CryptoPro-A-ParamSet") none (some 840)
        (under "cryptopro" (35 ∷ 1 ∷ []))
    ∷ object "id_GostR3410_2001_TestParamSet" (some "id-GostR3410-2001-TestParamSet") none
        (some 839) (under "cryptopro" (35 ∷ 0 ∷ []))
    ∷ object "id_GostR3410_94_CryptoPro_XchC_ParamSet"
        (some "id-GostR3410-94-CryptoPro-XchC-ParamSet") none (some 838)
        (under "cryptopro" (33 ∷ 3 ∷ []))
    ∷ object "id_GostR3410_94_CryptoPro_XchB_ParamSet"
        (some "id-GostR3410-94-CryptoPro-XchB-ParamSet") none (some 837)
        (under "cryptopro" (33 ∷ 2 ∷ []))
    ∷ object "id_GostR3410_94_CryptoPro_XchA_ParamSet"
        (some "id-GostR3410-94-CryptoPro-XchA-ParamSet") none (some 836)
        (under "cryptopro" (33 ∷ 1 ∷ []))
    ∷ object "id_GostR3410_94_CryptoPro_D_ParamSet" (some "id-GostR3410-94-CryptoPro-D-ParamSet")
        none (some 835) (under "cryptopro" (32 ∷ 5 ∷ []))
    ∷ object "id_GostR3410_94_CryptoPro_C_ParamSet" (some "id-GostR3410-94-CryptoPro-C-ParamSet")
        none (some 834) (under "cryptopro" (32 ∷ 4 ∷ []))
    ∷ object "id_GostR3410_94_CryptoPro_B_ParamSet" (some "id-GostR3410-94-CryptoPro-B-ParamSet")
        none (some 833) (under "cryptopro" (32 ∷ 3 ∷ []))
    ∷ []
