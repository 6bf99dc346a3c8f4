-- ===== src/Objects/PartFour.antt =====
-- native/include/openssl/obj_mac.h, lines 963 to 1257. The newest object of a list is the last of the lines.
use logful_api.Base.{List, [], ◌∷◌, none, some}
use logful_api.Objects.Defs.{Obj, object, no_oid, root, under}

unfoldable pub objects_7 : List Obj
objects_7 =
    object "pkcs12_BagIds" none none none (under "pkcs12_Version1" (1 ∷ []))
    ∷ object "pkcs12_Version1" none none none (under "pkcs12" (10 ∷ []))
    ∷ object "pbe_WithSHA1And40BitRC2_CBC" (some "PBE-SHA1-RC2-40")
        (some "pbeWithSHA1And40BitRC2-CBC") (some 149) (under "pkcs12_pbeids" (6 ∷ []))
    ∷ object "pbe_WithSHA1And128BitRC2_CBC" (some "PBE-SHA1-RC2-128")
        (some "pbeWithSHA1And128BitRC2-CBC") (some 148) (under "pkcs12_pbeids" (5 ∷ []))
    ∷ object "pbe_WithSHA1And2_Key_TripleDES_CBC" (some "PBE-SHA1-2DES")
        (some "pbeWithSHA1And2-KeyTripleDES-CBC") (some 147) (under "pkcs12_pbeids" (4 ∷ []))
    ∷ object "pbe_WithSHA1And3_Key_TripleDES_CBC" (some "PBE-SHA1-3DES")
        (some "pbeWithSHA1And3-KeyTripleDES-CBC") (some 146) (under "pkcs12_pbeids" (3 ∷ []))
    ∷ object "pbe_WithSHA1And40BitRC4" (some "PBE-SHA1-RC4-40") (some "pbeWithSHA1And40BitRC4")
        (some 145) (under "pkcs12_pbeids" (2 ∷ []))
    ∷ object "pbe_WithSHA1And128BitRC4" (some "PBE-SHA1-RC4-128") (some "pbeWithSHA1And128BitRC4")
        (some 144) (under "pkcs12_pbeids" (1 ∷ []))
    ∷ object "pkcs12_pbeids" none none none (under "pkcs12" (1 ∷ []))
    ∷ object "pkcs12" none none none (under "pkcs" (12 ∷ []))
    ∷ object "x509Crl" none (some "x509Crl") (some 160) (under "crlTypes" (1 ∷ []))
    ∷ object "crlTypes" none none none (under "pkcs9" (23 ∷ []))
    ∷ object "sdsiCertificate" none (some "sdsiCertificate") (some 159) (under "certTypes" (2 ∷ []))
    ∷ object "x509Certificate" none (some "x509Certificate") (some 158) (under "certTypes" (1 ∷ []))
    ∷ object "certTypes" none none none (under "pkcs9" (22 ∷ []))
    ∷ object "LocalKeySet" (some "LocalKeySet") (some "Microsoft Local Key set") (some 856)
        (root (1 ∷ 3 ∷ 6 ∷ 1 ∷ 4 ∷ 1 ∷ 311 ∷ 17 ∷ 2 ∷ []))
    ∷ object "ms_csp_name" (some "CSPName") (some "Microsoft CSP Name") (some 417)
        (root (1 ∷ 3 ∷ 6 ∷ 1 ∷ 4 ∷ 1 ∷ 311 ∷ 17 ∷ 1 ∷ []))
    ∷ object "localKeyID" none (some "localKeyID") (some 157) (under "pkcs9" (21 ∷ []))
    ∷ object "friendlyName" none (some "friendlyName") (some 156) (under "pkcs9" (20 ∷ []))
    ∷ object "id_smime_cti_ets_proofOfCreation" (some "id-smime-cti-ets-proofOfCreation") none
        (some 256) (under "id_smime_cti" (6 ∷ []))
    ∷ object "id_smime_cti_ets_proofOfApproval" (some "id-smime-cti-ets-proofOfApproval") none
        (some 255) (under "id_smime_cti" (5 ∷ []))
    ∷ object "id_smime_cti_ets_proofOfSender" (some "id-smime-cti-ets-proofOfSender") none
        (some 254) (under "id_smime_cti" (4 ∷ []))
    ∷ object "id_smime_cti_ets_proofOfDelivery" (some "id-smime-cti-ets-proofOfDelivery") none
        (some 253) (under "id_smime_cti" (3 ∷ []))
    ∷ object "id_smime_cti_ets_proofOfReceipt" (some "id-smime-cti-ets-proofOfReceipt") none
        (some 252) (under "id_smime_cti" (2 ∷ []))
    ∷ object "id_smime_cti_ets_proofOfOrigin" (some "id-smime-cti-ets-proofOfOrigin") none
        (some 251) (under "id_smime_cti" (1 ∷ []))
    ∷ object "id_smime_spq_ets_sqt_unotice" (some "id-smime-spq-ets-sqt-unotice") none (some 250)
        (under "id_smime_spq" (2 ∷ []))
    ∷ object "id_smime_spq_ets_sqt_uri" (some "id-smime-spq-ets-sqt-uri") none (some 249)
        (under "id_smime_spq" (1 ∷ []))
    ∷ object "id_smime_cd_ldap" (some "id-smime-cd-ldap") none (some 248)
        (under "id_smime_cd" (1 ∷ []))
    ∷ object "id_alg_PWRI_KEK" (some "id-alg-PWRI-KEK") none (some 893)
        (under "id_smime_alg" (9 ∷ []))
    ∷ object "id_smime_alg_CMSRC2wrap" (some "id-smime-alg-CMSRC2wrap") none (some 247)
        (under "id_smime_alg" (7 ∷ []))
    ∷ object "id_smime_alg_CMS3DESwrap" (some "id-smime-alg-CMS3DESwrap") none (some 246)
        (under "id_smime_alg" (6 ∷ []))
    ∷ object "id_smime_alg_ESDH" (some "id-smime-alg-ESDH") none (some 245)
        (under "id_smime_alg" (5 ∷ []))
    ∷ object "id_smime_alg_RC2wrap" (some "id-smime-alg-RC2wrap") none (some 244)
        (under "id_smime_alg" (4 ∷ []))
    ∷ object "id_smime_alg_3DESwrap" (some "id-smime-alg-3DESwrap") none (some 243)
        (under "id_smime_alg" (3 ∷ []))
    ∷ object "id_smime_alg_ESDHwithRC2" (some "id-smime-alg-ESDHwithRC2") none (some 242)
        (under "id_smime_alg" (2 ∷ []))
    ∷ object "id_smime_alg_ESDHwith3DES" (some "id-smime-alg-ESDHwith3DES") none (some 241)
        (under "id_smime_alg" (1 ∷ []))
    ∷ object "id_smime_aa_dvcs_dvc" (some "id-smime-aa-dvcs-dvc") none (some 240)
        (under "id_smime_aa" (29 ∷ []))
    ∷ object "id_smime_aa_signatureType" (some "id-smime-aa-signatureType") none (some 239)
        (under "id_smime_aa" (28 ∷ []))
    ∷ []

unfoldable pub objects_8 : List Obj
objects_8 =
    object "ms_sgc" (some "msSGC") (some "Microsoft Server Gated Crypto") (some 137)
      (root (1 ∷ 3 ∷ 6 ∷ 1 ∷ 4 ∷ 1 ∷ 311 ∷ 10 ∷ 3 ∷ 3 ∷ []))
    ∷ object "ms_ctl_sign" (some "msCTLSign") (some "Microsoft Trust List Signing") (some 136)
        (root (1 ∷ 3 ∷ 6 ∷ 1 ∷ 4 ∷ 1 ∷ 311 ∷ 10 ∷ 3 ∷ 1 ∷ []))
    ∷ object "ms_code_com" (some "msCodeCom") (some "Microsoft Commercial Code Signing") (some 135)
        (root (1 ∷ 3 ∷ 6 ∷ 1 ∷ 4 ∷ 1 ∷ 311 ∷ 2 ∷ 1 ∷ 22 ∷ []))
    ∷ object "ms_code_ind" (some "msCodeInd") (some "Microsoft Individual Code Signing") (some 134)
        (root (1 ∷ 3 ∷ 6 ∷ 1 ∷ 4 ∷ 1 ∷ 311 ∷ 2 ∷ 1 ∷ 21 ∷ []))
    ∷ object "ms_ext_req" (some "msExtReq") (some "Microsoft Extension Request") (some 171)
        (root (1 ∷ 3 ∷ 6 ∷ 1 ∷ 4 ∷ 1 ∷ 311 ∷ 2 ∷ 1 ∷ 14 ∷ []))
    ∷ object "rc5_ofb64" (some "RC5-OFB") (some "rc5-ofb") (some 123) no_oid
    ∷ object "rc5_cfb64" (some "RC5-CFB") (some "rc5-cfb") (some 122) no_oid
    ∷ object "rc5_ecb" (some "RC5-ECB") (some "rc5-ecb") (some 121) no_oid
    ∷ object "rc5_cbc" (some "RC5-CBC") (some "rc5-cbc") (some 120) (under "rsadsi" (3 ∷ 8 ∷ []))
    ∷ object "des_ede3_cbc" (some "DES-EDE3-CBC") (some "des-ede3-cbc") (some 44)
        (under "rsadsi" (3 ∷ 7 ∷ []))
    ∷ object "rc4_40" (some "RC4-40") (some "rc4-40") (some 97) no_oid
    ∷ object "rc4" (some "RC4") (some "rc4") (some 5) (under "rsadsi" (3 ∷ 4 ∷ []))
    ∷ object "rc2_64_cbc" (some "RC2-64-CBC") (some "rc2-64-cbc") (some 166) no_oid
    ∷ object "rc2_40_cbc" (some "RC2-40-CBC") (some "rc2-40-cbc") (some 98) no_oid
    ∷ object "rc2_ofb64" (some "RC2-OFB") (some "rc2-ofb") (some 40) no_oid
    ∷ object "rc2_cfb64" (some "RC2-CFB") (some "rc2-cfb") (some 39) no_oid
    ∷ object "rc2_ecb" (some "RC2-ECB") (some "rc2-ecb") (some 38) no_oid
    ∷ object "rc2_cbc" (some "RC2-CBC") (some "rc2-cbc") (some 37) (under "rsadsi" (3 ∷ 2 ∷ []))
    ∷ object "hmacWithSHA512" none (some "hmacWithSHA512") (some 801) (under "rsadsi" (2 ∷ 11 ∷ []))
    ∷ object "hmacWithSHA384" none (some "hmacWithSHA384") (some 800) (under "rsadsi" (2 ∷ 10 ∷ []))
    ∷ object "hmacWithSHA256" none (some "hmacWithSHA256") (some 799) (under "rsadsi" (2 ∷ 9 ∷ []))
    ∷ object "hmacWithSHA224" none (some "hmacWithSHA224") (some 798) (under "rsadsi" (2 ∷ 8 ∷ []))
    ∷ object "hmacWithSHA1" none (some "hmacWithSHA1") (some 163) (under "rsadsi" (2 ∷ 7 ∷ []))
    ∷ object "hmacWithMD5" none (some "hmacWithMD5") (some 797) (under "rsadsi" (2 ∷ 6 ∷ []))
    ∷ object "md5_sha1" (some "MD5-SHA1") (some "md5-sha1") (some 114) no_oid
    ∷ object "md5" (some "MD5") (some "md5") (some 4) (under "rsadsi" (2 ∷ 5 ∷ []))
    ∷ object "md4" (some "MD4") (some "md4") (some 257) (under "rsadsi" (2 ∷ 4 ∷ []))
    ∷ object "md2" (some "MD2") (some "md2") (some 3) (under "rsadsi" (2 ∷ 2 ∷ []))
    ∷ object "safeContentsBag" none (some "safeContentsBag") (some 155)
        (under "pkcs12_BagIds" (6 ∷ []))
    ∷ object "secretBag" none (some "secretBag") (some 154) (under "pkcs12_BagIds" (5 ∷ []))
    ∷ object "crlBag" none (some "crlBag") (some 153) (under "pkcs12_BagIds" (4 ∷ []))
    ∷ object "certBag" none (some "certBag") (some 152) (under "pkcs12_BagIds" (3 ∷ []))
    ∷ object "pkcs8ShroudedKeyBag" none (some "pkcs8ShroudedKeyBag") (some 151)
        (under "pkcs12_BagIds" (2 ∷ []))
    ∷ object "keyBag" none (some "keyBag") (some 150) (under "pkcs12_BagIds" (1 ∷ []))
    ∷ []
