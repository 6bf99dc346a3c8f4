-- ===== src/Objects/PartFive.antt =====
-- native/include/openssl/obj_mac.h, lines 1259 to 1554. The newest object of a list is the last of the lines.
use logful_api.Base.{List, [], ◌∷◌, none, some}
use logful_api.Objects.Defs.{Obj, object, no_oid, root, under}

unfoldable pub objects_9 : List Obj
objects_9 =
    object "id_mod_cmp" (some "id-mod-cmp") none (some 277) (under "id_pkix_mod" (9 ∷ []))
    ∷ object "id_mod_kea_profile_93" (some "id-mod-kea-profile-93") none (some 276)
        (under "id_pkix_mod" (8 ∷ []))
    ∷ object "id_mod_kea_profile_88" (some "id-mod-kea-profile-88") none (some 275)
        (under "id_pkix_mod" (7 ∷ []))
    ∷ object "id_mod_cmc" (some "id-mod-cmc") none (some 274) (under "id_pkix_mod" (6 ∷ []))
    ∷ object "id_mod_crmf" (some "id-mod-crmf") none (some 273) (under "id_pkix_mod" (5 ∷ []))
    ∷ object "id_pkix1_implicit_93" (some "id-pkix1-implicit-93") none (some 272)
        (under "id_pkix_mod" (4 ∷ []))
    ∷ object "id_pkix1_explicit_93" (some "id-pkix1-explicit-93") none (some 271)
        (under "id_pkix_mod" (3 ∷ []))
    ∷ object "id_pkix1_implicit_88" (some "id-pkix1-implicit-88") none (some 270)
        (under "id_pkix_mod" (2 ∷ []))
    ∷ object "id_pkix1_explicit_88" (some "id-pkix1-explicit-88") none (some 269)
        (under "id_pkix_mod" (1 ∷ []))
    ∷ object "id_ad" (some "id-ad") none (some 176) (under "id_pkix" (48 ∷ []))
    ∷ object "id_ppl" (some "id-ppl") none (some 662) (under "id_pkix" (21 ∷ []))
    ∷ object "id_cct" (some "id-cct") none (some 268) (under "id_pkix" (12 ∷ []))
    ∷ object "id_qcs" (some "id-qcs") none (some 267) (under "id_pkix" (11 ∷ []))
    ∷ object "id_aca" (some "id-aca") none (some 266) (under "id_pkix" (10 ∷ []))
    ∷ object "id_pda" (some "id-pda") none (some 265) (under "id_pkix" (9 ∷ []))
    ∷ object "id_on" (some "id-on") none (some 264) (under "id_pkix" (8 ∷ []))
    ∷ object "id_cmc" (some "id-cmc") none (some 263) (under "id_pkix" (7 ∷ []))
    ∷ object "id_alg" (some "id-alg") none (some 262) (under "id_pkix" (6 ∷ []))
    ∷ object "id_pkip" (some "id-pkip") none (some 261) (under "id_pkix" (5 ∷ []))
    ∷ object "id_it" (some "id-it") none (some 260) (under "id_pkix" (4 ∷ []))
    ∷ object "id_kp" (some "id-kp") none (some 128) (under "id_pkix" (3 ∷ []))
    ∷ object "id_qt" (some "id-qt") none (some 259) (under "id_pkix" (2 ∷ []))
    ∷ object "id_pe" (some "id-pe") none (some 175) (under "id_pkix" (1 ∷ []))
    ∷ object "id_pkix_mod" (some "id-pkix-mod") none (some 258) (under "id_pkix" (0 ∷ []))
    ∷ object "id_pkix" (some "PKIX") none (some 127) (root (1 ∷ 3 ∷ 6 ∷ 1 ∷ 5 ∷ 5 ∷ 7 ∷ []))
    ∷ object "bf_ofb64" (some "BF-OFB") (some "bf-ofb") (some 94) no_oid
    ∷ object "bf_cfb64" (some "BF-CFB") (some "bf-cfb") (some 93) no_oid
    ∷ object "bf_ecb" (some "BF-ECB") (some "bf-ecb") (some 92) no_oid
    ∷ object "bf_cbc" (some "BF-CBC") (some "bf-cbc") (some 91)
        (root (1 ∷ 3 ∷ 6 ∷ 1 ∷ 4 ∷ 1 ∷ 3029 ∷ 1 ∷ 2 ∷ []))
    ∷ object "idea_ofb64" (some "IDEA-OFB") (some "idea-ofb") (some 46) no_oid
    ∷ object "idea_cfb64" (some "IDEA-CFB") (some "idea-cfb") (some 35) no_oid
    ∷ object "idea_ecb" (some "IDEA-ECB") (some "idea-ecb") (some 36) no_oid
    ∷ object "idea_cbc" (some "IDEA-CBC") (some "idea-cbc") (some 34)
        (root (1 ∷ 3 ∷ 6 ∷ 1 ∷ 4 ∷ 1 ∷ 188 ∷ 7 ∷ 1 ∷ 1 ∷ 2 ∷ []))
    ∷ object "ms_upn" (some "msUPN") (some "Microsoft Universal Principal Name") (some 649)
        (root (1 ∷ 3 ∷ 6 ∷ 1 ∷ 4 ∷ 1 ∷ 311 ∷ 20 ∷ 2 ∷ 3 ∷ []))
    ∷ object "ms_smartcard_login" (some "msSmartcardLogin") (some "Microsoft Smartcardlogin")
        (some 648) (root (1 ∷ 3 ∷ 6 ∷ 1 ∷ 4 ∷ 1 ∷ 311 ∷ 20 ∷ 2 ∷ 2 ∷ []))
    ∷ object "ms_efs" (some "msEFS") (some "Microsoft Encrypted File System") (some 138)
        (root (1 ∷ 3 ∷ 6 ∷ 1 ∷ 4 ∷ 1 ∷ 311 ∷ 10 ∷ 3 ∷ 4 ∷ []))
    ∷ []

unfoldable pub objects_10 : List Obj
objects_10 =
    object "id_it_caProtEncCert" (some "id-it-caProtEncCert") none (some 298)
      (under "id_it" (1 ∷ []))
    ∷ object "dvcs" (some "DVCS") (some "dvcs") (some 297) (under "id_kp" (10 ∷ []))
    ∷ object "OCSP_sign" (some "OCSPSigning") (some "OCSP Signing") (some 180)
        (under "id_kp" (9 ∷ []))
    ∷ object "time_stamp" (some "timeStamping") (some "Time Stamping") (some 133)
        (under "id_kp" (8 ∷ []))
    ∷ object "ipsecUser" (some "ipsecUser") (some "IPSec User") (some 296) (under "id_kp" (7 ∷ []))
    ∷ object "ipsecTunnel" (some "ipsecTunnel") (some "IPSec Tunnel") (some 295)
        (under "id_kp" (6 ∷ []))
    ∷ object "ipsecEndSystem" (some "ipsecEndSystem") (some "IPSec End System") (some 294)
        (under "id_kp" (5 ∷ []))
    ∷ object "email_protect" (some "emailProtection") (some "E-mail Protection") (some 132)
        (under "id_kp" (4 ∷ []))
    ∷ object "code_sign" (some "codeSigning") (some "Code Signing") (some 131)
        (under "id_kp" (3 ∷ []))
    ∷ object "client_auth" (some "clientAuth") (some "TLS Web Client Authentication") (some 130)
        (under "id_kp" (2 ∷ []))
    ∷ object "server_auth" (some "serverAuth") (some "TLS Web Server Authentication") (some 129)
        (under "id_kp" (1 ∷ []))
    ∷ object "textNotice" (some "textNotice") none (some 293) (under "id_qt" (3 ∷ []))
    ∷ object "id_qt_unotice" (some "id-qt-unotice") (some "Policy Qualifier User Notice") (some 165)
        (under "id_qt" (2 ∷ []))
    ∷ object "id_qt_cps" (some "id-qt-cps") (some "Policy Qualifier CPS") (some 164)
        (under "id_qt" (1 ∷ []))
    ∷ object "proxyCertInfo" (some "proxyCertInfo") (some "Proxy Certificate Information")
        (some 663) (under "id_pe" (14 ∷ []))
    ∷ object "sinfo_access" (some "subjectInfoAccess") (some "Subject Information Access")
        (some 398) (under "id_pe" (11 ∷ []))
    ∷ object "ac_proxying" (some "ac-proxying") none (some 397) (under "id_pe" (10 ∷ []))
    ∷ object "sbgp_routerIdentifier" (some "sbgp-routerIdentifier") none (some 292)
        (under "id_pe" (9 ∷ []))
    ∷ object "sbgp_autonomousSysNum" (some "sbgp-autonomousSysNum") none (some 291)
        (under "id_pe" (8 ∷ []))
    ∷ object "sbgp_ipAddrBlock" (some "sbgp-ipAddrBlock") none (some 290) (under "id_pe" (7 ∷ []))
    ∷ object "aaControls" (some "aaControls") none (some 289) (under "id_pe" (6 ∷ []))
    ∷ object "ac_targeting" (some "ac-targeting") none (some 288) (under "id_pe" (5 ∷ []))
    ∷ object "ac_auditEntity" (some "ac-auditEntity") none (some 287) (under "id_pe" (4 ∷ []))
    ∷ object "qcStatements" (some "qcStatements") none (some 286) (under "id_pe" (3 ∷ []))
    ∷ object "biometricInfo" (some "biometricInfo") (some "Biometric Info") (some 285)
        (under "id_pe" (2 ∷ []))
    ∷ object "info_access" (some "authorityInfoAccess") (some "Authority Information Access")
        (some 177) (under "id_pe" (1 ∷ []))
    ∷ object "id_mod_cmp2000" (some "id-mod-cmp2000") none (some 284)
        (under "id_pkix_mod" (16 ∷ []))
    ∷ object "id_mod_dvcs" (some "id-mod-dvcs") none (some 283) (under "id_pkix_mod" (15 ∷ []))
    ∷ object "id_mod_ocsp" (some "id-mod-ocsp") none (some 282) (under "id_pkix_mod" (14 ∷ []))
    ∷ object "id_mod_timestamp_protocol" (some "id-mod-timestamp-protocol") none (some 281)
        (under "id_pkix_mod" (13 ∷ []))
    ∷ object "id_mod_attribute_cert" (some "id-mod-attribute-cert") none (some 280)
        (under "id_pkix_mod" (12 ∷ []))
    ∷ object "id_mod_qualified_cert_93" (some "id-mod-qualified-cert-93") none (some 279)
        (under "id_pkix_mod" (11 ∷ []))
    ∷ object "id_mod_qualified_cert_88" (some "id-mod-qualified-cert-88") none (some 278)
        (under "id_pkix_mod" (10 ∷ []))
    ∷ []
