-- ===== src/Objects/PartSeven.antt =====
-- native/include/openssl/obj_mac.h, lines 1851 to 2145. The newest object of a list is the last of the lines.
use logful_api.Base.{List, [], ◌∷◌, none, some}
use logful_api.Objects.Defs.{Obj, object, no_oid, root, under}

unfoldable pub objects_13 : List Obj
objects_13 =
    object "desx_cbc" (some "DESX-CBC") (some "desx-cbc") (some 80) no_oid
    ∷ object "des_ede3_ofb64" (some "DES-EDE3-OFB") (some "des-ede3-ofb") (some 63) no_oid
    ∷ object "des_ede_ofb64" (some "DES-EDE-OFB") (some "des-ede-ofb") (some 62) no_oid
    ∷ object "des_ede3_cfb64" (some "DES-EDE3-CFB") (some "des-ede3-cfb") (some 61) no_oid
    ∷ object "des_ede_cfb64" (some "DES-EDE-CFB") (some "des-ede-cfb") (some 60) no_oid
    ∷ object "des_ede_cbc" (some "DES-EDE-CBC") (some "des-ede-cbc") (some 43) no_oid
    ∷ object "des_ede3_ecb" (some "DES-EDE3") (some "des-ede3") (some 33) no_oid
    ∷ object "des_ede_ecb" (some "DES-EDE") (some "des-ede") (some 32) (under "algorithm" (17 ∷ []))
    ∷ object "shaWithRSAEncryption" (some "RSA-SHA") (some "shaWithRSAEncryption") (some 42)
        (under "algorithm" (15 ∷ []))
    ∷ object "dsaWithSHA" (some "DSA-SHA") (some "dsaWithSHA") (some 66)
        (under "algorithm" (13 ∷ []))
    ∷ object "dsa_2" (some "DSA-old") (some "dsaEncryption-old") (some 67)
        (under "algorithm" (12 ∷ []))
    ∷ object "rsaSignature" (some "rsaSignature") none (some 377) (under "algorithm" (11 ∷ []))
    ∷ object "des_cfb64" (some "DES-CFB") (some "des-cfb") (some 30) (under "algorithm" (9 ∷ []))
    ∷ object "des_ofb64" (some "DES-OFB") (some "des-ofb") (some 45) (under "algorithm" (8 ∷ []))
    ∷ object "des_cbc" (some "DES-CBC") (some "des-cbc") (some 31) (under "algorithm" (7 ∷ []))
    ∷ object "des_ecb" (some "DES-ECB") (some "des-ecb") (some 29) (under "algorithm" (6 ∷ []))
    ∷ object "md5WithRSA" (some "RSA-NP-MD5") (some "md5WithRSA") (some 104)
        (under "algorithm" (3 ∷ []))
    ∷ object "algorithm" (some "algorithm") (some "algorithm") (some 376)
        (root (1 ∷ 3 ∷ 14 ∷ 3 ∷ 2 ∷ []))
    ∷ object "id_pkix_OCSP_trustRoot" (some "trustRoot") (some "Trust Root") (some 375)
        (under "id_pkix_OCSP" (11 ∷ []))
    ∷ object "id_pkix_OCSP_path" (some "path") none (some 374) (under "id_pkix_OCSP" (10 ∷ []))
    ∷ object "id_pkix_OCSP_valid" (some "valid") none (some 373) (under "id_pkix_OCSP" (9 ∷ []))
    ∷ object "id_pkix_OCSP_extendedStatus" (some "extendedStatus") (some "Extended OCSP Status")
        (some 372) (under "id_pkix_OCSP" (8 ∷ []))
    ∷ object "id_pkix_OCSP_serviceLocator" (some "serviceLocator") (some "OCSP Service Locator")
        (some 371) (under "id_pkix_OCSP" (7 ∷ []))
    ∷ object "id_pkix_OCSP_archiveCutoff" (some "archiveCutoff") (some "OCSP Archive Cutoff")
        (some 370) (under "id_pkix_OCSP" (6 ∷ []))
    ∷ object "id_pkix_OCSP_noCheck" (some "noCheck") (some "OCSP No Check") (some 369)
        (under "id_pkix_OCSP" (5 ∷ []))
    ∷ object "id_pkix_OCSP_acceptableResponses" (some "acceptableResponses")
        (some "Acceptable OCSP Responses") (some 368) (under "id_pkix_OCSP" (4 ∷ []))
    ∷ object "id_pkix_OCSP_CrlID" (some "CrlID") (some "OCSP CRL ID") (some 367)
        (under "id_pkix_OCSP" (3 ∷ []))
    ∷ object "id_pkix_OCSP_Nonce" (some "Nonce") (some "OCSP Nonce") (some 366)
        (under "id_pkix_OCSP" (2 ∷ []))
    ∷ object "id_pkix_OCSP_basic" (some "basicOCSPResponse") (some "Basic OCSP Response") (some 365)
        (under "id_pkix_OCSP" (1 ∷ []))
    ∷ object "id_pkix_OCSP" none none none (under "ad_OCSP" [])
    ∷ object "caRepository" (some "caRepository") (some "CA Repository") (some 785)
        (under "id_ad" (5 ∷ []))
    ∷ object "ad_dvcs" (some "AD_DVCS") (some "ad dvcs") (some 364) (under "id_ad" (4 ∷ []))
    ∷ []

unfoldable pub objects_14 : List Obj
objects_14 =
    object "registeredAddress" none (some "registeredAddress") (some 870) (under "X509" (26 ∷ []))
    ∷ object "internationaliSDNNumber" none (some "internationaliSDNNumber") (some 869)
        (under "X509" (25 ∷ []))
    ∷ object "x121Address" none (some "x121Address") (some 868) (under "X509" (24 ∷ []))
    ∷ object "facsimileTelephoneNumber" none (some "facsimileTelephoneNumber") (some 867)
        (under "X509" (23 ∷ []))
    ∷ object "teletexTerminalIdentifier" none (some "teletexTerminalIdentifier") (some 866)
        (under "X509" (22 ∷ []))
    ∷ object "telexNumber" none (some "telexNumber") (some 865) (under "X509" (21 ∷ []))
    ∷ object "telephoneNumber" none (some "telephoneNumber") (some 864) (under "X509" (20 ∷ []))
    ∷ object "physicalDeliveryOfficeName" none (some "physicalDeliveryOfficeName") (some 863)
        (under "X509" (19 ∷ []))
    ∷ object "postOfficeBox" none (some "postOfficeBox") (some 862) (under "X509" (18 ∷ []))
    ∷ object "postalCode" none (some "postalCode") (some 661) (under "X509" (17 ∷ []))
    ∷ object "postalAddress" none (some "postalAddress") (some 861) (under "X509" (16 ∷ []))
    ∷ object "businessCategory" none (some "businessCategory") (some 860) (under "X509" (15 ∷ []))
    ∷ object "searchGuide" none (some "searchGuide") (some 859) (under "X509" (14 ∷ []))
    ∷ object "description" none (some "description") (some 107) (under "X509" (13 ∷ []))
    ∷ object "title" (some "title") (some "title") (some 106) (under "X509" (12 ∷ []))
    ∷ object "organizationalUnitName" (some "OU") (some "organizationalUnitName") (some 18)
        (under "X509" (11 ∷ []))
    ∷ object "organizationName" (some "O") (some "organizationName") (some 17)
        (under "X509" (10 ∷ []))
    ∷ object "streetAddress" (some "street") (some "streetAddress") (some 660)
        (under "X509" (9 ∷ []))
    ∷ object "stateOrProvinceName" (some "ST") (some "stateOrProvinceName") (some 16)
        (under "X509" (8 ∷ []))
    ∷ object "localityName" (some "L") (some "localityName") (some 15) (under "X509" (7 ∷ []))
    ∷ object "countryName" (some "C") (some "countryName") (some 14) (under "X509" (6 ∷ []))
    ∷ object "serialNumber" none (some "serialNumber") (some 105) (under "X509" (5 ∷ []))
    ∷ object "surname" (some "SN") (some "surname") (some 100) (under "X509" (4 ∷ []))
    ∷ object "commonName" (some "CN") (some "commonName") (some 13) (under "X509" (3 ∷ []))
    ∷ object "X509" (some "X509") none (some 12) (under "X500" (4 ∷ []))
    ∷ object "X500" (some "X500") (some "directory services (X.500)") (some 11) (root (2 ∷ 5 ∷ []))
    ∷ object "sxnet" (some "SXNetID") (some "Strong Extranet ID") (some 143)
        (root (1 ∷ 3 ∷ 101 ∷ 1 ∷ 4 ∷ 1 ∷ []))
    ∷ object "ripemd160WithRSA" (some "RSA-RIPEMD160") (some "ripemd160WithRSA") (some 119)
        (root (1 ∷ 3 ∷ 36 ∷ 3 ∷ 3 ∷ 1 ∷ 2 ∷ []))
    ∷ object "ripemd160" (some "RIPEMD160") (some "ripemd160") (some 117)
        (root (1 ∷ 3 ∷ 36 ∷ 3 ∷ 2 ∷ 1 ∷ []))
    ∷ object "sha1WithRSA" (some "RSA-SHA1-2") (some "sha1WithRSA") (some 115)
        (under "algorithm" (29 ∷ []))
    ∷ object "dsaWithSHA1_2" (some "DSA-SHA1-old") (some "dsaWithSHA1-old") (some 70)
        (under "algorithm" (27 ∷ []))
    ∷ object "sha1" (some "SHA1") (some "sha1") (some 64) (under "algorithm" (26 ∷ []))
    ∷ object "sha" (some "SHA") (some "sha") (some 41) (under "algorithm" (18 ∷ []))
    ∷ []
