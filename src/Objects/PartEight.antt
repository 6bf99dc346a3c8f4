-- ===== src/Objects/PartEight.antt =====
-- native/include/openssl/obj_mac.h, lines 2147 to 2444. The newest object of a list is the last of the lines.
use logful_api.Base.{List, [], ◌∷◌, none, some}
use logful_api.Objects.Defs.{Obj, object, root, under}

unfoldable pub objects_15 : List Obj
objects_15 =
    object "id_ce" (some "id-ce") none (some 81) (under "X500" (29 ∷ []))
    ∷ object "mdc2" (some "MDC2") (some "mdc2") (some 95) (under "X500algorithms" (3 ∷ 101 ∷ []))
    ∷ object "mdc2WithRSA" (some "RSA-MDC2") (some "mdc2WithRSA") (some 96)
        (under "X500algorithms" (3 ∷ 100 ∷ []))
    ∷ object "rsa" (some "RSA") (some "rsa") (some 19) (under "X500algorithms" (1 ∷ 1 ∷ []))
    ∷ object "X500algorithms" (some "X500algorithms") (some "directory services - algorithms")
        (some 378) (under "X500" (8 ∷ []))
    ∷ object "role" (some "role") (some "role") (some 400) (under "X509" (72 ∷ []))
    ∷ object "pseudonym" none (some "pseudonym") (some 510) (under "X509" (65 ∷ []))
    ∷ object "dmdName" (some "dmdName") none (some 892) (under "X509" (54 ∷ []))
    ∷ object "deltaRevocationList" none (some "deltaRevocationList") (some 891)
        (under "X509" (53 ∷ []))
    ∷ object "supportedAlgorithms" none (some "supportedAlgorithms") (some 890)
        (under "X509" (52 ∷ []))
    ∷ object "houseIdentifier" none (some "houseIdentifier") (some 889) (under "X509" (51 ∷ []))
    ∷ object "uniqueMember" none (some "uniqueMember") (some 888) (under "X509" (50 ∷ []))
    ∷ object "distinguishedName" none (some "distinguishedName") (some 887) (under "X509" (49 ∷ []))
    ∷ object "protocolInformation" none (some "protocolInformation") (some 886)
        (under "X509" (48 ∷ []))
    ∷ object "enhancedSearchGuide" none (some "enhancedSearchGuide") (some 885)
        (under "X509" (47 ∷ []))
    ∷ object "dnQualifier" (some "dnQualifier") (some "dnQualifier") (some 174)
        (under "X509" (46 ∷ []))
    ∷ object "x500UniqueIdentifier" none (some "x500UniqueIdentifier") (some 503)
        (under "X509" (45 ∷ []))
    ∷ object "generationQualifier" none (some "generationQualifier") (some 509)
        (under "X509" (44 ∷ []))
    ∷ object "initials" (some "initials") (some "initials") (some 101) (under "X509" (43 ∷ []))
    ∷ object "givenName" (some "GN") (some "givenName") (some 99) (under "X509" (42 ∷ []))
    ∷ object "name" (some "name") (some "name") (some 173) (under "X509" (41 ∷ []))
    ∷ object "crossCertificatePair" none (some "crossCertificatePair") (some 884)
        (under "X509" (40 ∷ []))
    ∷ object "certificateRevocationList" none (some "certificateRevocationList") (some 883)
        (under "X509" (39 ∷ []))
    ∷ object "authorityRevocationList" none (some "authorityRevocationList") (some 882)
        (under "X509" (38 ∷ []))
    ∷ object "cACertificate" none (some "cACertificate") (some 881) (under "X509" (37 ∷ []))
    ∷ object "userCertificate" none (some "userCertificate") (some 880) (under "X509" (36 ∷ []))
    ∷ object "userPassword" none (some "userPassword") (some 879) (under "X509" (35 ∷ []))
    ∷ object "seeAlso" (some "seeAlso") none (some 878) (under "X509" (34 ∷ []))
    ∷ object "roleOccupant" none (some "roleOccupant") (some 877) (under "X509" (33 ∷ []))
    ∷ object "owner" (some "owner") none (some 876) (under "X509" (32 ∷ []))
    ∷ object "member" (some "member") none (some 875) (under "X509" (31 ∷ []))
    ∷ object "supportedApplicationContext" none (some "supportedApplicationContext") (some 874)
        (under "X509" (30 ∷ []))
    ∷ object "presentationAddress" none (some "presentationAddress") (some 873)
        (under "X509" (29 ∷ []))
    ∷ object "preferredDeliveryMethod" none (some "preferredDeliveryMethod") (some 872)
        (under "X509" (28 ∷ []))
    ∷ object "destinationIndicator" none (some "destinationIndicator") (some 871)
        (under "X509" (27 ∷ []))
    ∷ []

unfoldable pub objects_16 : List Obj
objects_16 =
    object "netscape_cert_type" (some "nsCertType") (some "Netscape Cert Type") (some 71)
      (under "netscape_cert_extension" (1 ∷ []))
    ∷ object "netscape_data_type" (some "nsDataType") (some "Netscape Data Type") (some 59)
        (under "netscape" (2 ∷ []))
    ∷ object "netscape_cert_extension" (some "nsCertExt") (some "Netscape Certificate Extension")
        (some 58) (under "netscape" (1 ∷ []))
    ∷ object "netscape" (some "Netscape") (some "Netscape Communications Corp.") (some 57)
        (root (2 ∷ 16 ∷ 840 ∷ 1 ∷ 113730 ∷ []))
    ∷ object "anyExtendedKeyUsage" (some "anyExtendedKeyUsage") (some "Any Extended Key Usage")
        (some 910) (under "ext_key_usage" (0 ∷ []))
    ∷ object "no_rev_avail" (some "noRevAvail") (some "X509v3 No Revocation Available") (some 403)
        (under "id_ce" (56 ∷ []))
    ∷ object "target_information" (some "targetInformation") (some "X509v3 AC Targeting") (some 402)
        (under "id_ce" (55 ∷ []))
    ∷ object "inhibit_any_policy" (some "inhibitAnyPolicy") (some "X509v3 Inhibit Any Policy")
        (some 748) (under "id_ce" (54 ∷ []))
    ∷ object "freshest_crl" (some "freshestCRL") (some "X509v3 Freshest CRL") (some 857)
        (under "id_ce" (46 ∷ []))
    ∷ object "ext_key_usage" (some "extendedKeyUsage") (some "X509v3 Extended Key Usage") (some 126)
        (under "id_ce" (37 ∷ []))
    ∷ object "policy_constraints" (some "policyConstraints") (some "X509v3 Policy Constraints")
        (some 401) (under "id_ce" (36 ∷ []))
    ∷ object "authority_key_identifier" (some "authorityKeyIdentifier")
        (some "X509v3 Authority Key Identifier") (some 90) (under "id_ce" (35 ∷ []))
    ∷ object "policy_mappings" (some "policyMappings") (some "X509v3 Policy Mappings") (some 747)
        (under "id_ce" (33 ∷ []))
    ∷ object "any_policy" (some "anyPolicy") (some "X509v3 Any Policy") (some 746)
        (under "certificate_policies" (0 ∷ []))
    ∷ object "certificate_policies" (some "certificatePolicies")
        (some "X509v3 Certificate Policies") (some 89) (under "id_ce" (32 ∷ []))
    ∷ object "crl_distribution_points" (some "crlDistributionPoints")
        (some "X509v3 CRL Distribution Points") (some 103) (under "id_ce" (31 ∷ []))
    ∷ object "name_constraints" (some "nameConstraints") (some "X509v3 Name Constraints") (some 666)
        (under "id_ce" (30 ∷ []))
    ∷ object "certificate_issuer" (some "certificateIssuer") (some "X509v3 Certificate Issuer")
        (some 771) (under "id_ce" (29 ∷ []))
    ∷ object "issuing_distribution_point" (some "issuingDistributionPoint")
        (some "X509v3 Issuing Distrubution Point") (some 770) (under "id_ce" (28 ∷ []))
    ∷ object "delta_crl" (some "deltaCRL") (some "X509v3 Delta CRL Indicator") (some 140)
        (under "id_ce" (27 ∷ []))
    ∷ object "invalidity_date" (some "invalidityDate") (some "Invalidity Date") (some 142)
        (under "id_ce" (24 ∷ []))
    ∷ object "crl_reason" (some "CRLReason") (some "X509v3 CRL Reason Code") (some 141)
        (under "id_ce" (21 ∷ []))
    ∷ object "crl_number" (some "crlNumber") (some "X509v3 CRL Number") (some 88)
        (under "id_ce" (20 ∷ []))
    ∷ object "basic_constraints" (some "basicConstraints") (some "X509v3 Basic Constraints")
        (some 87) (under "id_ce" (19 ∷ []))
    ∷ object "issuer_alt_name" (some "issuerAltName") (some "X509v3 Issuer Alternative Name")
        (some 86) (under "id_ce" (18 ∷ []))
    ∷ object "subject_alt_name" (some "subjectAltName") (some "X509v3 Subject Alternative Name")
        (some 85) (under "id_ce" (17 ∷ []))
    ∷ object "private_key_usage_period" (some "privateKeyUsagePeriod")
        (some "X509v3 Private Key Usage Period") (some 84) (under "id_ce" (16 ∷ []))
    ∷ object "key_usage" (some "keyUsage") (some "X509v3 Key Usage") (some 83)
        (under "id_ce" (15 ∷ []))
    ∷ object "subject_key_identifier" (some "subjectKeyIdentifier")
        (some "X509v3 Subject Key Identifier") (some 82) (under "id_ce" (14 ∷ []))
    ∷ object "subject_directory_attributes" (some "subjectDirectoryAttributes")
        (some "X509v3 Subject Directory Attributes") (some 769) (under "id_ce" (9 ∷ []))
    ∷ []
