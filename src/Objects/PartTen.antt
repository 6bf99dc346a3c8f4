-- ===== src/Objects/PartTen.antt =====
-- native/include/openssl/obj_mac.h, lines 2743 to 3043. The newest object of a list is the last of the lines.
use logful_api.Base.{List, [], ◌∷◌, none, some}
use logful_api.Objects.Defs.{Obj, object, no_oid, under}

unfoldable pub objects_19 : List Obj
objects_19 =
    object "rFC822localPart" none (some "rFC822localPart") (some 450)
      (under "pilotObjectClass" (14 ∷ []))
    ∷ object "Domain" (some "domain") (some "Domain") (some 392)
        (under "pilotObjectClass" (13 ∷ []))
    ∷ object "documentSeries" none (some "documentSeries") (some 449)
        (under "pilotObjectClass" (9 ∷ []))
    ∷ object "room" (some "room") none (some 448) (under "pilotObjectClass" (7 ∷ []))
    ∷ object "document" (some "document") none (some 447) (under "pilotObjectClass" (6 ∷ []))
    ∷ object "account" (some "account") none (some 446) (under "pilotObjectClass" (5 ∷ []))
    ∷ object "pilotPerson" none (some "pilotPerson") (some 445) (under "pilotObjectClass" (4 ∷ []))
    ∷ object "pilotObject" none (some "pilotObject") (some 444) (under "pilotObjectClass" (3 ∷ []))
    ∷ object "caseIgnoreIA5StringSyntax" none (some "caseIgnoreIA5StringSyntax") (some 443)
        (under "pilotAttributeSyntax" (5 ∷ []))
    ∷ object "iA5StringSyntax" none (some "iA5StringSyntax") (some 442)
        (under "pilotAttributeSyntax" (4 ∷ []))
    ∷ object "pilotGroups" none (some "pilotGroups") (some 441) (under "pilot" (10 ∷ []))
    ∷ object "pilotObjectClass" none (some "pilotObjectClass") (some 440) (under "pilot" (4 ∷ []))
    ∷ object "pilotAttributeSyntax" none (some "pilotAttributeSyntax") (some 439)
        (under "pilot" (3 ∷ []))
    ∷ object "pilotAttributeType" none (some "pilotAttributeType") (some 438)
        (under "pilot" (1 ∷ []))
    ∷ object "pilot" (some "pilot") none (some 437) (under "ucl" (100 ∷ []))
    ∷ object "ucl" (some "ucl") none (some 436) (under "pss" (19200300 ∷ []))
    ∷ object "pss" (some "pss") none (some 435) (under "data" (2342 ∷ []))
    ∷ object "data" (some "data") none (some 434) (under "itu_t" (9 ∷ []))
    ∷ object "hold_instruction_reject" (some "holdInstructionReject")
        (some "Hold Instruction Reject") (some 433) (under "holdInstruction" (3 ∷ []))
    ∷ object "hold_instruction_call_issuer" (some "holdInstructionCallIssuer")
        (some "Hold Instruction Call Issuer") (some 432) (under "holdInstruction" (2 ∷ []))
    ∷ object "hold_instruction_none" (some "holdInstructionNone") (some "Hold Instruction None")
        (some 431) (under "holdInstruction" (1 ∷ []))
    ∷ object "holdInstruction" none none none (under "X9_57" (2 ∷ []))
    ∷ object "hold_instruction_code" (some "holdInstructionCode") (some "Hold Instruction Code")
        (some 430) (under "id_ce" (23 ∷ []))
    ∷ object "dsa_with_SHA256" (some "dsa_with_SHA256") none (some 803)
        (under "dsa_with_sha2" (2 ∷ []))
    ∷ object "dsa_with_SHA224" (some "dsa_with_SHA224") none (some 802)
        (under "dsa_with_sha2" (1 ∷ []))
    ∷ object "dsa_with_sha2" none none none (under "nistAlgorithms" (3 ∷ []))
    ∷ object "sha224" (some "SHA224") (some "sha224") (some 675) (under "nist_hashalgs" (4 ∷ []))
    ∷ object "sha512" (some "SHA512") (some "sha512") (some 674) (under "nist_hashalgs" (3 ∷ []))
    ∷ object "sha384" (some "SHA384") (some "sha384") (some 673) (under "nist_hashalgs" (2 ∷ []))
    ∷ object "sha256" (some "SHA256") (some "sha256") (some 672) (under "nist_hashalgs" (1 ∷ []))
    ∷ object "nist_hashalgs" none none none (under "nistAlgorithms" (2 ∷ []))
    ∷ object "des_ede3_cfb8" (some "DES-EDE3-CFB8") (some "des-ede3-cfb8") (some 659) no_oid
    ∷ object "des_ede3_cfb1" (some "DES-EDE3-CFB1") (some "des-ede3-cfb1") (some 658) no_oid
    ∷ object "des_cfb8" (some "DES-CFB8") (some "des-cfb8") (some 657) no_oid
    ∷ object "des_cfb1" (some "DES-CFB1") (some "des-cfb1") (some 656) no_oid
    ∷ object "aes_256_xts" (some "AES-256-XTS") (some "aes-256-xts") (some 914) no_oid
    ∷ object "aes_128_xts" (some "AES-128-XTS") (some "aes-128-xts") (some 913) no_oid
    ∷ []

unfoldable pub objects_20 : List Obj
objects_20 =
    object "homePostalAddress" none (some "homePostalAddress") (some 486)
      (under "pilotAttributeType" (39 ∷ []))
    ∷ object "associatedName" none (some "associatedName") (some 485)
        (under "pilotAttributeType" (38 ∷ []))
    ∷ object "associatedDomain" none (some "associatedDomain") (some 484)
        (under "pilotAttributeType" (37 ∷ []))
    ∷ object "cNAMERecord" none (some "cNAMERecord") (some 483)
        (under "pilotAttributeType" (31 ∷ []))
    ∷ object "sOARecord" none (some "sOARecord") (some 482) (under "pilotAttributeType" (30 ∷ []))
    ∷ object "nSRecord" none (some "nSRecord") (some 481) (under "pilotAttributeType" (29 ∷ []))
    ∷ object "mXRecord" none (some "mXRecord") (some 480) (under "pilotAttributeType" (28 ∷ []))
    ∷ object "pilotAttributeType27" none (some "pilotAttributeType27") (some 479)
        (under "pilotAttributeType" (27 ∷ []))
    ∷ object "aRecord" none (some "aRecord") (some 478) (under "pilotAttributeType" (26 ∷ []))
    ∷ object "domainComponent" (some "DC") (some "domainComponent") (some 391)
        (under "pilotAttributeType" (25 ∷ []))
    ∷ object "lastModifiedBy" none (some "lastModifiedBy") (some 477)
        (under "pilotAttributeType" (24 ∷ []))
    ∷ object "lastModifiedTime" none (some "lastModifiedTime") (some 476)
        (under "pilotAttributeType" (23 ∷ []))
    ∷ object "otherMailbox" none (some "otherMailbox") (some 475)
        (under "pilotAttributeType" (22 ∷ []))
    ∷ object "secretary" (some "secretary") none (some 474) (under "pilotAttributeType" (21 ∷ []))
    ∷ object "homeTelephoneNumber" none (some "homeTelephoneNumber") (some 473)
        (under "pilotAttributeType" (20 ∷ []))
    ∷ object "documentLocation" none (some "documentLocation") (some 472)
        (under "pilotAttributeType" (15 ∷ []))
    ∷ object "documentAuthor" none (some "documentAuthor") (some 471)
        (under "pilotAttributeType" (14 ∷ []))
    ∷ object "documentVersion" none (some "documentVersion") (some 470)
        (under "pilotAttributeType" (13 ∷ []))
    ∷ object "documentTitle" none (some "documentTitle") (some 469)
        (under "pilotAttributeType" (12 ∷ []))
    ∷ object "documentIdentifier" none (some "documentIdentifier") (some 468)
        (under "pilotAttributeType" (11 ∷ []))
    ∷ object "manager" (some "manager") none (some 467) (under "pilotAttributeType" (10 ∷ []))
    ∷ object "host" (some "host") none (some 466) (under "pilotAttributeType" (9 ∷ []))
    ∷ object "userClass" none (some "userClass") (some 465) (under "pilotAttributeType" (8 ∷ []))
    ∷ object "photo" (some "photo") none (some 464) (under "pilotAttributeType" (7 ∷ []))
    ∷ object "roomNumber" none (some "roomNumber") (some 463) (under "pilotAttributeType" (6 ∷ []))
    ∷ object "favouriteDrink" none (some "favouriteDrink") (some 462)
        (under "pilotAttributeType" (5 ∷ []))
    ∷ object "info" (some "info") none (some 461) (under "pilotAttributeType" (4 ∷ []))
    ∷ object "rfc822Mailbox" (some "mail") (some "rfc822Mailbox") (some 460)
        (under "pilotAttributeType" (3 ∷ []))
    ∷ object "textEncodedORAddress" none (some "textEncodedORAddress") (some 459)
        (under "pilotAttributeType" (2 ∷ []))
    ∷ object "userId" (some "UID") (some "userId") (some 458) (under "pilotAttributeType" (1 ∷ []))
    ∷ object "qualityLabelledData" none (some "qualityLabelledData") (some 457)
        (under "pilotObjectClass" (22 ∷ []))
    ∷ object "pilotDSA" none (some "pilotDSA") (some 456) (under "pilotObjectClass" (21 ∷ []))
    ∷ object "pilotOrganization" none (some "pilotOrganization") (some 455)
        (under "pilotObjectClass" (20 ∷ []))
    ∷ object "simpleSecurityObject" none (some "simpleSecurityObject") (some 454)
        (under "pilotObjectClass" (19 ∷ []))
    ∷ object "friendlyCountry" none (some "friendlyCountry") (some 453)
        (under "pilotObjectClass" (18 ∷ []))
    ∷ object "domainRelatedObject" none (some "domainRelatedObject") (some 452)
        (under "pilotObjectClass" (17 ∷ []))
    ∷ object "dNSDomain" none (some "dNSDomain") (some 451) (under "pilotObjectClass" (15 ∷ []))
    ∷ []
