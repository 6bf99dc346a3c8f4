-- ===== src/Objects/PartTwelve.antt =====
-- native/include/openssl/obj_mac.h, lines 3341 to 3637. The newest object of a list is the last of the lines.
use logful_api.Base.{List, [], ◌∷◌, none, some}
use logful_api.Objects.Defs.{Obj, object, under}

unfoldable pub objects_23 : List Obj
objects_23 =
    object "setext_track2" (some "setext-track2") none (some 605) (under "set_msgExt" (7 ∷ []))
    ∷ object "setext_pinAny" (some "setext-pinAny") none (some 604) (under "set_msgExt" (5 ∷ []))
    ∷ object "setext_pinSecure" (some "setext-pinSecure") none (some 603)
        (under "set_msgExt" (4 ∷ []))
    ∷ object "setext_miAuth" (some "setext-miAuth") (some "merchant initiated auth") (some 602)
        (under "set_msgExt" (3 ∷ []))
    ∷ object "setext_genCrypt" (some "setext-genCrypt") (some "generic cryptogram") (some 601)
        (under "set_msgExt" (1 ∷ []))
    ∷ object "setct_BCIDistributionTBS" (some "setct-BCIDistributionTBS") none (some 600)
        (under "set_ctype" (82 ∷ []))
    ∷ object "setct_CRLNotificationResTBS" (some "setct-CRLNotificationResTBS") none (some 599)
        (under "set_ctype" (81 ∷ []))
    ∷ object "setct_CRLNotificationTBS" (some "setct-CRLNotificationTBS") none (some 598)
        (under "set_ctype" (80 ∷ []))
    ∷ object "setct_CertResTBE" (some "setct-CertResTBE") none (some 597)
        (under "set_ctype" (79 ∷ []))
    ∷ object "setct_CertReqTBEX" (some "setct-CertReqTBEX") none (some 596)
        (under "set_ctype" (78 ∷ []))
    ∷ object "setct_CertReqTBE" (some "setct-CertReqTBE") none (some 595)
        (under "set_ctype" (77 ∷ []))
    ∷ object "setct_RegFormReqTBE" (some "setct-RegFormReqTBE") none (some 594)
        (under "set_ctype" (76 ∷ []))
    ∷ object "setct_BatchAdminResTBE" (some "setct-BatchAdminResTBE") none (some 593)
        (under "set_ctype" (75 ∷ []))
    ∷ object "setct_BatchAdminReqTBE" (some "setct-BatchAdminReqTBE") none (some 592)
        (under "set_ctype" (74 ∷ []))
    ∷ object "setct_CredRevResTBE" (some "setct-CredRevResTBE") none (some 591)
        (under "set_ctype" (73 ∷ []))
    ∷ object "setct_CredRevReqTBEX" (some "setct-CredRevReqTBEX") none (some 590)
        (under "set_ctype" (72 ∷ []))
    ∷ object "setct_CredRevReqTBE" (some "setct-CredRevReqTBE") none (some 589)
        (under "set_ctype" (71 ∷ []))
    ∷ object "setct_CredResTBE" (some "setct-CredResTBE") none (some 588)
        (under "set_ctype" (70 ∷ []))
    ∷ object "setct_CredReqTBEX" (some "setct-CredReqTBEX") none (some 587)
        (under "set_ctype" (69 ∷ []))
    ∷ object "setct_CredReqTBE" (some "setct-CredReqTBE") none (some 586)
        (under "set_ctype" (68 ∷ []))
    ∷ object "setct_CapRevResTBE" (some "setct-CapRevResTBE") none (some 585)
        (under "set_ctype" (67 ∷ []))
    ∷ object "setct_CapRevReqTBEX" (some "setct-CapRevReqTBEX") none (some 584)
        (under "set_ctype" (66 ∷ []))
    ∷ object "setct_CapRevReqTBE" (some "setct-CapRevReqTBE") none (some 583)
        (under "set_ctype" (65 ∷ []))
    ∷ object "setct_CapResTBE" (some "setct-CapResTBE") none (some 582)
        (under "set_ctype" (64 ∷ []))
    ∷ object "setct_CapReqTBEX" (some "setct-CapReqTBEX") none (some 581)
        (under "set_ctype" (63 ∷ []))
    ∷ object "setct_CapReqTBE" (some "setct-CapReqTBE") none (some 580)
        (under "set_ctype" (62 ∷ []))
    ∷ object "setct_AuthRevResTBEB" (some "setct-AuthRevResTBEB") none (some 579)
        (under "set_ctype" (61 ∷ []))
    ∷ object "setct_AuthRevResTBE" (some "setct-AuthRevResTBE") none (some 578)
        (under "set_ctype" (60 ∷ []))
    ∷ object "setct_AuthRevReqTBE" (some "setct-AuthRevReqTBE") none (some 577)
        (under "set_ctype" (59 ∷ []))
    ∷ object "setct_AcqCardCodeMsgTBE" (some "setct-AcqCardCodeMsgTBE") none (some 576)
        (under "set_ctype" (58 ∷ []))
    ∷ object "setct_CapTokenTBEX" (some "setct-CapTokenTBEX") none (some 575)
        (under "set_ctype" (57 ∷ []))
    ∷ object "setct_CapTokenTBE" (some "setct-CapTokenTBE") none (some 574)
        (under "set_ctype" (56 ∷ []))
    ∷ object "setct_AuthTokenTBE" (some "setct-AuthTokenTBE") none (some 573)
        (under "set_ctype" (55 ∷ []))
    ∷ object "setct_AuthResTBEX" (some "setct-AuthResTBEX") none (some 572)
        (under "set_ctype" (54 ∷ []))
    ∷ object "setct_AuthResTBE" (some "setct-AuthResTBE") none (some 571)
        (under "set_ctype" (53 ∷ []))
    ∷ object "setct_AuthReqTBE" (some "setct-AuthReqTBE") none (some 570)
        (under "set_ctype" (52 ∷ []))
    ∷ object "setct_PIUnsignedTBE" (some "setct-PIUnsignedTBE") none (some 569)
        (under "set_ctype" (51 ∷ []))
    ∷ []

unfoldable pub objects_24 : List Obj
objects_24 =
    object "set_brand_Visa" (some "set-brand-Visa") none (some 640) (under "set_brand" (4 ∷ []))
    ∷ object "set_brand_JCB" (some "set-brand-JCB") none (some 639) (under "set_brand" (35 ∷ []))
    ∷ object "set_brand_AmericanExpress" (some "set-brand-AmericanExpress") none (some 638)
        (under "set_brand" (34 ∷ []))
    ∷ object "set_brand_Diners" (some "set-brand-Diners") none (some 637)
        (under "set_brand" (30 ∷ []))
    ∷ object "set_brand_IATA_ATA" (some "set-brand-IATA-ATA") none (some 636)
        (under "set_brand" (1 ∷ []))
    ∷ object "setAttr_SecDevSig" (some "setAttr-SecDevSig") (some "secure device signature")
        (some 635) (under "setAttr_IssCap_Sig" (2 ∷ []))
    ∷ object "setAttr_TokICCsig" (some "setAttr-TokICCsig") (some "ICC or token signature")
        (some 634) (under "setAttr_IssCap_Sig" (1 ∷ []))
    ∷ object "setAttr_T2cleartxt" (some "setAttr-T2cleartxt") (some "cleartext track 2") (some 633)
        (under "setAttr_IssCap_T2" (2 ∷ []))
    ∷ object "setAttr_T2Enc" (some "setAttr-T2Enc") (some "encrypted track 2") (some 632)
        (under "setAttr_IssCap_T2" (1 ∷ []))
    ∷ object "setAttr_GenCryptgrm" (some "setAttr-GenCryptgrm") (some "generate cryptogram")
        (some 631) (under "setAttr_IssCap_CVM" (1 ∷ []))
    ∷ object "setAttr_IssCap_Sig" (some "setAttr-IssCap-Sig") none (some 630)
        (under "setAttr_IssCap" (5 ∷ []))
    ∷ object "setAttr_IssCap_T2" (some "setAttr-IssCap-T2") none (some 629)
        (under "setAttr_IssCap" (4 ∷ []))
    ∷ object "setAttr_IssCap_CVM" (some "setAttr-IssCap-CVM") none (some 628)
        (under "setAttr_IssCap" (3 ∷ []))
    ∷ object "setAttr_Token_B0Prime" (some "setAttr-Token-B0Prime") none (some 627)
        (under "setAttr_TokenType" (2 ∷ []))
    ∷ object "setAttr_Token_EMV" (some "setAttr-Token-EMV") none (some 626)
        (under "setAttr_TokenType" (1 ∷ []))
    ∷ object "set_addPolicy" (some "set-addPolicy") none (some 625) (under "setAttr_Cert" (1 ∷ []))
    ∷ object "set_rootKeyThumb" (some "set-rootKeyThumb") none (some 624)
        (under "setAttr_Cert" (0 ∷ []))
    ∷ object "setAttr_IssCap" (some "setAttr-IssCap") (some "issuer capabilities") (some 623)
        (under "set_attr" (3 ∷ []))
    ∷ object "setAttr_TokenType" (some "setAttr-TokenType") none (some 622)
        (under "set_attr" (2 ∷ []))
    ∷ object "setAttr_PGWYcap" (some "setAttr-PGWYcap") (some "payment gateway capabilities")
        (some 621) (under "set_attr" (1 ∷ []))
    ∷ object "setAttr_Cert" (some "setAttr-Cert") none (some 620) (under "set_attr" (0 ∷ []))
    ∷ object "setCext_IssuerCapabilities" (some "setCext-IssuerCapabilities") none (some 619)
        (under "set_certExt" (11 ∷ []))
    ∷ object "setCext_TokenType" (some "setCext-TokenType") none (some 618)
        (under "set_certExt" (10 ∷ []))
    ∷ object "setCext_Track2Data" (some "setCext-Track2Data") none (some 617)
        (under "set_certExt" (9 ∷ []))
    ∷ object "setCext_TokenIdentifier" (some "setCext-TokenIdentifier") none (some 616)
        (under "set_certExt" (8 ∷ []))
    ∷ object "setCext_PGWYcapabilities" (some "setCext-PGWYcapabilities") none (some 615)
        (under "set_certExt" (7 ∷ []))
    ∷ object "setCext_setQualf" (some "setCext-setQualf") none (some 614)
        (under "set_certExt" (6 ∷ []))
    ∷ object "setCext_setExt" (some "setCext-setExt") none (some 613) (under "set_certExt" (5 ∷ []))
    ∷ object "setCext_tunneling" (some "setCext-tunneling") none (some 612)
        (under "set_certExt" (4 ∷ []))
    ∷ object "setCext_cCertRequired" (some "setCext-cCertRequired") none (some 611)
        (under "set_certExt" (3 ∷ []))
    ∷ object "setCext_merchData" (some "setCext-merchData") none (some 610)
        (under "set_certExt" (2 ∷ []))
    ∷ object "setCext_certType" (some "setCext-certType") none (some 609)
        (under "set_certExt" (1 ∷ []))
    ∷ object "setCext_hashedRoot" (some "setCext-hashedRoot") none (some 608)
        (under "set_certExt" (0 ∷ []))
    ∷ object "set_policy_root" (some "set-policy-root") none (some 607)
        (under "set_policy" (0 ∷ []))
    ∷ object "setext_cv" (some "setext-cv") (some "additional verification") (some 606)
        (under "set_msgExt" (8 ∷ []))
    ∷ []
