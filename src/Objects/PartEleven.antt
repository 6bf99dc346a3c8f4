-- ===== src/Objects/PartEleven.antt =====
-- native/include/openssl/obj_mac.h, lines 3045 to 3339. The newest object of a list is the last of the lines.
use logful_api.Base.{List, [], ◌∷◌, none, some}
use logful_api.Objects.Defs.{Obj, object, under}

unfoldable pub objects_21 : List Obj
objects_21 =
    object "setct_PInitResData" (some "setct-PInitResData") none (some 531)
      (under "set_ctype" (12 ∷ []))
    ∷ object "setct_CapTokenSeq" (some "setct-CapTokenSeq") none (some 530)
        (under "set_ctype" (11 ∷ []))
    ∷ object "setct_AuthRevResBaggage" (some "setct-AuthRevResBaggage") none (some 529)
        (under "set_ctype" (10 ∷ []))
    ∷ object "setct_AuthRevReqBaggage" (some "setct-AuthRevReqBaggage") none (some 528)
        (under "set_ctype" (9 ∷ []))
    ∷ object "setct_AuthResBaggage" (some "setct-AuthResBaggage") none (some 527)
        (under "set_ctype" (8 ∷ []))
    ∷ object "setct_HODInput" (some "setct-HODInput") none (some 526) (under "set_ctype" (7 ∷ []))
    ∷ object "setct_PIDataUnsigned" (some "setct-PIDataUnsigned") none (some 525)
        (under "set_ctype" (6 ∷ []))
    ∷ object "setct_PIData" (some "setct-PIData") none (some 524) (under "set_ctype" (5 ∷ []))
    ∷ object "setct_PI" (some "setct-PI") none (some 523) (under "set_ctype" (4 ∷ []))
    ∷ object "setct_OIData" (some "setct-OIData") none (some 522) (under "set_ctype" (3 ∷ []))
    ∷ object "setct_PANOnly" (some "setct-PANOnly") none (some 521) (under "set_ctype" (2 ∷ []))
    ∷ object "setct_PANToken" (some "setct-PANToken") none (some 520) (under "set_ctype" (1 ∷ []))
    ∷ object "setct_PANData" (some "setct-PANData") none (some 519) (under "set_ctype" (0 ∷ []))
    ∷ object "set_brand" (some "set-brand") none (some 518) (under "id_set" (8 ∷ []))
    ∷ object "set_certExt" (some "set-certExt") (some "certificate extensions") (some 517)
        (under "id_set" (7 ∷ []))
    ∷ object "set_policy" (some "set-policy") none (some 516) (under "id_set" (5 ∷ []))
    ∷ object "set_attr" (some "set-attr") none (some 515) (under "id_set" (3 ∷ []))
    ∷ object "set_msgExt" (some "set-msgExt") (some "message extensions") (some 514)
        (under "id_set" (1 ∷ []))
    ∷ object "set_ctype" (some "set-ctype") (some "content types") (some 513)
        (under "id_set" (0 ∷ []))
    ∷ object "id_set" (some "id-set") (some "Secure Electronic Transactions") (some 512)
        (under "international_organizations" (42 ∷ []))
    ∷ object "documentPublisher" none (some "documentPublisher") (some 502)
        (under "pilotAttributeType" (56 ∷ []))
    ∷ object "audio" (some "audio") none (some 501) (under "pilotAttributeType" (55 ∷ []))
    ∷ object "dITRedirect" none (some "dITRedirect") (some 500)
        (under "pilotAttributeType" (54 ∷ []))
    ∷ object "personalSignature" none (some "personalSignature") (some 499)
        (under "pilotAttributeType" (53 ∷ []))
    ∷ object "subtreeMaximumQuality" none (some "subtreeMaximumQuality") (some 498)
        (under "pilotAttributeType" (52 ∷ []))
    ∷ object "subtreeMinimumQuality" none (some "subtreeMinimumQuality") (some 497)
        (under "pilotAttributeType" (51 ∷ []))
    ∷ object "singleLevelQuality" none (some "singleLevelQuality") (some 496)
        (under "pilotAttributeType" (50 ∷ []))
    ∷ object "dSAQuality" none (some "dSAQuality") (some 495) (under "pilotAttributeType" (49 ∷ []))
    ∷ object "buildingName" none (some "buildingName") (some 494)
        (under "pilotAttributeType" (48 ∷ []))
    ∷ object "mailPreferenceOption" none (some "mailPreferenceOption") (some 493)
        (under "pilotAttributeType" (47 ∷ []))
    ∷ object "janetMailbox" none (some "janetMailbox") (some 492)
        (under "pilotAttributeType" (46 ∷ []))
    ∷ object "organizationalStatus" none (some "organizationalStatus") (some 491)
        (under "pilotAttributeType" (45 ∷ []))
    ∷ object "friendlyCountryName" none (some "friendlyCountryName") (some 490)
        (under "pilotAttributeType" (43 ∷ []))
    ∷ object "pagerTelephoneNumber" none (some "pagerTelephoneNumber") (some 489)
        (under "pilotAttributeType" (42 ∷ []))
    ∷ object "mobileTelephoneNumber" none (some "mobileTelephoneNumber") (some 488)
        (under "pilotAttributeType" (41 ∷ []))
    ∷ object "personalTitle" none (some "personalTitle") (some 487)
        (under "pilotAttributeType" (40 ∷ []))
    ∷ []

unfoldable pub objects_22 : List Obj
objects_22 =
    object "setct_PIDualSignedTBE" (some "setct-PIDualSignedTBE") none (some 568)
      (under "set_ctype" (50 ∷ []))
    ∷ object "setct_ErrorTBS" (some "setct-ErrorTBS") none (some 567) (under "set_ctype" (49 ∷ []))
    ∷ object "setct_CertInqReqTBS" (some "setct-CertInqReqTBS") none (some 566)
        (under "set_ctype" (48 ∷ []))
    ∷ object "setct_CertResData" (some "setct-CertResData") none (some 565)
        (under "set_ctype" (47 ∷ []))
    ∷ object "setct_CertReqTBS" (some "setct-CertReqTBS") none (some 564)
        (under "set_ctype" (46 ∷ []))
    ∷ object "setct_CertReqData" (some "setct-CertReqData") none (some 563)
        (under "set_ctype" (45 ∷ []))
    ∷ object "setct_RegFormResTBS" (some "setct-RegFormResTBS") none (some 562)
        (under "set_ctype" (44 ∷ []))
    ∷ object "setct_MeAqCInitResTBS" (some "setct-MeAqCInitResTBS") none (some 561)
        (under "set_ctype" (43 ∷ []))
    ∷ object "setct_CardCInitResTBS" (some "setct-CardCInitResTBS") none (some 560)
        (under "set_ctype" (42 ∷ []))
    ∷ object "setct_BatchAdminResData" (some "setct-BatchAdminResData") none (some 559)
        (under "set_ctype" (41 ∷ []))
    ∷ object "setct_BatchAdminReqData" (some "setct-BatchAdminReqData") none (some 558)
        (under "set_ctype" (40 ∷ []))
    ∷ object "setct_PCertResTBS" (some "setct-PCertResTBS") none (some 557)
        (under "set_ctype" (39 ∷ []))
    ∷ object "setct_PCertReqData" (some "setct-PCertReqData") none (some 556)
        (under "set_ctype" (38 ∷ []))
    ∷ object "setct_CredRevResData" (some "setct-CredRevResData") none (some 555)
        (under "set_ctype" (37 ∷ []))
    ∷ object "setct_CredRevReqTBSX" (some "setct-CredRevReqTBSX") none (some 554)
        (under "set_ctype" (36 ∷ []))
    ∷ object "setct_CredRevReqTBS" (some "setct-CredRevReqTBS") none (some 553)
        (under "set_ctype" (35 ∷ []))
    ∷ object "setct_CredResData" (some "setct-CredResData") none (some 552)
        (under "set_ctype" (34 ∷ []))
    ∷ object "setct_CredReqTBSX" (some "setct-CredReqTBSX") none (some 551)
        (under "set_ctype" (33 ∷ []))
    ∷ object "setct_CredReqTBS" (some "setct-CredReqTBS") none (some 550)
        (under "set_ctype" (32 ∷ []))
    ∷ object "setct_CapRevResData" (some "setct-CapRevResData") none (some 549)
        (under "set_ctype" (31 ∷ []))
    ∷ object "setct_CapRevReqTBSX" (some "setct-CapRevReqTBSX") none (some 548)
        (under "set_ctype" (30 ∷ []))
    ∷ object "setct_CapRevReqTBS" (some "setct-CapRevReqTBS") none (some 547)
        (under "set_ctype" (29 ∷ []))
    ∷ object "setct_CapResData" (some "setct-CapResData") none (some 546)
        (under "set_ctype" (28 ∷ []))
    ∷ object "setct_CapReqTBSX" (some "setct-CapReqTBSX") none (some 545)
        (under "set_ctype" (27 ∷ []))
    ∷ object "setct_CapReqTBS" (some "setct-CapReqTBS") none (some 544)
        (under "set_ctype" (26 ∷ []))
    ∷ object "setct_AuthRevResTBS" (some "setct-AuthRevResTBS") none (some 543)
        (under "set_ctype" (25 ∷ []))
    ∷ object "setct_AuthRevResData" (some "setct-AuthRevResData") none (some 542)
        (under "set_ctype" (24 ∷ []))
    ∷ object "setct_AuthRevReqTBS" (some "setct-AuthRevReqTBS") none (some 541)
        (under "set_ctype" (23 ∷ []))
    ∷ object "setct_AcqCardCodeMsg" (some "setct-AcqCardCodeMsg") none (some 540)
        (under "set_ctype" (22 ∷ []))
    ∷ object "setct_CapTokenTBS" (some "setct-CapTokenTBS") none (some 539)
        (under "set_ctype" (21 ∷ []))
    ∷ object "setct_CapTokenData" (some "setct-CapTokenData") none (some 538)
        (under "set_ctype" (20 ∷ []))
    ∷ object "setct_AuthTokenTBS" (some "setct-AuthTokenTBS") none (some 537)
        (under "set_ctype" (19 ∷ []))
    ∷ object "setct_AuthResTBSX" (some "setct-AuthResTBSX") none (some 536)
        (under "set_ctype" (18 ∷ []))
    ∷ object "setct_AuthResTBS" (some "setct-AuthResTBS") none (some 535)
        (under "set_ctype" (17 ∷ []))
    ∷ object "setct_AuthReqTBS" (some "setct-AuthReqTBS") none (some 534)
        (under "set_ctype" (16 ∷ []))
    ∷ object "setct_PResData" (some "setct-PResData") none (some 533) (under "set_ctype" (14 ∷ []))
    ∷ object "setct_PI_TBS" (some "setct-PI-TBS") none (some 532) (under "set_ctype" (13 ∷ []))
    ∷ []
