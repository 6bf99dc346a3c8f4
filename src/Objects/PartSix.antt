-- ===== src/Objects/PartSix.antt =====
-- native/include/openssl/obj_mac.h, lines 1556 to 1849. The newest object of a list is the last of the lines.
use logful_api.Base.{List, [], ◌∷◌, none, some}
use logful_api.Objects.Defs.{Obj, object, under}

unfoldable pub objects_11 : List Obj
objects_11 =
    object "id_cmc_addExtensions" (some "id-cmc-addExtensions") none (some 334)
      (under "id_cmc" (8 ∷ []))
    ∷ object "id_cmc_recipientNonce" (some "id-cmc-recipientNonce") none (some 333)
        (under "id_cmc" (7 ∷ []))
    ∷ object "id_cmc_senderNonce" (some "id-cmc-senderNonce") none (some 332)
        (under "id_cmc" (6 ∷ []))
    ∷ object "id_cmc_transactionId" (some "id-cmc-transactionId") none (some 331)
        (under "id_cmc" (5 ∷ []))
    ∷ object "id_cmc_dataReturn" (some "id-cmc-dataReturn") none (some 330)
        (under "id_cmc" (4 ∷ []))
    ∷ object "id_cmc_identityProof" (some "id-cmc-identityProof") none (some 329)
        (under "id_cmc" (3 ∷ []))
    ∷ object "id_cmc_identification" (some "id-cmc-identification") none (some 328)
        (under "id_cmc" (2 ∷ []))
    ∷ object "id_cmc_statusInfo" (some "id-cmc-statusInfo") none (some 327)
        (under "id_cmc" (1 ∷ []))
    ∷ object "id_alg_dh_pop" (some "id-alg-dh-pop") none (some 326) (under "id_alg" (4 ∷ []))
    ∷ object "id_alg_dh_sig_hmac_sha1" (some "id-alg-dh-sig-hmac-sha1") none (some 325)
        (under "id_alg" (3 ∷ []))
    ∷ object "id_alg_noSignature" (some "id-alg-noSignature") none (some 324)
        (under "id_alg" (2 ∷ []))
    ∷ object "id_alg_des40" (some "id-alg-des40") none (some 323) (under "id_alg" (1 ∷ []))
    ∷ object "id_regInfo_certReq" (some "id-regInfo-certReq") none (some 322)
        (under "id_regInfo" (2 ∷ []))
    ∷ object "id_regInfo_utf8Pairs" (some "id-regInfo-utf8Pairs") none (some 321)
        (under "id_regInfo" (1 ∷ []))
    ∷ object "id_regCtrl_protocolEncrKey" (some "id-regCtrl-protocolEncrKey") none (some 320)
        (under "id_regCtrl" (6 ∷ []))
    ∷ object "id_regCtrl_oldCertID" (some "id-regCtrl-oldCertID") none (some 319)
        (under "id_regCtrl" (5 ∷ []))
    ∷ object "id_regCtrl_pkiArchiveOptions" (some "id-regCtrl-pkiArchiveOptions") none (some 318)
        (under "id_regCtrl" (4 ∷ []))
    ∷ object "id_regCtrl_pkiPublicationInfo" (some "id-regCtrl-pkiPublicationInfo") none (some 317)
        (under "id_regCtrl" (3 ∷ []))
    ∷ object "id_regCtrl_authenticator" (some "id-regCtrl-authenticator") none (some 316)
        (under "id_regCtrl" (2 ∷ []))
    ∷ object "id_regCtrl_regToken" (some "id-regCtrl-regToken") none (some 315)
        (under "id_regCtrl" (1 ∷ []))
    ∷ object "id_regInfo" (some "id-regInfo") none (some 314) (under "id_pkip" (2 ∷ []))
    ∷ object "id_regCtrl" (some "id-regCtrl") none (some 313) (under "id_pkip" (1 ∷ []))
    ∷ object "id_it_suppLangTags" (some "id-it-suppLangTags") none (some 784)
        (under "id_it" (16 ∷ []))
    ∷ object "id_it_origPKIMessage" (some "id-it-origPKIMessage") none (some 312)
        (under "id_it" (15 ∷ []))
    ∷ object "id_it_confirmWaitTime" (some "id-it-confirmWaitTime") none (some 311)
        (under "id_it" (14 ∷ []))
    ∷ object "id_it_implicitConfirm" (some "id-it-implicitConfirm") none (some 310)
        (under "id_it" (13 ∷ []))
    ∷ object "id_it_revPassphrase" (some "id-it-revPassphrase") none (some 309)
        (under "id_it" (12 ∷ []))
    ∷ object "id_it_keyPairParamRep" (some "id-it-keyPairParamRep") none (some 308)
        (under "id_it" (11 ∷ []))
    ∷ object "id_it_keyPairParamReq" (some "id-it-keyPairParamReq") none (some 307)
        (under "id_it" (10 ∷ []))
    ∷ object "id_it_subscriptionResponse" (some "id-it-subscriptionResponse") none (some 306)
        (under "id_it" (9 ∷ []))
    ∷ object "id_it_subscriptionRequest" (some "id-it-subscriptionRequest") none (some 305)
        (under "id_it" (8 ∷ []))
    ∷ object "id_it_unsupportedOIDs" (some "id-it-unsupportedOIDs") none (some 304)
        (under "id_it" (7 ∷ []))
    ∷ object "id_it_currentCRL" (some "id-it-currentCRL") none (some 303) (under "id_it" (6 ∷ []))
    ∷ object "id_it_caKeyUpdateInfo" (some "id-it-caKeyUpdateInfo") none (some 302)
        (under "id_it" (5 ∷ []))
    ∷ object "id_it_preferredSymmAlg" (some "id-it-preferredSymmAlg") none (some 301)
        (under "id_it" (4 ∷ []))
    ∷ object "id_it_encKeyPairTypes" (some "id-it-encKeyPairTypes") none (some 300)
        (under "id_it" (3 ∷ []))
    ∷ object "id_it_signKeyPairTypes" (some "id-it-signKeyPairTypes") none (some 299)
        (under "id_it" (2 ∷ []))
    ∷ []

unfoldable pub objects_12 : List Obj
objects_12 =
    object "ad_timeStamping" (some "ad_timestamping") (some "AD Time Stamping") (some 363)
      (under "id_ad" (3 ∷ []))
    ∷ object "ad_ca_issuers" (some "caIssuers") (some "CA Issuers") (some 179)
        (under "id_ad" (2 ∷ []))
    ∷ object "ad_OCSP" (some "OCSP") (some "OCSP") (some 178) (under "id_ad" (1 ∷ []))
    ∷ object "Independent" (some "id-ppl-independent") (some "Independent") (some 667)
        (under "id_ppl" (2 ∷ []))
    ∷ object "id_ppl_inheritAll" (some "id-ppl-inheritAll") (some "Inherit all") (some 665)
        (under "id_ppl" (1 ∷ []))
    ∷ object "id_ppl_anyLanguage" (some "id-ppl-anyLanguage") (some "Any language") (some 664)
        (under "id_ppl" (0 ∷ []))
    ∷ object "id_cct_PKIResponse" (some "id-cct-PKIResponse") none (some 362)
        (under "id_cct" (3 ∷ []))
    ∷ object "id_cct_PKIData" (some "id-cct-PKIData") none (some 361) (under "id_cct" (2 ∷ []))
    ∷ object "id_cct_crs" (some "id-cct-crs") none (some 360) (under "id_cct" (1 ∷ []))
    ∷ object "id_qcs_pkixQCSyntax_v1" (some "id-qcs-pkixQCSyntax-v1") none (some 359)
        (under "id_qcs" (1 ∷ []))
    ∷ object "id_aca_encAttrs" (some "id-aca-encAttrs") none (some 399) (under "id_aca" (6 ∷ []))
    ∷ object "id_aca_role" (some "id-aca-role") none (some 358) (under "id_aca" (5 ∷ []))
    ∷ object "id_aca_group" (some "id-aca-group") none (some 357) (under "id_aca" (4 ∷ []))
    ∷ object "id_aca_chargingIdentity" (some "id-aca-chargingIdentity") none (some 356)
        (under "id_aca" (3 ∷ []))
    ∷ object "id_aca_accessIdentity" (some "id-aca-accessIdentity") none (some 355)
        (under "id_aca" (2 ∷ []))
    ∷ object "id_aca_authenticationInfo" (some "id-aca-authenticationInfo") none (some 354)
        (under "id_aca" (1 ∷ []))
    ∷ object "id_pda_countryOfResidence" (some "id-pda-countryOfResidence") none (some 353)
        (under "id_pda" (5 ∷ []))
    ∷ object "id_pda_countryOfCitizenship" (some "id-pda-countryOfCitizenship") none (some 352)
        (under "id_pda" (4 ∷ []))
    ∷ object "id_pda_gender" (some "id-pda-gender") none (some 351) (under "id_pda" (3 ∷ []))
    ∷ object "id_pda_placeOfBirth" (some "id-pda-placeOfBirth") none (some 349)
        (under "id_pda" (2 ∷ []))
    ∷ object "id_pda_dateOfBirth" (some "id-pda-dateOfBirth") none (some 348)
        (under "id_pda" (1 ∷ []))
    ∷ object "id_on_permanentIdentifier" (some "id-on-permanentIdentifier")
        (some "Permanent Identifier") (some 858) (under "id_on" (3 ∷ []))
    ∷ object "id_on_personalData" (some "id-on-personalData") none (some 347)
        (under "id_on" (1 ∷ []))
    ∷ object "id_cmc_confirmCertAcceptance" (some "id-cmc-confirmCertAcceptance") none (some 346)
        (under "id_cmc" (24 ∷ []))
    ∷ object "id_cmc_popLinkWitness" (some "id-cmc-popLinkWitness") none (some 345)
        (under "id_cmc" (23 ∷ []))
    ∷ object "id_cmc_popLinkRandom" (some "id-cmc-popLinkRandom") none (some 344)
        (under "id_cmc" (22 ∷ []))
    ∷ object "id_cmc_queryPending" (some "id-cmc-queryPending") none (some 343)
        (under "id_cmc" (21 ∷ []))
    ∷ object "id_cmc_responseInfo" (some "id-cmc-responseInfo") none (some 342)
        (under "id_cmc" (19 ∷ []))
    ∷ object "id_cmc_regInfo" (some "id-cmc-regInfo") none (some 341) (under "id_cmc" (18 ∷ []))
    ∷ object "id_cmc_revokeRequest" (some "id-cmc-revokeRequest") none (some 340)
        (under "id_cmc" (17 ∷ []))
    ∷ object "id_cmc_getCRL" (some "id-cmc-getCRL") none (some 339) (under "id_cmc" (16 ∷ []))
    ∷ object "id_cmc_getCert" (some "id-cmc-getCert") none (some 338) (under "id_cmc" (15 ∷ []))
    ∷ object "id_cmc_lraPOPWitness" (some "id-cmc-lraPOPWitness") none (some 337)
        (under "id_cmc" (11 ∷ []))
    ∷ object "id_cmc_decryptedPOP" (some "id-cmc-decryptedPOP") none (some 336)
        (under "id_cmc" (10 ∷ []))
    ∷ object "id_cmc_encryptedPOP" (some "id-cmc-encryptedPOP") none (some 335)
        (under "id_cmc" (9 ∷ []))
    ∷ []
