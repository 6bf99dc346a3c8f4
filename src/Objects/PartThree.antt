-- ===== src/Objects/PartThree.antt =====
-- native/include/openssl/obj_mac.h, lines 664 to 961. The newest object of a list is the last of the lines.
use logful_api.Base.{List, [], ◌∷◌, none, some}
use logful_api.Objects.Defs.{Obj, object, under}

unfoldable pub objects_5 : List Obj
objects_5 =
    object "id_smime_mod_ets_eSigPolicy_97" (some "id-smime-mod-ets-eSigPolicy-97") none (some 203)
      (under "id_smime_mod" (8 ∷ []))
    ∷ object "id_smime_mod_ets_eSigPolicy_88" (some "id-smime-mod-ets-eSigPolicy-88") none
        (some 202) (under "id_smime_mod" (7 ∷ []))
    ∷ object "id_smime_mod_ets_eSignature_97" (some "id-smime-mod-ets-eSignature-97") none
        (some 201) (under "id_smime_mod" (6 ∷ []))
    ∷ object "id_smime_mod_ets_eSignature_88" (some "id-smime-mod-ets-eSignature-88") none
        (some 200) (under "id_smime_mod" (5 ∷ []))
    ∷ object "id_smime_mod_msg_v3" (some "id-smime-mod-msg-v3") none (some 199)
        (under "id_smime_mod" (4 ∷ []))
    ∷ object "id_smime_mod_oid" (some "id-smime-mod-oid") none (some 198)
        (under "id_smime_mod" (3 ∷ []))
    ∷ object "id_smime_mod_ess" (some "id-smime-mod-ess") none (some 197)
        (under "id_smime_mod" (2 ∷ []))
    ∷ object "id_smime_mod_cms" (some "id-smime-mod-cms") none (some 196)
        (under "id_smime_mod" (1 ∷ []))
    ∷ object "id_smime_cti" (some "id-smime-cti") none (some 195) (under "SMIME" (6 ∷ []))
    ∷ object "id_smime_spq" (some "id-smime-spq") none (some 194) (under "SMIME" (5 ∷ []))
    ∷ object "id_smime_cd" (some "id-smime-cd") none (some 193) (under "SMIME" (4 ∷ []))
    ∷ object "id_smime_alg" (some "id-smime-alg") none (some 192) (under "SMIME" (3 ∷ []))
    ∷ object "id_smime_aa" (some "id-smime-aa") none (some 191) (under "SMIME" (2 ∷ []))
    ∷ object "id_smime_ct" (some "id-smime-ct") none (some 190) (under "SMIME" (1 ∷ []))
    ∷ object "id_smime_mod" (some "id-smime-mod") none (some 189) (under "SMIME" (0 ∷ []))
    ∷ object "SMIME" (some "SMIME") (some "S/MIME") (some 188) (under "pkcs9" (16 ∷ []))
    ∷ object "SMIMECapabilities" (some "SMIME-CAPS") (some "S/MIME Capabilities") (some 167)
        (under "pkcs9" (15 ∷ []))
    ∷ object "ext_req" (some "extReq") (some "Extension Request") (some 172)
        (under "pkcs9" (14 ∷ []))
    ∷ object "pkcs9_extCertAttributes" none (some "extendedCertificateAttributes") (some 56)
        (under "pkcs9" (9 ∷ []))
    ∷ object "pkcs9_unstructuredAddress" none (some "unstructuredAddress") (some 55)
        (under "pkcs9" (8 ∷ []))
    ∷ object "pkcs9_challengePassword" none (some "challengePassword") (some 54)
        (under "pkcs9" (7 ∷ []))
    ∷ object "pkcs9_countersignature" none (some "countersignature") (some 53)
        (under "pkcs9" (6 ∷ []))
    ∷ object "pkcs9_signingTime" none (some "signingTime") (some 52) (under "pkcs9" (5 ∷ []))
    ∷ object "pkcs9_messageDigest" none (some "messageDigest") (some 51) (under "pkcs9" (4 ∷ []))
    ∷ object "pkcs9_contentType" none (some "contentType") (some 50) (under "pkcs9" (3 ∷ []))
    ∷ object "pkcs9_unstructuredName" none (some "unstructuredName") (some 49)
        (under "pkcs9" (2 ∷ []))
    ∷ object "pkcs9_emailAddress" none (some "emailAddress") (some 48) (under "pkcs9" (1 ∷ []))
    ∷ object "pkcs9" (some "pkcs9") none (some 47) (under "pkcs" (9 ∷ []))
    ∷ object "pkcs7_encrypted" none (some "pkcs7-encryptedData") (some 26) (under "pkcs7" (6 ∷ []))
    ∷ object "pkcs7_digest" none (some "pkcs7-digestData") (some 25) (under "pkcs7" (5 ∷ []))
    ∷ object "pkcs7_signedAndEnveloped" none (some "pkcs7-signedAndEnvelopedData") (some 24)
        (under "pkcs7" (4 ∷ []))
    ∷ object "pkcs7_enveloped" none (some "pkcs7-envelopedData") (some 23) (under "pkcs7" (3 ∷ []))
    ∷ object "pkcs7_signed" none (some "pkcs7-signedData") (some 22) (under "pkcs7" (2 ∷ []))
    ∷ object "pkcs7_data" none (some "pkcs7-data") (some 21) (under "pkcs7" (1 ∷ []))
    ∷ object "pkcs7" (some "pkcs7") none (some 20) (under "pkcs" (7 ∷ []))
    ∷ object "pbmac1" none (some "PBMAC1") (some 162) (under "pkcs5" (14 ∷ []))
    ∷ object "pbes2" none (some "PBES2") (some 161) (under "pkcs5" (13 ∷ []))
    ∷ []

unfoldable pub objects_6 : List Obj
objects_6 =
    object "id_smime_aa_ets_archiveTimeStamp" (some "id-smime-aa-ets-archiveTimeStamp") none
      (some 238) (under "id_smime_aa" (27 ∷ []))
    ∷ object "id_smime_aa_ets_certCRLTimestamp" (some "id-smime-aa-ets-certCRLTimestamp") none
        (some 237) (under "id_smime_aa" (26 ∷ []))
    ∷ object "id_smime_aa_ets_escTimeStamp" (some "id-smime-aa-ets-escTimeStamp") none (some 236)
        (under "id_smime_aa" (25 ∷ []))
    ∷ object "id_smime_aa_ets_revocationValues" (some "id-smime-aa-ets-revocationValues") none
        (some 235) (under "id_smime_aa" (24 ∷ []))
    ∷ object "id_smime_aa_ets_certValues" (some "id-smime-aa-ets-certValues") none (some 234)
        (under "id_smime_aa" (23 ∷ []))
    ∷ object "id_smime_aa_ets_RevocationRefs" (some "id-smime-aa-ets-RevocationRefs") none
        (some 233) (under "id_smime_aa" (22 ∷ []))
    ∷ object "id_smime_aa_ets_CertificateRefs" (some "id-smime-aa-ets-CertificateRefs") none
        (some 232) (under "id_smime_aa" (21 ∷ []))
    ∷ object "id_smime_aa_ets_contentTimestamp" (some "id-smime-aa-ets-contentTimestamp") none
        (some 231) (under "id_smime_aa" (20 ∷ []))
    ∷ object "id_smime_aa_ets_otherSigCert" (some "id-smime-aa-ets-otherSigCert") none (some 230)
        (under "id_smime_aa" (19 ∷ []))
    ∷ object "id_smime_aa_ets_signerAttr" (some "id-smime-aa-ets-signerAttr") none (some 229)
        (under "id_smime_aa" (18 ∷ []))
    ∷ object "id_smime_aa_ets_signerLocation" (some "id-smime-aa-ets-signerLocation") none
        (some 228) (under "id_smime_aa" (17 ∷ []))
    ∷ object "id_smime_aa_ets_commitmentType" (some "id-smime-aa-ets-commitmentType") none
        (some 227) (under "id_smime_aa" (16 ∷ []))
    ∷ object "id_smime_aa_ets_sigPolicyId" (some "id-smime-aa-ets-sigPolicyId") none (some 226)
        (under "id_smime_aa" (15 ∷ []))
    ∷ object "id_smime_aa_timeStampToken" (some "id-smime-aa-timeStampToken") none (some 225)
        (under "id_smime_aa" (14 ∷ []))
    ∷ object "id_smime_aa_smimeEncryptCerts" (some "id-smime-aa-smimeEncryptCerts") none (some 224)
        (under "id_smime_aa" (13 ∷ []))
    ∷ object "id_smime_aa_signingCertificate" (some "id-smime-aa-signingCertificate") none
        (some 223) (under "id_smime_aa" (12 ∷ []))
    ∷ object "id_smime_aa_encrypKeyPref" (some "id-smime-aa-encrypKeyPref") none (some 222)
        (under "id_smime_aa" (11 ∷ []))
    ∷ object "id_smime_aa_contentReference" (some "id-smime-aa-contentReference") none (some 221)
        (under "id_smime_aa" (10 ∷ []))
    ∷ object "id_smime_aa_equivalentLabels" (some "id-smime-aa-equivalentLabels") none (some 220)
        (under "id_smime_aa" (9 ∷ []))
    ∷ object "id_smime_aa_macValue" (some "id-smime-aa-macValue") none (some 219)
        (under "id_smime_aa" (8 ∷ []))
    ∷ object "id_smime_aa_contentIdentifier" (some "id-smime-aa-contentIdentifier") none (some 218)
        (under "id_smime_aa" (7 ∷ []))
    ∷ object "id_smime_aa_encapContentType" (some "id-smime-aa-encapContentType") none (some 217)
        (under "id_smime_aa" (6 ∷ []))
    ∷ object "id_smime_aa_msgSigDigest" (some "id-smime-aa-msgSigDigest") none (some 216)
        (under "id_smime_aa" (5 ∷ []))
    ∷ object "id_smime_aa_contentHint" (some "id-smime-aa-contentHint") none (some 215)
        (under "id_smime_aa" (4 ∷ []))
    ∷ object "id_smime_aa_mlExpandHistory" (some "id-smime-aa-mlExpandHistory") none (some 214)
        (under "id_smime_aa" (3 ∷ []))
    ∷ object "id_smime_aa_securityLabel" (some "id-smime-aa-securityLabel") none (some 213)
        (under "id_smime_aa" (2 ∷ []))
    ∷ object "id_smime_aa_receiptRequest" (some "id-smime-aa-receiptRequest") none (some 212)
        (under "id_smime_aa" (1 ∷ []))
    ∷ object "id_ct_asciiTextWithCRLF" (some "id-ct-asciiTextWithCRLF") none (some 787)
        (under "id_smime_ct" (27 ∷ []))
    ∷ object "id_smime_ct_compressedData" (some "id-smime-ct-compressedData") none (some 786)
        (under "id_smime_ct" (9 ∷ []))
    ∷ object "id_smime_ct_DVCSResponseData" (some "id-smime-ct-DVCSResponseData") none (some 211)
        (under "id_smime_ct" (8 ∷ []))
    ∷ object "id_smime_ct_DVCSRequestData" (some "id-smime-ct-DVCSRequestData") none (some 210)
        (under "id_smime_ct" (7 ∷ []))
    ∷ object "id_smime_ct_contentInfo" (some "id-smime-ct-contentInfo") none (some 209)
        (under "id_smime_ct" (6 ∷ []))
    ∷ object "id_smime_ct_TDTInfo" (some "id-smime-ct-TDTInfo") none (some 208)
        (under "id_smime_ct" (5 ∷ []))
    ∷ object "id_smime_ct_TSTInfo" (some "id-smime-ct-TSTInfo") none (some 207)
        (under "id_smime_ct" (4 ∷ []))
    ∷ object "id_smime_ct_publishCert" (some "id-smime-ct-publishCert") none (some 206)
        (under "id_smime_ct" (3 ∷ []))
    ∷ object "id_smime_ct_authData" (some "id-smime-ct-authData") none (some 205)
        (under "id_smime_ct" (2 ∷ []))
    ∷ object "id_smime_ct_receipt" (some "id-smime-ct-receipt") none (some 204)
        (under "id_smime_ct" (1 ∷ []))
    ∷ []
