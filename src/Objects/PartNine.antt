-- ===== src/Objects/PartNine.antt =====
-- native/include/openssl/obj_mac.h, lines 2446 to 2741. The newest object of a list is the last of the lines.
use logful_api.Base.{List, [], ◌∷◌, none, some}
use logful_api.Objects.Defs.{Obj, object, no_oid, root, under}

unfoldable pub objects_17 : List Obj
objects_17 =
    object "aes" none none none (under "nistAlgorithms" (1 ∷ []))
    ∷ object "nistAlgorithms" none none none (under "csor" (4 ∷ []))
    ∷ object "csor" none none none (root (2 ∷ 16 ∷ 840 ∷ 1 ∷ 101 ∷ 3 ∷ []))
    ∷ object "zlib_compression" (some "ZLIB") (some "zlib compression") (some 125)
        (under "id_smime_alg" (8 ∷ []))
    ∷ object "rle_compression" (some "RLE") (some "run length compression") (some 124)
        (root (1 ∷ 1 ∷ 1 ∷ 1 ∷ 666 ∷ 1 ∷ []))
    ∷ object "id_hex_multipart_message" (some "id-hex-multipart-message")
        (some "id-hex-multipart-message") (some 508) (under "mime_mhs_headings" (2 ∷ []))
    ∷ object "id_hex_partial_message" (some "id-hex-partial-message")
        (some "id-hex-partial-message") (some 507) (under "mime_mhs_headings" (1 ∷ []))
    ∷ object "mime_mhs_bodies" (some "mime-mhs-bodies") (some "mime-mhs-bodies") (some 506)
        (under "mime_mhs" (2 ∷ []))
    ∷ object "mime_mhs_headings" (some "mime-mhs-headings") (some "mime-mhs-headings") (some 505)
        (under "mime_mhs" (1 ∷ []))
    ∷ object "mime_mhs" (some "mime-mhs") (some "MIME MHS") (some 504) (under "Mail" (1 ∷ []))
    ∷ object "dcObject" (some "dcobject") (some "dcObject") (some 390)
        (under "Enterprises" (1466 ∷ 344 ∷ []))
    ∷ object "Enterprises" (some "enterprises") (some "Enterprises") (some 389)
        (under "Private" (1 ∷ []))
    ∷ object "Mail" none (some "Mail") (some 388) (under "internet" (7 ∷ []))
    ∷ object "SNMPv2" (some "snmpv2") (some "SNMPv2") (some 387) (under "internet" (6 ∷ []))
    ∷ object "Security" (some "security") (some "Security") (some 386) (under "internet" (5 ∷ []))
    ∷ object "Private" (some "private") (some "Private") (some 385) (under "internet" (4 ∷ []))
    ∷ object "Experimental" (some "experimental") (some "Experimental") (some 384)
        (under "internet" (3 ∷ []))
    ∷ object "Management" (some "mgmt") (some "Management") (some 383) (under "internet" (2 ∷ []))
    ∷ object "Directory" (some "directory") (some "Directory") (some 382)
        (under "internet" (1 ∷ []))
    ∷ object "internet" none none none (under "iana" [])
    ∷ object "iana" (some "IANA") (some "iana") (some 381) (under "dod" (1 ∷ []))
    ∷ object "dod" (some "DOD") (some "dod") (some 380) (under "org" (6 ∷ []))
    ∷ object "org" (some "ORG") (some "org") (some 379) (under "iso" (3 ∷ []))
    ∷ object "ns_sgc" (some "nsSGC") (some "Netscape Server Gated Crypto") (some 139)
        (under "netscape" (4 ∷ 1 ∷ []))
    ∷ object "netscape_cert_sequence" (some "nsCertSequence") (some "Netscape Certificate Sequence")
        (some 79) (under "netscape_data_type" (5 ∷ []))
    ∷ object "netscape_comment" (some "nsComment") (some "Netscape Comment") (some 78)
        (under "netscape_cert_extension" (13 ∷ []))
    ∷ object "netscape_ssl_server_name" (some "nsSslServerName") (some "Netscape SSL Server Name")
        (some 77) (under "netscape_cert_extension" (12 ∷ []))
    ∷ object "netscape_ca_policy_url" (some "nsCaPolicyUrl") (some "Netscape CA Policy Url")
        (some 76) (under "netscape_cert_extension" (8 ∷ []))
    ∷ object "netscape_renewal_url" (some "nsRenewalUrl") (some "Netscape Renewal Url") (some 75)
        (under "netscape_cert_extension" (7 ∷ []))
    ∷ object "netscape_ca_revocation_url" (some "nsCaRevocationUrl")
        (some "Netscape CA Revocation Url") (some 74) (under "netscape_cert_extension" (4 ∷ []))
    ∷ object "netscape_revocation_url" (some "nsRevocationUrl") (some "Netscape Revocation Url")
        (some 73) (under "netscape_cert_extension" (3 ∷ []))
    ∷ object "netscape_base_url" (some "nsBaseUrl") (some "Netscape Base Url") (some 72)
        (under "netscape_cert_extension" (2 ∷ []))
    ∷ []

unfoldable pub objects_18 : List Obj
objects_18 =
    object "aes_256_ctr" (some "AES-256-CTR") (some "aes-256-ctr") (some 906) no_oid
    ∷ object "aes_192_ctr" (some "AES-192-CTR") (some "aes-192-ctr") (some 905) no_oid
    ∷ object "aes_128_ctr" (some "AES-128-CTR") (some "aes-128-ctr") (some 904) no_oid
    ∷ object "aes_256_cfb8" (some "AES-256-CFB8") (some "aes-256-cfb8") (some 655) no_oid
    ∷ object "aes_192_cfb8" (some "AES-192-CFB8") (some "aes-192-cfb8") (some 654) no_oid
    ∷ object "aes_128_cfb8" (some "AES-128-CFB8") (some "aes-128-cfb8") (some 653) no_oid
    ∷ object "aes_256_cfb1" (some "AES-256-CFB1") (some "aes-256-cfb1") (some 652) no_oid
    ∷ object "aes_192_cfb1" (some "AES-192-CFB1") (some "aes-192-cfb1") (some 651) no_oid
    ∷ object "aes_128_cfb1" (some "AES-128-CFB1") (some "aes-128-cfb1") (some 650) no_oid
    ∷ object "id_aes256_wrap_pad" (some "id-aes256-wrap-pad") none (some 903)
        (under "aes" (48 ∷ []))
    ∷ object "aes_256_ccm" (some "id-aes256-CCM") (some "aes-256-ccm") (some 902)
        (under "aes" (47 ∷ []))
    ∷ object "aes_256_gcm" (some "id-aes256-GCM") (some "aes-256-gcm") (some 901)
        (under "aes" (46 ∷ []))
    ∷ object "id_aes256_wrap" (some "id-aes256-wrap") none (some 790) (under "aes" (45 ∷ []))
    ∷ object "aes_256_cfb128" (some "AES-256-CFB") (some "aes-256-cfb") (some 429)
        (under "aes" (44 ∷ []))
    ∷ object "aes_256_ofb128" (some "AES-256-OFB") (some "aes-256-ofb") (some 428)
        (under "aes" (43 ∷ []))
    ∷ object "aes_256_cbc" (some "AES-256-CBC") (some "aes-256-cbc") (some 427)
        (under "aes" (42 ∷ []))
    ∷ object "aes_256_ecb" (some "AES-256-ECB") (some "aes-256-ecb") (some 426)
        (under "aes" (41 ∷ []))
    ∷ object "id_aes192_wrap_pad" (some "id-aes192-wrap-pad") none (some 900)
        (under "aes" (28 ∷ []))
    ∷ object "aes_192_ccm" (some "id-aes192-CCM") (some "aes-192-ccm") (some 899)
        (under "aes" (27 ∷ []))
    ∷ object "aes_192_gcm" (some "id-aes192-GCM") (some "aes-192-gcm") (some 898)
        (under "aes" (26 ∷ []))
    ∷ object "id_aes192_wrap" (some "id-aes192-wrap") none (some 789) (under "aes" (25 ∷ []))
    ∷ object "aes_192_cfb128" (some "AES-192-CFB") (some "aes-192-cfb") (some 425)
        (under "aes" (24 ∷ []))
    ∷ object "aes_192_ofb128" (some "AES-192-OFB") (some "aes-192-ofb") (some 424)
        (under "aes" (23 ∷ []))
    ∷ object "aes_192_cbc" (some "AES-192-CBC") (some "aes-192-cbc") (some 423)
        (under "aes" (22 ∷ []))
    ∷ object "aes_192_ecb" (some "AES-192-ECB") (some "aes-192-ecb") (some 422)
        (under "aes" (21 ∷ []))
    ∷ object "id_aes128_wrap_pad" (some "id-aes128-wrap-pad") none (some 897) (under "aes" (8 ∷ []))
    ∷ object "aes_128_ccm" (some "id-aes128-CCM") (some "aes-128-ccm") (some 896)
        (under "aes" (7 ∷ []))
    ∷ object "aes_128_gcm" (some "id-aes128-GCM") (some "aes-128-gcm") (some 895)
        (under "aes" (6 ∷ []))
    ∷ object "id_aes128_wrap" (some "id-aes128-wrap") none (some 788) (under "aes" (5 ∷ []))
    ∷ object "aes_128_cfb128" (some "AES-128-CFB") (some "aes-128-cfb") (some 421)
        (under "aes" (4 ∷ []))
    ∷ object "aes_128_ofb128" (some "AES-128-OFB") (some "aes-128-ofb") (some 420)
        (under "aes" (3 ∷ []))
    ∷ object "aes_128_cbc" (some "AES-128-CBC") (some "aes-128-cbc") (some 419)
        (under "aes" (2 ∷ []))
    ∷ object "aes_128_ecb" (some "AES-128-ECB") (some "aes-128-ecb") (some 418)
        (under "aes" (1 ∷ []))
    ∷ []
