-- ===== src/ClientReport.antt =====
-- mongod/ClientUserRepository.java and `clientUserReport` of controller/ClientRestController.java: what
-- a client reports of its user, and whether it is granted to upload.
--
-- The payload is what JSONObject reads of it, and `read_user` is Jackson's reader of a ClientUser,
-- none where it throws or gives null. `decrypt_signature` is the manager's decryption by the client's
-- private key. The fields of a user that nothing here reads are the parameter D.
pub mod Found
pub mod Granted
pub mod Replies
use logful_api.Base.{
  ℕ, suc, Bool, true, false, ◌&&◌, List, [], ◌∷◌, Option, none, some, if◌then◌else◌,
}
use logful_api.Base.Int.{ℤ, eq_ℤ, ltb_ℤ}
use logful_api.ByteUtil.{Bytes}
use logful_api.StringUtil.{Text, equals}
use logful_api.CryptoTool.{Primitives, is_empty, aes_decrypt}
use logful_api.GlobalConfig.{Configs, contains, read_config}

pub record ClientUser (D : Type 0) : Type 0 where
  pub platform : ℤ
  pub client_id : Option Text
  pub uid : Option Text
  pub app_id : Option Text
  pub level : ℤ
  pub rest : D

-- A document with its id, and the collection.
pub record UserDoc (D : Type 0) : Type 0 where
  pub id : ℕ
  pub user : ClientUser D

pub record Users (D : Type 0) : Type 0 where
  pub docs : List (UserDoc D)
  pub next_id : ℕ

-- `Criteria.is` on a text that may be null or missing.
abbrev pub same_text : Option Text → Option Text → Bool
same_text none none = true
same_text none (some t) = false
same_text (some s) none = false
same_text (some s) (some t) = equals s t

module _ {D : Type 0} where
  abbrev pub is_of : Option Text → Option Text → UserDoc D → Bool
  is_of uid app_id d = same_text d.user.uid uid && same_text d.user.app_id app_id

  unfoldable pub find_user : (UserDoc D → Bool) → List (UserDoc D) → Option (ClientUser D)
  find_user p [] = none
  find_user p (d ∷ ds) = if p d then some d.user else find_user p ds

  unfoldable pub find_by_uid_and_app_id :
      ℤ → Option Text → Option Text → Users D → Option (ClientUser D)
  unfolding find_user
  find_by_uid_and_app_id platform uid app_id s =
      find_user (λ d. eq_ℤ d.user.platform platform && is_of uid app_id d) s.docs

  -- `save`: the first user of that uid and that application is written over, whatever its platform,
  -- and else the user is new.
  unfoldable pub upsert : ℕ → ClientUser D → List (UserDoc D) → List (UserDoc D)
  upsert n u [] = record { id = n; user = u } ∷ []
  upsert n u (d ∷ ds) =
      let rest = upsert n u ds in
      if is_of u.uid u.app_id d
      then record d { user = record u { uid = d.user.uid; app_id = d.user.app_id } } ∷ ds
      else d ∷ rest

  unfoldable pub save_user : ClientUser D → Users D → Users D
  unfolding upsert
  save_user u s = record { docs = upsert s.next_id u s.docs; next_id = suc s.next_id }

  -- `v1ClientUserReport`, for a user whose client is known; the answer is `granted`.
  unfoldable pub v1_client_user_report : Text → ClientUser D → Configs → Users D → Users D × Bool
  unfolding save_user contains
  v1_client_user_report client_id u configs s =
      let config = read_config configs.docs in
      (save_user u s, contains client_id config.grant_clients && ltb_ℤ u.level config.level)

-- The payload's fields, none where it is no JSON; `optString` gives an empty text for a field that is
-- missing.
pub record Payload : Type 0 where
  pub sdk_version : Text
  pub signature : Text
  pub chunk : Text

pub data Reply : Type 0 where
  granted : Bool → Reply
  bad_request : Reply
  internal_server_error : Reply
  bad_json : Reply

module _ (prim : Primitives) (decrypt_signature : Bytes → Option Bytes) where
  abbrev pub decrypt_chunk : Text → Option Bytes → Option Text
  decrypt_chunk chunk none = none
  decrypt_chunk chunk (some security) =
      aes_decrypt prim (some security) (some (prim.decode_base64 chunk))

  -- `decryptPayload`
  unfoldable pub decrypt_payload : Text → Text → Option Text
  unfolding aes_decrypt
  decrypt_payload signature chunk =
      decrypt_chunk chunk (decrypt_signature (prim.decode_base64 signature))

module _ {D : Type 0} (prim : Primitives) (decrypt_signature : Bytes → Option Bytes)
    (read_user : Text → Option (ClientUser D)) (client_id : Option Text) (configs : Configs) where
  abbrev report_as : ClientUser D → Option Text → Users D → Users D × Reply
  report_as u none s = (s, internal_server_error)
  report_as u (some []) s = (s, internal_server_error)
  report_as u (some (c ∷ id)) s =
      let (s', b) =
        v1_client_user_report (c ∷ id) (record u { client_id = some (c ∷ id) }) configs s in
      (s', granted b)

  abbrev on_user : Option (ClientUser D) → Users D → Users D × Reply
  on_user none s = (s, bad_request)
  on_user (some u) s = report_as u client_id s

  abbrev on_content : Option Text → Users D → Users D × Reply
  on_content none s = (s, bad_request)
  on_content (some []) s = (s, bad_request)
  on_content (some (c ∷ t)) s = on_user (read_user (c ∷ t)) s

  unfoldable pub client_user_report : Option Payload → Users D → Users D × Reply
  unfolding v1_client_user_report decrypt_payload is_empty
  client_user_report none s = (s, bad_json)
  client_user_report (some p) s =
      if is_empty p.sdk_version
      then (s, bad_request)
      else if is_empty p.signature
      then (s, bad_request)
      else if is_empty p.chunk
      then (s, bad_request)
      else on_content (decrypt_payload prim decrypt_signature p.signature p.chunk) s
