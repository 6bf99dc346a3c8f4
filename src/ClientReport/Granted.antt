-- ===== src/ClientReport/Granted.antt =====
-- controller/ClientRestController.java with mongod/GlobalConfigRepository.java: whether a client is
-- granted to upload, after requests on the grants.
use logful_api.Base.{ℕ, ◌≡◌, ap, false, ◌&&◌, List, ◌∷◌, Option, some}
use logful_api.Base.Int.{ltb_ℤ}
use logful_api.StringUtil.{Text}
use logful_api.ByteUtil.{Bytes}
use logful_api.CryptoTool.{Primitives, is_empty}
use logful_api.Auth.Clients.{Clients}
use logful_api.GlobalConfig.{Configs, Request, contains, handle_all}
use logful_api.GlobalConfig.Grants.{Grants, grants, specified_all, IsSingle, grants-handle_all}
use logful_api.ClientReport.{
  ClientUser, Users, save_user, v1_client_user_report, Payload, granted, decrypt_payload,
  client_user_report,
}

-- No field is empty.
abbrev pub IsFilled : Payload → Type 0
IsFilled p =
    (is_empty p.sdk_version ≡ false) × (is_empty p.signature ≡ false) × (is_empty p.chunk ≡ false)

module _ {K T D : Type 0} (in_order : List Text → List Text) (clients : Clients K T)
    (same : (t : Text) (ts : List Text) → contains t (in_order ts) ≡ contains t ts) where
  -- From a database with at most one config, which has an id, where a HashSet's order neither adds
  -- nor drops a text: after any requests on the level and the grants, a report that has its fields
  -- and of which a user is read, by a client that is known, saves the user and is answered with
  -- granted exactly if by the requests' specification the client is granted and the level is above
  -- that of its user.
  pub report-handle_all :
      (prim : Primitives) (decrypt_signature : Bytes → Option Bytes)
      (read_user : Text → Option (ClientUser D)) (rs : List Request) (s : Configs) (p : Payload)
      (users : Users D) (c : ℕ) (id : Text) {d : ℕ} {t : Text} {u : ClientUser D}
      → IsSingle s.docs
      → IsFilled p
      → decrypt_payload prim decrypt_signature p.signature p.chunk ≡ some (d ∷ t)
      → read_user (d ∷ t) ≡ some u
      → client_user_report prim decrypt_signature read_user
          (some (c ∷ id))
          (handle_all in_order clients rs s)
          (some p)
          users
        ≡ (
          save_user (record u { client_id = some (c ∷ id) }) users,
          granted (
              (specified_all clients rs (grants s)).granted (c ∷ id)
              && ltb_ℤ u.level (specified_all clients rs (grants s)).level),
        )
  unfolding client_user_report v1_client_user_report
  report-handle_all prim decrypt_signature read_user rs s p users c id {u = u} h (i, j, k) e f =
      rw (client_user_report, i, j, k, e, f)
        (ap
          (λ (g : Grants). (
            save_user (record u { client_id = some (c ∷ id) }) users,
            granted (g.granted (c ∷ id) && ltb_ℤ u.level g.level),
          ))
          (grants-handle_all in_order clients same rs s h).0)
