-- ===== src/ClientReport/Replies.antt =====
-- controller/ClientRestController.java: `clientUserReport` on every branch.
use logful_api.Base.{◌≡◌, refl, Option, none, some, [], ◌∷◌, Bool, if◌then◌else◌, if-cases}
use logful_api.ByteUtil.{Bytes}
use logful_api.StringUtil.{Text}
use logful_api.CryptoTool.{Primitives, is_empty}
use logful_api.GlobalConfig.{Configs}
use logful_api.ClientReport.{
  ClientUser, Users, save_user, Payload, Reply, granted, bad_request, internal_server_error,
  bad_json, decrypt_payload, report_as, on_user, on_content, client_user_report,
  v1_client_user_report,
}

module _ {D : Type 0} (prim : Primitives) (decrypt_signature : Bytes → Option Bytes)
    (read_user : Text → Option (ClientUser D)) (client_id : Option Text) (configs : Configs) where
  abbrev decrypted : Payload → Option Text
  decrypted p = decrypt_payload prim decrypt_signature p.signature p.chunk

  -- The user that is read of the content is saved as that client's, or nothing is.
  abbrev Saves : Option Text → Users D → Users D × Reply → Type 0
  Saves content s (s', granted b) =
      (t : Text) × (u : ClientUser D) × (id : Text) × (content ≡ some t)
      × (read_user t ≡ some u)
      × (client_id ≡ some id)
      × (s' ≡ save_user (record u { client_id = some id }) s)
  Saves content s (s', bad_request) = s' ≡ s
  Saves content s (s', internal_server_error) = s' ≡ s
  Saves content s (s', bad_json) = s' ≡ s

  abbrev content_of : Option Payload → Option Text
  content_of none = none
  content_of (some p) = decrypted p

  abbrev pub IsReported : Option Payload → Users D → Users D × Reply → Type 0
  IsReported p s r = Saves (content_of p) s r

  report_as-Saves :
      (t : Text) (u : ClientUser D) (c : Option Text) (s : Users D)
      → read_user t ≡ some u
      → client_id ≡ c
      → Saves (some t) s (report_as prim decrypt_signature read_user client_id configs u c s)
  unfolding v1_client_user_report
  report_as-Saves t u none s h e = refl
  report_as-Saves t u (some []) s h e = refl
  report_as-Saves t u (some (c ∷ id)) s h e = (t, u, c ∷ id, refl, h, e, refl)

  on_user-Saves :
      (t : Text) (o : Option (ClientUser D)) (s : Users D)
      → read_user t ≡ o
      → Saves (some t) s (on_user prim decrypt_signature read_user client_id configs o s)
  on_user-Saves t none s h = refl
  on_user-Saves t (some u) s h = report_as-Saves t u client_id s h refl

  on_content-Saves :
      (o : Option Text) (s : Users D)
      → Saves o s (on_content prim decrypt_signature read_user client_id configs o s)
  on_content-Saves none s = refl
  on_content-Saves (some []) s = refl
  on_content-Saves (some (c ∷ t)) s = on_user-Saves (c ∷ t) (read_user (c ∷ t)) s refl

  Saves-if :
      (b : Bool) (o : Option Text) (s : Users D) (r : Users D × Reply)
      → Saves o s r
      → Saves o s (if b then (s, bad_request) else r)
  Saves-if b o s r h = if-cases (λ (x : Users D × Reply). Saves o s x) b (λ e. refl) (λ e. h)

  -- On every branch of a report: it is answered with granted or not, and the user that is read of
  -- the decrypted payload is saved with the id of the client that reports; or the answer is an error,
  -- and nothing is saved.
  pub client_user_report-IsReported :
      (p : Option Payload) (s : Users D)
      → IsReported p s (client_user_report prim decrypt_signature read_user client_id configs p s)
  unfolding client_user_report
  client_user_report-IsReported none s = refl
  client_user_report-IsReported (some p) s =
      let o = decrypted p in
      Saves-if (is_empty p.sdk_version) o s _ (
        Saves-if (is_empty p.signature) o s _
          (Saves-if (is_empty p.chunk) o s _ (on_content-Saves o s)))
