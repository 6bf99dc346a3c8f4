-- ===== src/Tests/ClientReport.antt =====
-- controller/ClientRestController.java and mongod/ClientUserRepository.java: reports.
use logful_api.Base.{ℕ, ◌≡◌, refl, ◌&&◌, if◌then◌else◌, [], ◌∷◌, none, some}
use logful_api.Base.Int.{pos, eq_ℤ, ltb_ℤ}
use logful_api.StringUtil.{codes, equals}
use logful_api.CryptoTool.{is_empty, refused, aes_decrypt}
use logful_api.GlobalConfig.{handle_all}
use logful_api.GlobalConfig.Grants.{grants, specified_all}
use logful_api.ClientReport.{
  ClientUser, Users, same_text, find_user, find_by_uid_and_app_id, save_user, Payload, granted,
  decrypt_payload, client_user_report,
}
use logful_api.ClientReport.Found.{AreUnique, find-save_user}
use logful_api.ClientReport.Granted.{IsFilled, report-handle_all}
use logful_api.ClientReport.Replies.{IsReported, client_user_report-IsReported}
use logful_api.Tests.Encrypted.{padding, encrypt}
use logful_api.Tests.GlobalConfig.{clients, requests, no_config}

abbrev user : ClientUser ℕ
user = record {
  platform = pos 1;
  client_id = none;
  uid = some (codes "u");
  app_id = some (codes "app");
  level = pos 3;
  rest = 1;
}

-- The same user on another platform.
abbrev users : Users ℕ
users = record {
  docs = record { id = 1; user = record user { platform = pos 2 } } ∷ [];
  next_id = 2;
}

abbrev pub payload : Payload
payload = record {
  sdk_version = codes "1";
  signature = codes "s";
  chunk = encrypt [] (codes "user");
}

decrypts : decrypt_payload padding some payload.signature payload.chunk ≡ some (codes "user")
unfolding decrypt_payload aes_decrypt refused equals
decrypts = refl

filled : IsFilled payload
unfolding is_empty
filled = (refl, refl, refl)

report-handle_all_example :
    client_user_report padding some
      (λ t. some user)
      (some (codes "b"))
      (handle_all (λ ts. ts) clients requests no_config)
      (some payload)
      users
    ≡ (
      save_user (record user { client_id = some (codes "b") }) users,
      granted (
          (specified_all clients requests (grants no_config)).granted (codes "b")
          && ltb_ℤ user.level (specified_all clients requests (grants no_config)).level),
    )
report-handle_all_example =
    report-handle_all (λ ts. ts) clients (λ t ts. refl) padding some (λ t. some user) requests
      no_config payload users b'b' [] tt filled decrypts refl

client_user_report-IsReported_example :
    IsReported padding some
      (λ t. some user)
      none
      no_config
      (some payload)
      users
      (client_user_report padding some (λ t. some user) none no_config (some payload) users)
client_user_report-IsReported_example =
    client_user_report-IsReported padding some (λ t. some user) none no_config (some payload) users

find-save_user_example :
    (find_by_uid_and_app_id (pos 2) (some (codes "u")) (some (codes "app")) (save_user user users)
      ≡ (if same_text user.uid (some (codes "u")) && same_text user.app_id (some (codes "app"))
          then if eq_ℤ user.platform (pos 2) then some user else none
          else find_by_uid_and_app_id (pos 2) (some (codes "u")) (some (codes "app")) users))
    × AreUnique (save_user user users).docs
unfolding find_user
find-save_user_example =
    find-save_user (pos 2) (some (codes "u")) (some (codes "app")) user users (refl, tt)
