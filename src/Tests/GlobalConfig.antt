-- ===== src/Tests/GlobalConfig.antt =====
-- mongod/GlobalConfigRepository.java and rest/SystemRestController.java: a grant that is replaced by
-- one of the client whose grant is taken back.
use logful_api.Base.{ℕ, ◌≡◌, refl, false, true, List, [], ◌∷◌, none, some}
use logful_api.Base.Int.{pos}
use logful_api.StringUtil.{codes, equals}
use logful_api.Auth.Documents.{find_all}
use logful_api.Auth.Clients.{Clients}
use logful_api.GlobalConfig.{
  Configs, Request, put_level, put_grant, delete_grant, contains, all_found, handle_all,
}
use logful_api.GlobalConfig.Grants.{grants, specified_all, IsSingle, grants-handle_all}

abbrev pub clients : Clients ℕ ℕ
clients = record {
  docs =
      record {
        id = 0;
        key = codes "a";
        body = record { client_secret = codes "s"; key_pair = none; rest = 1 };
      }
      ∷ [];
  next_id = 1;
}

abbrev pub requests : List Request
requests =
    put_level (some (pos 50))
    ∷ put_grant (some (codes "a" ∷ []))
    ∷ delete_grant (some (codes "b" ∷ []))
    ∷ []

abbrev pub no_config : Configs
no_config = record { docs = []; next_id = 1 }

grants-handle_all_example :
    (grants (handle_all (λ ts. ts) clients requests no_config)
      ≡ specified_all clients requests (grants no_config))
    × IsSingle (handle_all (λ ts. ts) clients requests no_config).docs
grants-handle_all_example =
    grants-handle_all (λ ts. ts) clients (λ t ts. refl) requests no_config tt

-- The client that was granted is not, the other is.
swapped :
    ((specified_all clients requests (grants no_config)).granted (codes "a") ≡ false)
    × ((specified_all clients requests (grants no_config)).granted (codes "b") ≡ true)
unfolding contains all_found find_all equals
swapped = (refl, refl)
