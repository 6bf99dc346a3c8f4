-- ===== src/Tests/Auth.antt =====
-- auth/ on a few tokens and clients.
use logful_api.Base.{◌≡◌, refl, List, [], ◌∷◌, none, some}
use logful_api.StringUtil.{Text, codes, equals}
use logful_api.Maps.{map_get}
use logful_api.Auth.Documents.{find_first}
use logful_api.Auth.Documents.Laws.{first as oldest}
use logful_api.Auth.TokenStore.{
  Authentications, AccessToken, RefreshToken, TokenStore, Operation, store_access, store_refresh,
  remove_access_using_refresh, call_all, read_access_token, read_refresh,
}
use logful_api.Auth.TokenStore.Refinement.{
  tokens, specified_all, oldest_token, IsWellFormed, tokens-call_all,
}
use logful_api.Auth.Clients.{
  ClientBody, Clients, get_key_pair, load_client_by_client_id, update_client_details,
}
use logful_api.Auth.Clients.Laws.{load-update_client_details}

-- An authentication is the name of its client.
abbrev by_name : Authentications Text
by_name = record { name = λ a. a; client_id = λ a. a; extract_key = λ a. a }

abbrev first : AccessToken Text
first = record { value = codes "t1"; refresh_token = some (codes "r1"); rest = codes "read" }

abbrev second : AccessToken Text
second = record { value = codes "t2"; refresh_token = none; rest = codes "read" }

abbrev refresh : RefreshToken Text
refresh = record { value = codes "r1"; rest = codes "long" }

-- A store with a token of its own.
abbrev store : TokenStore Text Text
store = record {
  access = record {
    docs =
        record {
          id = 3;
          key = codes "t0";
          body = record {
            own_id = none;
            token = record {
              value = codes "t0";
              refresh_token = some (codes "r0");
              rest = codes "read";
            };
            authentication_id = codes "app";
            user_name = codes "app";
            client_id = codes "app";
            authentication = codes "app";
            refresh_token = codes "r0";
          };
        }
        ∷ [];
    next_id = 4;
  };
  refresh = record { docs = []; next_id = 0 };
}

store-IsWellFormed : IsWellFormed store
store-IsWellFormed = (refl, tt)

abbrev calls : List (Operation Text Text)
calls =
    store_access first (codes "a")
    ∷ store_access first (codes "c")
    ∷ store_refresh refresh (codes "a")
    ∷ store_access second (codes "b")
    ∷ remove_access_using_refresh refresh
    ∷ []

tokens-call_all_example :
    (tokens (call_all by_name calls store) ≡ specified_all calls (tokens store))
    × ((v : Text)
        → (read_access_token by_name v (call_all by_name calls store)
            ≡ oldest_token by_name ((specified_all calls (tokens store)).access v))
          × (read_refresh by_name v (call_all by_name calls store)
              ≡ oldest ((specified_all calls (tokens store)).refresh v)))
tokens-call_all_example = tokens-call_all by_name calls store store-IsWellFormed

-- A client with a key pair, and a database without it.
abbrev clients : Clients Text Text
clients = record {
  docs =
      record {
        id = 0;
        key = codes "app";
        body = record {
          client_secret = codes "s";
          key_pair = some (codes "pair");
          rest = codes "";
        };
      }
      ∷ [];
  next_id = 1;
}

given : (get_key_pair (codes "app") clients []).1 ≡ some (codes "pair")
unfolding get_key_pair find_first map_get equals
given = refl

-- The details with another secret.
abbrev changed : ClientBody Text Text
changed = record { client_secret = codes "new"; key_pair = none; rest = codes "" }

load-update_client_details_example :
    load_client_by_client_id (codes "app") (update_client_details (codes "app") changed clients).0
    ≡ load_client_by_client_id (codes "app") clients
load-update_client_details_example =
    load-update_client_details (codes "app") changed clients (codes "app")
