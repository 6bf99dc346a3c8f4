-- ===== src/GlobalConfig.antt =====
-- mongod/GlobalConfigRepository.java, entity/GlobalConfig.java and the requests of
-- rest/SystemRestController.java on the level and the granted clients.
--
-- A collection is its documents with the next id that the database gives; findOne gives the first.
-- The parameter `in_order` is the order in which a HashSet of texts gives its elements. No caller
-- passes a null config, and the ids of a request are not null.
pub mod Grants
use logful_api.Base.{
  ℕ, suc, Bool, false, ◌||◌, List, [], ◌∷◌, ◌++◌, Option, none, some, if◌then◌else◌, length, ◌==◌,
}
use logful_api.Base.Int.{ℤ, pos}
use logful_api.StringUtil.{Text, equals}
use logful_api.Auth.Documents.{find_all}
use logful_api.Auth.Clients.{Clients}

pub record GlobalConfig : Type 0 where
  pub id : Option ℕ
  pub level : ℤ
  pub grant_clients : List Text

pub record Configs : Type 0 where
  pub docs : List GlobalConfig
  pub next_id : ℕ

-- `List.contains`
unfoldable pub contains : Text → List Text → Bool
contains t [] = false
contains t (u ∷ ts) = equals t u || contains t ts

-- What `new HashSet` keeps.
unfoldable pub set_of : List Text → List Text
unfolding contains
set_of [] = []
set_of (t ∷ ts) = let rest = set_of ts in if contains t rest then rest else t ∷ rest

-- `MongoOperations.save`: without an id it is a new document, else it takes the place of the one
-- with that id, if there is one.
abbrev pub same_id : ℕ → Option ℕ → Bool
same_id i none = false
same_id i (some j) = i == j

unfoldable pub replace_config : ℕ → GlobalConfig → List GlobalConfig → List GlobalConfig
replace_config i c [] = c ∷ []
replace_config i c (d ∷ ds) =
    let rest = replace_config i c ds in if same_id i d.id then c ∷ ds else d ∷ rest

abbrev pub put_config : Option ℕ → GlobalConfig → Configs → Configs
put_config none c s = record {
  docs = s.docs ++ (record c { id = some s.next_id } ∷ []);
  next_id = suc s.next_id;
}
put_config (some i) c s = record s { docs = replace_config i c s.docs }

-- `save`: the first document's id is taken over.
abbrev pub with_id : List GlobalConfig → GlobalConfig → GlobalConfig
with_id [] c = c
with_id (d ∷ ds) c = record c { id = d.id }

unfoldable pub save_config : GlobalConfig → Configs → Configs
unfolding replace_config
save_config c s = let c' = with_id s.docs c in put_config c'.id c' s

-- `read` and `defaultConfig`
abbrev pub default_config : GlobalConfig
default_config = record { id = none; level = pos 100; grant_clients = [] }

abbrev pub read_config : List GlobalConfig → GlobalConfig
read_config [] = default_config
read_config (d ∷ ds) = d

abbrev pub set_grant_clients : List Text → Configs → Configs
set_grant_clients ts s = save_config (record (read_config s.docs) { grant_clients = ts }) s

unfoldable pub add_client : (List Text → List Text) → List Text → Configs → Configs
unfolding set_of save_config
add_client in_order client_ids s =
    set_grant_clients (in_order (set_of ((read_config s.docs).grant_clients ++ client_ids))) s

-- The loop of `removeClient`.
unfoldable pub not_contained : List Text → List Text → List Text
unfolding contains
not_contained original [] = []
not_contained original (item ∷ client_ids) =
    let rest = not_contained original client_ids in
    if contains item original then rest else item ∷ rest

unfoldable pub remove_client : List Text → Configs → Configs
unfolding not_contained save_config
remove_client client_ids s =
    set_grant_clients (not_contained (read_config s.docs).grant_clients client_ids) s

-- The requests, with what their payload gives: the level, unless it is no JSON or has none, and the
-- ids, unless it is no array of texts.
pub data Request : Type 0 where
  put_level : Option ℤ → Request
  put_grant : Option (List Text) → Request
  delete_grant : Option (List Text) → Request

pub data Reply : Type 0 where
  updated : Reply
  deleted : Reply
  not_acceptable : Reply
  bad_request : Reply

abbrev pub update_level : Option ℤ → Configs → Configs × Reply
update_level none s = (s, not_acceptable)
update_level (some z) s = (save_config (record (read_config s.docs) { level = z }) s, updated)

-- `findByClientIds` finds as many clients as there are ids.
unfoldable pub all_found : {K T : Type 0} → Clients K T → List Text → Bool
unfolding find_all contains
all_found clients ids = length (find_all (λ d. contains d.key ids) clients.docs) == length ids

module _ {K T : Type 0} (in_order : List Text → List Text) (clients : Clients K T) where
  abbrev pub add_grant_client : Option (List Text) → Configs → Configs × Reply
  add_grant_client none s = (s, bad_request)
  add_grant_client (some []) s = (s, bad_request)
  add_grant_client (some (i ∷ ids)) s =
      if all_found clients (i ∷ ids)
      then (add_client in_order (i ∷ ids) s, updated)
      else (s, bad_request)

  abbrev pub remove_grant_client : Option (List Text) → Configs → Configs × Reply
  remove_grant_client none s = (s, bad_request)
  remove_grant_client (some []) s = (s, bad_request)
  remove_grant_client (some (i ∷ ids)) s = (remove_client (i ∷ ids) s, deleted)

  unfoldable pub handle : Request → Configs → Configs × Reply
  unfolding add_client remove_client all_found save_config
  handle (put_level l) s = update_level l s
  handle (put_grant ids) s = add_grant_client ids s
  handle (delete_grant ids) s = remove_grant_client ids s

  unfoldable pub handle_all : List Request → Configs → Configs
  unfolding handle
  handle_all [] s = s
  handle_all (r ∷ rs) s = handle_all rs (handle r s).0
