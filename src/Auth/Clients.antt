-- ===== src/Auth/Clients.antt =====
-- auth/service/SimpleClientDetailService.java and auth/ApplicationKeyPairManager.java: the clients and
-- their key pairs.
--
-- `K` are the key pairs that RSAUtil makes of a client's encoded keys, none where it throws, and `T`
-- the rest of a client's details. A client is a document with the client's id as its key.
pub mod Laws
use logful_api.Base.{Bool, true, false, List, Option, none, some}
use logful_api.StringUtil.{Text}
use logful_api.Maps.{map_get, map_put}
use logful_api.Auth.Documents.{
  Doc, Collection, find_first, has_id, has_key, replace, insert, remove, found,
}

pub record ClientBody (K T : Type 0) : Type 0 where
  pub client_secret : Text
  pub key_pair : Option K
  pub rest : T

abbrev pub Clients : Type 0 → Type 0 → Type 0
Clients K T = Collection (ClientBody K T)

-- `getKeyPair`: the map of the manager, and the key pair; `none` is null.
abbrev pub keep_pair : {K : Type 0} → Text → Option K → List (Text × K) → List (Text × K) × Option K
keep_pair c none m = (m, none)
keep_pair c (some k) m = (map_put c k m, some k)

module _ {K T : Type 0} where
  -- `none` is a ClientRegistrationException.
  unfoldable pub load_client_by_client_id : Text → Clients K T → Option (ClientBody K T)
  unfolding find_first
  load_client_by_client_id c s = found c s.docs

  -- A new SimpleClientDetails has no id, so that the save inserts it.
  unfoldable pub add_client_details : Text → ClientBody K T → Clients K T → Clients K T
  unfolding insert
  add_client_details c b s = insert c b s

  -- The second component is whether the call returns, and does not throw a NoSuchClientException.
  unfoldable pub on_update :
      Text → ClientBody K T → Option (Doc (ClientBody K T)) → Clients K T → Clients K T × Bool
  unfolding insert
  on_update c b none s = (s, false)
  on_update c b (some d) s = (insert c b s, true)

  unfoldable pub update_client_details : Text → ClientBody K T → Clients K T → Clients K T × Bool
  unfolding find_first on_update
  update_client_details c b s = on_update c b (find_first (has_key c) s.docs) s

  unfoldable pub on_secret : Text → Option (Doc (ClientBody K T)) → Clients K T → Clients K T × Bool
  unfolding replace
  on_secret secret none s = (s, false)
  on_secret secret (some d) s = (
    record s {
      docs = replace (record d { body = record d.body { client_secret = secret } }) s.docs;
    },
    true,
  )

  unfoldable pub update_client_secret : Text → Text → Clients K T → Clients K T × Bool
  unfolding find_first on_secret
  update_client_secret c secret s = on_secret secret (find_first (has_key c) s.docs) s

  unfoldable pub on_remove : Option (Doc (ClientBody K T)) → Clients K T → Clients K T × Bool
  unfolding remove
  on_remove none s = (s, false)
  on_remove (some d) s = (remove (has_id d.id) s, true)

  unfoldable pub remove_client_details : Text → Clients K T → Clients K T × Bool
  unfolding find_first on_remove
  remove_client_details c s = on_remove (find_first (has_key c) s.docs) s

  abbrev pub pair_of : Option (Doc (ClientBody K T)) → Option K
  pair_of none = none
  pair_of (some d) = d.body.key_pair

  abbrev pub on_kept : Text → Option K → Clients K T → List (Text × K) → List (Text × K) × Option K
  on_kept c (some k) s m = (m, some k)
  on_kept c none s m = keep_pair c (pair_of (find_first (has_key c) s.docs)) m

  unfoldable pub get_key_pair : Text → Clients K T → List (Text × K) → List (Text × K) × Option K
  unfolding find_first
  get_key_pair c s m = on_kept c (map_get c m) s m
