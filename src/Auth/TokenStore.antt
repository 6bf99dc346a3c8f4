-- ===== src/Auth/TokenStore.antt =====
-- auth/OAuth2RepositoryTokenStore.java with auth/repository and auth/model: the store of the access
-- tokens and the refresh tokens, each a collection of documents.
--
-- `A` are Spring's authentications, of which the code uses a name, a client and a key (the
-- AuthenticationKeyGenerator's), the record Authentications, and `T` what a token holds beside its
-- value and its refresh token. The database calls return normally.
--
-- The @Id of a document is the private field of BasePersistenceEntity, a new UUID of each object. The
-- `id` of its two subclasses, which setId sets and getId gives, is a field of its own: `own_id`.
pub mod Refinement
use logful_api.Base.{Bool, true, false, ◌&&◌, List, [], ◌∷◌, Option, none, some, map}
use logful_api.StringUtil.{Text, equals}
use logful_api.Auth.Documents.{Doc, Collection, find_first, find_all, has_key, insert, remove}

pub record Authentications (A : Type 0) : Type 0 where
  pub name : A → Text
  pub client_id : A → Text
  pub extract_key : A → Text

-- Spring's OAuth2AccessToken and OAuth2RefreshToken
pub record AccessToken (T : Type 0) : Type 0 where
  pub value : Text
  pub refresh_token : Option Text
  pub rest : T

pub record RefreshToken (T : Type 0) : Type 0 where
  pub value : Text
  pub rest : T

-- The fields of OAuth2AuthenticationAccessToken and OAuth2AuthenticationRefreshToken beside the id
-- and the token's value.
pub record AccessBody (A T : Type 0) : Type 0 where
  pub own_id : Option Text
  pub token : AccessToken T
  pub authentication_id : Text
  pub user_name : Text
  pub client_id : Text
  pub authentication : A
  pub refresh_token : Text

pub record RefreshBody (A T : Type 0) : Type 0 where
  pub own_id : Option Text
  pub token : RefreshToken T
  pub authentication : A

pub record TokenStore (A T : Type 0) : Type 0 where
  pub access : Collection (AccessBody A T)
  pub refresh : Collection (RefreshBody A T)

abbrev pub has_refresh : {A T : Type 0} → Text → AccessBody A T → Bool
has_refresh r b = equals b.refresh_token r

-- The operations that change the store.
pub data Operation (A T : Type 0) : Type 0 where
  store_access : AccessToken T → A → Operation A T
  remove_access : AccessToken T → Operation A T
  store_refresh : RefreshToken T → A → Operation A T
  remove_refresh : RefreshToken T → Operation A T
  remove_access_using_refresh : RefreshToken T → Operation A T

module _ {A T : Type 0} (auth : Authentications A) where
  abbrev pub access_body : Option Text → AccessToken T → A → Text → AccessBody A T
  access_body own_id t a r = record {
    own_id = own_id;
    token = t;
    authentication_id = auth.extract_key a;
    user_name = auth.name a;
    client_id = auth.client_id a;
    authentication = a;
    refresh_token = r;
  }

  -- The `getId` of the document that is found, which `setId` sets.
  abbrev access_id : Option (Doc (AccessBody A T)) → Option Text
  access_id none = none
  access_id (some d) = d.body.own_id

  abbrev refresh_id : Option (Doc (RefreshBody A T)) → Option Text
  refresh_id none = none
  refresh_id (some d) = d.body.own_id

  -- Whether a call returns: the constructor of the document throws a NullPointerException on a token
  -- without a refresh token. The document is saved under its own new @Id.
  abbrev pub store_access_of :
      AccessToken T → A → Option Text → TokenStore A T → TokenStore A T × Bool
  store_access_of t a none s = (s, false)
  store_access_of t a (some r) s =
      let own_id = access_id (find_first (has_key t.value) s.access.docs) in
      (record s { access = insert t.value (access_body own_id t a r) s.access }, true)

  unfoldable pub store_access_token : AccessToken T → A → TokenStore A T → TokenStore A T × Bool
  unfolding find_first insert
  store_access_token t a s = store_access_of t a t.refresh_token s

  unfoldable pub store_refresh_token : RefreshToken T → A → TokenStore A T → TokenStore A T
  unfolding find_first insert
  store_refresh_token t a s =
      let own_id = refresh_id (find_first (has_key t.value) s.refresh.docs) in
      record s {
        refresh =
            insert t.value (record { own_id = own_id; token = t; authentication = a }) s.refresh;
      }

  unfoldable pub remove_access_token : AccessToken T → TokenStore A T → TokenStore A T
  unfolding remove
  remove_access_token t s = record s { access = remove (has_key t.value) s.access }

  unfoldable pub remove_refresh_token : RefreshToken T → TokenStore A T → TokenStore A T
  unfolding remove
  remove_refresh_token t s = record s { refresh = remove (has_key t.value) s.refresh }

  unfoldable pub remove_access_token_using_refresh_token :
      RefreshToken T → TokenStore A T → TokenStore A T
  unfolding remove
  remove_access_token_using_refresh_token t s = record s {
    access = remove (λ d. has_refresh t.value d.body) s.access;
  }

  -- One call, and calls one after another: an exception ends its own request only.
  unfoldable pub call : Operation A T → TokenStore A T → TokenStore A T
  unfolding store_access_token store_refresh_token remove_access_token remove_refresh_token
      remove_access_token_using_refresh_token
  call (store_access t a) s = (store_access_token t a s).0
  call (remove_access t) s = remove_access_token t s
  call (store_refresh t a) s = store_refresh_token t a s
  call (remove_refresh t) s = remove_refresh_token t s
  call (remove_access_using_refresh t) s = remove_access_token_using_refresh_token t s

  unfoldable pub call_all : List (Operation A T) → TokenStore A T → TokenStore A T
  call_all [] s = s
  call_all (o ∷ os) s = call_all os (call o s)

  -- The reads. `none` is a null of `readAccessToken` and `getAccessToken`, and a NullPointerException
  -- of the other three.
  abbrev pub token_of : Option (Doc (AccessBody A T)) → Option (AccessToken T)
  token_of none = none
  token_of (some d) = some d.body.token

  abbrev authentication_of : Option (Doc (AccessBody A T)) → Option A
  authentication_of none = none
  authentication_of (some d) = some d.body.authentication

  abbrev pub refresh_of : Option (Doc (RefreshBody A T)) → Option (RefreshToken T × A)
  refresh_of none = none
  refresh_of (some d) = some (d.body.token, d.body.authentication)

  unfoldable pub read_access_token : Text → TokenStore A T → Option (AccessToken T)
  unfolding find_first
  read_access_token v s = token_of (find_first (has_key v) s.access.docs)

  unfoldable pub read_authentication : Text → TokenStore A T → Option A
  unfolding find_first
  read_authentication v s = authentication_of (find_first (has_key v) s.access.docs)

  unfoldable pub read_refresh : Text → TokenStore A T → Option (RefreshToken T × A)
  unfolding find_first
  read_refresh v s = refresh_of (find_first (has_key v) s.refresh.docs)

  unfoldable pub get_access_token : A → TokenStore A T → Option (AccessToken T)
  unfolding find_first
  get_access_token a s =
      token_of
        (find_first (λ d. equals d.body.authentication_id (auth.extract_key a)) s.access.docs)

  -- `extractAccessTokens`
  abbrev tokens_of : List (Doc (AccessBody A T)) → List (AccessToken T)
  tokens_of ds = map (λ d. d.body.token) ds

  unfoldable pub find_tokens_by_client_id : Text → TokenStore A T → List (AccessToken T)
  unfolding find_all
  find_tokens_by_client_id c s = tokens_of (find_all (λ d. equals d.body.client_id c) s.access.docs)

  unfoldable pub find_tokens_by_client_id_and_user_name :
      Text → Text → TokenStore A T → List (AccessToken T)
  unfolding find_all
  find_tokens_by_client_id_and_user_name c u s =
      tokens_of
        (find_all (λ d. equals d.body.client_id c && equals d.body.user_name u) s.access.docs)
