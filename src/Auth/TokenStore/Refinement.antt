-- ===== src/Auth/TokenStore/Refinement.antt =====
-- auth/OAuth2RepositoryTokenStore.java: the store as two functions of the tokens' values.
use logful_api.Base.{
  ◌≡◌, refl, sym, ap, ◌∙◌, Bool, false, List, [], ◌∷◌, Option, none, some, map, if◌then◌else◌,
  Bool-cases, inl, inr,
}
use logful_api.StringUtil.{Text, equals}
use logful_api.Auth.Documents.{Doc, find_all, remove_where, has_key, remove}
use logful_api.Auth.Documents.Listed.{add, clear, map-inserted, map-removed}
use logful_api.Auth.Documents.Laws.{
  first, first-find_all, Bodies, remove_where-Bodies, insert-Bodies,
}
use logful_api.Auth.TokenStore.{
  Authentications, AccessToken, RefreshToken, AccessBody, RefreshBody, store_access_of, TokenStore,
  has_refresh, Operation, store_access, remove_access, store_refresh, remove_refresh,
  remove_access_using_refresh, store_access_token, store_refresh_token, remove_access_token,
  remove_refresh_token, remove_access_token_using_refresh_token, call, call_all, token_of,
  refresh_of, read_access_token, read_refresh,
}

-- What is stored under a token's value, oldest first.
pub record Tokens (A T : Type 0) : Type 0 where
  pub access : Text → List (AccessToken T × A)
  pub refresh : Text → List (RefreshToken T × A)

abbrev pub comes_with : Text → Option Text → Bool
comes_with r none = false
comes_with r (some q) = equals q r

module _ {A T : Type 0} where
  -- The access tokens that did not come with the refresh token `r`.
  abbrev pub without : Text → List (AccessToken T × A) → List (AccessToken T × A)
  without r [] = []
  without r (x ∷ xs) =
      let rest = without r xs in if comes_with r x.0.refresh_token then rest else x ∷ rest

  -- A token without a refresh token is not stored.
  abbrev pub add_access : AccessToken T → A → Option Text → Tokens A T → Tokens A T
  add_access t a none m = m
  add_access t a (some r) m = record m { access = add t.value (t, a) m.access }

  -- What each call means.
  abbrev pub specified : Operation A T → Tokens A T → Tokens A T
  specified (store_access t a) m = add_access t a t.refresh_token m
  specified (remove_access t) m = record m { access = clear t.value m.access }
  specified (store_refresh t a) m = record m { refresh = add t.value (t, a) m.refresh }
  specified (remove_refresh t) m = record m { refresh = clear t.value m.refresh }
  specified (remove_access_using_refresh t) m = record m {
    access = λ v. without t.value (m.access v);
  }

  abbrev pub specified_all : List (Operation A T) → Tokens A T → Tokens A T
  specified_all [] m = m
  specified_all (o ∷ os) m = specified_all os (specified o m)

  -- What a store holds.
  abbrev access_pair : Doc (AccessBody A T) → AccessToken T × A
  access_pair d = (d.body.token, d.body.authentication)

  abbrev refresh_pair : Doc (RefreshBody A T) → RefreshToken T × A
  refresh_pair d = (d.body.token, d.body.authentication)

  abbrev pub tokens : TokenStore A T → Tokens A T
  tokens s = record {
    access = λ v. map access_pair (find_all (has_key v) s.access.docs);
    refresh = λ v. map refresh_pair (find_all (has_key v) s.refresh.docs);
  }

  -- Each document has its token's refresh token.
  abbrev IsOwn : AccessBody A T → Type 0
  IsOwn b = b.token.refresh_token ≡ some b.refresh_token

  abbrev pub IsWellFormed : TokenStore A T → Type 0
  IsWellFormed s = Bodies IsOwn s.access.docs

  -- Two abstract stores that agree on every value are equal.
  tokens_ext :
      (m n : Tokens A T)
      → ((v : Text) → m.access v ≡ n.access v)
      → ((v : Text) → m.refresh v ≡ n.refresh v)
      → m ≡ n
  tokens_ext m n h k = λ i. record { access = λ v. h v i; refresh = λ v. k v i }

  map-without :
      (r v : Text) (ds : List (Doc (AccessBody A T)))
      → Bodies IsOwn ds
      → map access_pair (find_all (has_key v) (remove_where (λ d. has_refresh r d.body) ds))
        ≡ without r (map access_pair (find_all (has_key v) ds))
  unfolding find_all remove_where
  map-without r v [] h = refl
  map-without r v (d ∷ ds) (h, hs) = elim (Bool-cases (equals d.body.refresh_token r)) [
    | inl e ↦ elim (Bool-cases (equals d.key v)) [
      | inl f ↦ rw (e, f, h, e) (map-without r v ds hs)
      | inr f ↦ rw (e, f) (map-without r v ds hs)
    ]
    | inr e ↦ elim (Bool-cases (equals d.key v)) [
      | inl f ↦
          rw (e, find_all, f, ap (comes_with r) h ∙ e)
            (ap (λ xs. access_pair d ∷ xs) (map-without r v ds hs))
      | inr f ↦ rw (e, find_all, f) (map-without r v ds hs)
    ]
  ]

  module _ (auth : Authentications A) where
    store_access-tokens :
        (t : AccessToken T) (a : A) (o : Option Text) (s : TokenStore A T)
        → t.refresh_token ≡ o
        → IsWellFormed s
        → (tokens (store_access_of auth t a o s).0 ≡ add_access t a o (tokens s))
          × IsWellFormed (store_access_of auth t a o s).0
    store_access-tokens t a none s e w = (refl, w)
    store_access-tokens t a (some r) s e w = (
      tokens_ext _ _ (λ v. map-inserted access_pair v t.value _ s.access) (λ v. refl),
      insert-Bodies IsOwn t.value _ s.access e w,
    )

    call-tokens :
        (o : Operation A T) (s : TokenStore A T)
        → IsWellFormed s
        → (tokens (call auth o s) ≡ specified o (tokens s)) × IsWellFormed (call auth o s)
    unfolding call store_access_token store_refresh_token remove_access_token remove_refresh_token
        remove_access_token_using_refresh_token remove
    call-tokens (store_access t a) s w = store_access-tokens t a t.refresh_token s refl w
    call-tokens (remove_access t) s w = (
      tokens_ext _ _ (λ v. map-removed access_pair v t.value s.access) (λ v. refl),
      remove_where-Bodies IsOwn _ s.access.docs w,
    )
    call-tokens (store_refresh t a) s w =
        (tokens_ext _ _ (λ v. refl) (λ v. map-inserted refresh_pair v t.value _ s.refresh), w)
    call-tokens (remove_refresh t) s w =
        (tokens_ext _ _ (λ v. refl) (λ v. map-removed refresh_pair v t.value s.refresh), w)
    call-tokens (remove_access_using_refresh t) s w = (
      tokens_ext _ _ (λ v. map-without t.value v s.access.docs w) (λ v. refl),
      remove_where-Bodies IsOwn _ s.access.docs w,
    )

    calls-tokens :
        (os : List (Operation A T)) (s : TokenStore A T)
        → IsWellFormed s
        → (tokens (call_all auth os s) ≡ specified_all os (tokens s))
          × IsWellFormed (call_all auth os s)
    unfolding call_all
    calls-tokens [] s w = (refl, w)
    calls-tokens (o ∷ os) s w =
        let (e, w') = call-tokens o s w in
        let (f, w'') = calls-tokens os (call auth o s) w' in (f ∙ ap (specified_all os) e, w'')

    -- The oldest that is stored.
    abbrev pub oldest_token : List (AccessToken T × A) → Option (AccessToken T)
    oldest_token [] = none
    oldest_token (x ∷ xs) = some x.0

    first-oldest_token :
        (ds : List (Doc (AccessBody A T)))
        → oldest_token (map access_pair ds) ≡ token_of auth (first ds)
    first-oldest_token [] = refl
    first-oldest_token (d ∷ ds) = refl

    first-refresh_pair :
        (ds : List (Doc (RefreshBody A T)))
        → first (map refresh_pair ds) ≡ refresh_of auth (first ds)
    first-refresh_pair [] = refl
    first-refresh_pair (d ∷ ds) = refl

    read-tokens :
        (s : TokenStore A T) (v : Text)
        → (read_access_token auth v s ≡ oldest_token ((tokens s).access v))
          × (read_refresh auth v s ≡ first ((tokens s).refresh v))
    unfolding read_access_token read_refresh
    read-tokens s v = (
      sym (
          first-oldest_token (find_all (has_key v) s.access.docs)
          ∙ ap (token_of auth) (first-find_all (has_key v) s.access.docs)),
      sym (
          first-refresh_pair (find_all (has_key v) s.refresh.docs)
          ∙ ap (refresh_of auth) (first-find_all (has_key v) s.refresh.docs)),
    )

    -- From a store of which each document has its token's refresh token: any calls in any order
    -- leave under each value the tokens that their specification says, by which a token that is
    -- stored again stands behind the one that was there; and what is read of a value is the oldest
    -- that stands under it.
    pub tokens-call_all :
        (os : List (Operation A T)) (s : TokenStore A T)
        → IsWellFormed s
        → (tokens (call_all auth os s) ≡ specified_all os (tokens s))
          × ((v : Text)
              → (read_access_token auth v (call_all auth os s)
                  ≡ oldest_token ((specified_all os (tokens s)).access v))
                × (read_refresh auth v (call_all auth os s)
                    ≡ first ((specified_all os (tokens s)).refresh v)))
    tokens-call_all os s w =
        let e = (calls-tokens os s w).0 in
        (
          e,
          λ v.
              let (a, r) = read-tokens (call_all auth os s) v in
              (a ∙ ap (λ m. oldest_token (m.access v)) e, r ∙ ap (λ m. first (m.refresh v)) e),
        )
