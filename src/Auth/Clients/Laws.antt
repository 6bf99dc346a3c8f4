-- ===== src/Auth/Clients/Laws.antt =====
-- auth/: what is found of a client after the calls.
use logful_api.Base.{
  ◌≡◌, refl, ap, ◌∙◌, List, Option, none, some, if◌then◌else◌, Bool-cases, inl, inr,
}
use mathlib.Core.Option.{none-ne-some}
use logful_api.StringUtil.{Text, equals}
use logful_api.Maps.{map_get}
use logful_api.Maps.Laws.{map_get-map_put_self, eq_of_equals}
use logful_api.Auth.Documents.{Doc, insert, find_first, has_key, body_of}
use logful_api.Auth.Documents.Replace.{IsUnique, find_first-replace, found-key}
use logful_api.Auth.Documents.Laws.{find_first-append, or_else-none}
use logful_api.Auth.Clients.{
  ClientBody, Clients, load_client_by_client_id, on_update, update_client_details, on_secret,
  update_client_secret, keep_pair, pair_of, on_kept, get_key_pair,
}

keep_pair-map_get :
    {K : Type 0} (c : Text) (p : Option K) (m : List (Text × K)) (k : K)
    → (keep_pair c p m).1 ≡ some k
    → map_get c (keep_pair c p m).0 ≡ some k
keep_pair-map_get c none m k h = absurd (none-ne-some k h)
keep_pair-map_get c (some l) m k h = map_get-map_put_self c l m ∙ h

module _ {K T : Type 0} where
  -- `updateClientDetails` changes nothing of what is loaded, of whatever client: the new details are a
  -- second document behind the first.
  pub load-update_client_details :
      (c : Text) (b : ClientBody K T) (s : Clients K T) (u : Text)
      → load_client_by_client_id u (update_client_details c b s).0 ≡ load_client_by_client_id u s
  unfolding load_client_by_client_id update_client_details on_update insert
  load-update_client_details c b s u = go (find_first (has_key c) s.docs) refl
    where
      go :
          (o : Option (Doc (ClientBody K T)))
          → find_first (has_key c) s.docs ≡ o
          → body_of (find_first (has_key u) (on_update c b o s).0.docs)
            ≡ body_of (find_first (has_key u) s.docs)
      go none e = refl
      go (some d) e =
          let n : Doc (ClientBody K T) = record { id = s.next_id; key = c; body = b } in
          rw (find_first-append (has_key u) n s.docs) (elim (Bool-cases (equals c u)) [
            | inl f ↦ rw ((rw (eq_of_equals c u f) at e)) refl
            | inr f ↦ rw (f, or_else-none (find_first (has_key u) s.docs)) refl
          ])

  abbrev with_secret : Text → Option (ClientBody K T) → Option (ClientBody K T)
  with_secret secret none = none
  with_secret secret (some b) = some (record b { client_secret = secret })

  -- Where ids and client ids are unique, `updateClientSecret` changes the secret of its client and
  -- nothing else that is loaded.
  pub load-update_client_secret :
      (c secret : Text) (s : Clients K T) (u : Text)
      → IsUnique s
      → load_client_by_client_id u (update_client_secret c secret s).0 ≡ (
          if equals c u
          then with_secret secret (load_client_by_client_id c s)
          else load_client_by_client_id u s)
  unfolding load_client_by_client_id update_client_secret on_secret
  load-update_client_secret c secret s u h = go (find_first (has_key c) s.docs) refl
    where
      go :
          (o : Option (Doc (ClientBody K T)))
          → find_first (has_key c) s.docs ≡ o
          → body_of (find_first (has_key u) (on_secret secret o s).0.docs) ≡ (
              if equals c u
              then with_secret secret (body_of o)
              else body_of (find_first (has_key u) s.docs))
      go none e = elim (Bool-cases (equals c u)) [
        | inl f ↦ rw (f, (rw (eq_of_equals c u f) at e)) refl
        | inr f ↦ rw f refl
      ]
      go (some d) e =
          let k = found-key c d s.docs e in
          let n : Doc (ClientBody K T) = record d {
            body = record d.body { client_secret = secret };
          } in
          let q : find_first (has_key n.key) s.docs ≡ some d =
            ap (λ x. find_first (has_key x) s.docs) k ∙ e in
          rw (on_secret, find_first-replace s.next_id n d s.docs u h q refl, k)
            (elim (Bool-cases (equals c u)) [ inl f ↦ rw f refl | inr f ↦ rw f refl ])

  on_kept-map_get :
      (c : Text) (o : Option K) (s : Clients K T) (m : List (Text × K)) (k : K)
      → map_get c m ≡ o
      → (on_kept c o s m).1 ≡ some k
      → map_get c (on_kept c o s m).0 ≡ some k
  on_kept-map_get c (some l) s m k e h = e ∙ h
  on_kept-map_get c none s m k e h =
      keep_pair-map_get c (pair_of (find_first (has_key c) s.docs)) m k h

  -- A key pair that the manager has given for a client, it gives for good, whatever becomes of the
  -- clients.
  pub get_key_pair-kept :
      (c : Text) (s t : Clients K T) (m : List (Text × K)) (k : K)
      → (get_key_pair c s m).1 ≡ some k
      → (get_key_pair c t (get_key_pair c s m).0).1 ≡ some k
  unfolding get_key_pair
  get_key_pair-kept c s t m k h = rw (on_kept-map_get c (map_get c m) s m k refl h) refl
