-- ===== src/GlobalConfig/Grants.antt =====
-- mongod/GlobalConfigRepository.java and rest/SystemRestController.java: who is granted after requests.
use logful_api.Base.{
  ℕ, ◌≡◌, refl, ap, ◌∙◌, arith, inl, inr, Bool, not, ◌&&◌, ◌||◌, List, [], ◌∷◌, ◌++◌, Option, none,
  some, if◌then◌else◌, Bool-cases, ==_iff,
}
use logful_api.Base.Int.{ℤ}
use logful_api.StringUtil.{Text}
use logful_api.Maps.Laws.{equals_iff}
use logful_api.Auth.Clients.{Clients}
use logful_api.GlobalConfig.{
  GlobalConfig, Configs, contains, set_of, replace_config, put_config, save_config, read_config,
  set_grant_clients, add_client, not_contained, remove_client, Request, put_level, put_grant,
  delete_grant, all_found, handle, handle_all,
}

-- The level and, of each client, whether it is granted.
pub record Grants : Type 0 where
  pub level : ℤ
  pub granted : Text → Bool

abbrev pub of_config : GlobalConfig → Grants
of_config c = record { level = c.level; granted = λ t. contains t c.grant_clients }

abbrev pub grants : Configs → Grants
grants s = of_config (read_config s.docs)

abbrev add : List Text → Grants → Grants
add ids g = record g { granted = λ t. g.granted t || contains t ids }

-- Granted are then those of the ids that were not, and no others.
abbrev swap : List Text → Grants → Grants
swap ids g = record g { granted = λ t. contains t ids && not (g.granted t) }

module _ {K T : Type 0} (clients : Clients K T) where
  abbrev pub specified : Request → Grants → Grants
  specified (put_level none) g = g
  specified (put_level (some z)) g = record g { level = z }
  specified (put_grant (some (i ∷ ids))) g =
      if all_found clients (i ∷ ids) then add (i ∷ ids) g else g
  specified (delete_grant (some (i ∷ ids))) g = swap (i ∷ ids) g
  specified _ g = g

  abbrev pub specified_all : List Request → Grants → Grants
  specified_all [] g = g
  specified_all (r ∷ rs) g = specified_all rs (specified r g)

contains-append :
    (t : Text) (us vs : List Text) → contains t (us ++ vs) ≡ (contains t us || contains t vs)
unfolding contains
contains-append t [] vs = refl
contains-append t (u ∷ us) vs = ground (arith, contains-append t us vs)

contains-set_of : (t : Text) (ts : List Text) → contains t (set_of ts) ≡ contains t ts
unfolding contains set_of
contains-set_of t [] = refl
contains-set_of t (u ∷ ts) = elim (Bool-cases (contains u (set_of ts))) [
  | inl e ↦ rw e (ground (arith, contains-set_of t ts, equals_iff t u))
  | inr e ↦ rw e (ground (arith, contains-set_of t ts))
]

contains-not_contained :
    (t : Text) (original ids : List Text)
    → contains t (not_contained original ids) ≡ (contains t ids && not (contains t original))
unfolding contains not_contained
contains-not_contained t original [] = refl
contains-not_contained t original (u ∷ ids) = elim (Bool-cases (contains u original)) [
  | inl e ↦ rw e (ground (arith, contains-not_contained t original ids, equals_iff t u))
  | inr e ↦ rw e (ground (arith, contains-not_contained t original ids, equals_iff t u))
]

-- The database has one document at most, which has an id.
abbrev pub IsSingle : List GlobalConfig → Type 0
IsSingle [] = Unit
IsSingle (d ∷ ds) = ((i : ℕ) × (d.id ≡ some i)) × (ds ≡ [])

abbrev Saved : GlobalConfig → Configs → Type 0
Saved c s = (grants s ≡ of_config c) × IsSingle s.docs

put_new :
    (o : Option ℕ) (c : GlobalConfig) (n : ℕ)
    → c.id ≡ o
    → Saved c (put_config o c (record { docs = []; next_id = n }))
unfolding replace_config
put_new none c n e = (refl, ((n, refl), refl))
put_new (some i) c n e = (refl, ((i, e), refl))

put_over :
    (i : ℕ) (d c : GlobalConfig) (n : ℕ)
    → Saved c (
        put_config
          (some i)
          (record c { id = some i })
          (record { docs = record d { id = some i } ∷ []; next_id = n }))
unfolding replace_config
put_over i d c n = rw ((==_iff i i).1 refl) (refl, ((i, refl), refl))

-- What is saved is read, and the only document.
save_config-Saved : (c : GlobalConfig) (s : Configs) → IsSingle s.docs → Saved c (save_config c s)
unfolding save_config
save_config-Saved c s h = go s.docs h
  where
    go : (ds : List GlobalConfig) → IsSingle ds → Saved c (save_config c (record s { docs = ds }))
    go [] h = put_new c.id c s.next_id refl
    go (d ∷ ds) ((i, e), f) = rw (f, e) (put_over i d c s.next_id)

module _ {K T : Type 0} (in_order : List Text → List Text) (clients : Clients K T)
    (same : (t : Text) (ts : List Text) → contains t (in_order ts) ≡ contains t ts) where
  set_grant_clients-Saved :
      (ts : List Text) (s : Configs) (f : Text → Bool)
      → IsSingle s.docs
      → ((t : Text) → contains t ts ≡ f t)
      → (grants (set_grant_clients ts s) ≡ record { level = (grants s).level; granted = f })
        × IsSingle (set_grant_clients ts s).docs
  set_grant_clients-Saved ts s f h e =
      let (q, r) = save_config-Saved (record (read_config s.docs) { grant_clients = ts }) s h in
      (q ∙ (λ i. record { level = (read_config s.docs).level; granted = λ t. e t i }), r)

  contains-added :
      (ids original : List Text) (t : Text)
      → contains t (in_order (set_of (original ++ ids))) ≡ (contains t original || contains t ids)
  contains-added ids original t =
      same t (set_of (original ++ ids))
      ∙ (contains-set_of t (original ++ ids) ∙ contains-append t original ids)

  handle-grants :
      (r : Request) (s : Configs)
      → IsSingle s.docs
      → (grants (handle in_order clients r s).0 ≡ specified clients r (grants s))
        × IsSingle (handle in_order clients r s).0.docs
  unfolding handle add_client remove_client
  handle-grants (put_level none) s h = (refl, h)
  handle-grants (put_level (some z)) s h =
      save_config-Saved (record (read_config s.docs) { level = z }) s h
  handle-grants (put_grant none) s h = (refl, h)
  handle-grants (put_grant (some [])) s h = (refl, h)
  handle-grants (put_grant (some (i ∷ ids))) s h = elim (Bool-cases (all_found clients (i ∷ ids))) [
    | inl e ↦ rw e (
        set_grant_clients-Saved _ s _ h
          (contains-added (i ∷ ids) (read_config s.docs).grant_clients))
    | inr e ↦ rw e (refl, h)
  ]
  handle-grants (delete_grant none) s h = (refl, h)
  handle-grants (delete_grant (some [])) s h = (refl, h)
  handle-grants (delete_grant (some (i ∷ ids))) s h =
      set_grant_clients-Saved _ s _ h
        (λ t. contains-not_contained t (read_config s.docs).grant_clients (i ∷ ids))

  -- From a database with at most one config, which has an id, where a HashSet's order neither adds
  -- nor drops a text: any requests in any order leave the level and the granted clients that their
  -- specification says, by which a DELETE of ids leaves granted those of the ids that were not
  -- granted before and no other client, and at most one config, which has an id.
  pub grants-handle_all :
      (rs : List Request) (s : Configs)
      → IsSingle s.docs
      → (grants (handle_all in_order clients rs s) ≡ specified_all clients rs (grants s))
        × IsSingle (handle_all in_order clients rs s).docs
  unfolding handle_all
  grants-handle_all [] s h = (refl, h)
  grants-handle_all (r ∷ rs) s h =
      let (e, h') = handle-grants r s h in
      let (q, h'') = grants-handle_all rs (handle in_order clients r s).0 h' in
      (q ∙ ap (specified_all clients rs) e, h'')
