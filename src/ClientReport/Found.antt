-- ===== src/ClientReport/Found.antt =====
-- mongod/ClientUserRepository.java: which user is found after a save.
use logful_api.Base.{
  ℕ, ◌≡◌, refl, ap, ◌↔◌, arith, Bool, true, false, ◌&&◌, List, [], ◌∷◌, Option, none, some,
  if◌then◌else◌, Bool-cases, inl, inr,
}
use logful_api.Base.Int.{ℤ, eq_ℤ}
use logful_api.StringUtil.{Text}
use logful_api.Maps.Laws.{equals_refl, eq_of_equals}
use logful_api.ClientReport.{
  ClientUser, UserDoc, Users, same_text, is_of, find_user, find_by_uid_and_app_id, upsert,
  save_user,
}

same_text_refl : (o : Option Text) → same_text o o ≡ true
same_text_refl none = refl
same_text_refl (some t) = equals_refl t

eq_of_same_text : (a b : Option Text) → same_text a b ≡ true → a ≡ b
eq_of_same_text none none h = refl
eq_of_same_text none (some t) h = cc
eq_of_same_text (some s) none h = cc
eq_of_same_text (some s) (some t) h = ap some (eq_of_equals s t h)

same_text_iff : (a b : Option Text) → (same_text a b ≡ true) ↔ (a ≡ b)
same_text_iff a b = (eq_of_same_text a b, λ e. rw e (same_text_refl b))

both_same : (a b c d : Option Text) → same_text a b && same_text c d ≡ true → (a ≡ b) × (c ≡ d)
both_same a b c d h = (ground (arith, eq_of_same_text a b), ground (arith, eq_of_same_text c d))

not_same :
    (a b c d : Option Text)
    → same_text a b && same_text c d ≡ false
    → same_text b a && same_text d c ≡ false
not_same a b c d h =
    ground (arith, same_text_iff a b, same_text_iff b a, same_text_iff c d, same_text_iff d c)

module _ {D : Type 0} where
  -- No two users have the same uid and application.
  abbrev pub AreUnique : List (UserDoc D) → Type 0
  AreUnique [] = Unit
  AreUnique (d ∷ ds) = (find_user (is_of d.user.uid d.user.app_id) ds ≡ none) × AreUnique ds

  abbrev on_platform : ℤ → Option Text → Option Text → UserDoc D → Bool
  on_platform q uid app_id d = eq_ℤ d.user.platform q && is_of uid app_id d

  on_platform-none :
      (q : ℤ) (uid app_id : Option Text) (ds : List (UserDoc D))
      → find_user (is_of uid app_id) ds ≡ none
      → find_user (on_platform q uid app_id) ds ≡ none
  unfolding find_user
  on_platform-none q uid app_id [] h = refl
  on_platform-none q uid app_id (d ∷ ds) h = ground (arith, on_platform-none q uid app_id ds)

  abbrev on_saved : ℤ → ClientUser D → Option (ClientUser D)
  on_saved q u = if eq_ℤ u.platform q then some u else none

  module _ (q : ℤ) (uid app_id : Option Text) (n : ℕ) (u : ClientUser D) where
    -- Found is the saved user, if it is the one that is looked for, and else what was found before.
    abbrev Finds : List (UserDoc D) → Type 0
    Finds ds = find_user (on_platform q uid app_id) (upsert n u ds) ≡ (
        if same_text u.uid uid && same_text u.app_id app_id
        then on_saved q u
        else find_user (on_platform q uid app_id) ds)

    upsert-over :
        (d : UserDoc D) (ds : List (UserDoc D))
        → find_user (is_of d.user.uid d.user.app_id) ds ≡ none
        → is_of u.uid u.app_id d ≡ true
        → Finds (d ∷ ds)
    unfolding find_user upsert
    upsert-over d ds h e =
        let (i, j) = both_same d.user.uid u.uid d.user.app_id u.app_id e in
        elim (Bool-cases (same_text u.uid uid && same_text u.app_id app_id)) [
          | inl k ↦
              let (a, b) = both_same u.uid uid u.app_id app_id k in
              let m = on_platform-none q uid app_id ds (rw (i, j, a, b) at h) in
              rw (e, i, j, k, m) (ground arith)
          | inr k ↦ rw (e, i, j, k) (ground arith)
        ]

    -- A user that is looked for, and is not of the saved one's uid and application.
    other_user :
        (d : UserDoc D)
        → is_of u.uid u.app_id d ≡ false
        → on_platform q uid app_id d ≡ true
        → same_text u.uid uid && same_text u.app_id app_id ≡ false
    other_user d e k = elim (Bool-cases (same_text u.uid uid && same_text u.app_id app_id)) [
      | inl f ↦
          let (a, b) = both_same u.uid uid u.app_id app_id f in
          let g = rw (a, b) at e in ground arith
      | inr f ↦ f
    ]

    upsert-beside :
        (d : UserDoc D) (ds : List (UserDoc D))
        → is_of u.uid u.app_id d ≡ false
        → Finds ds
        → Finds (d ∷ ds)
    unfolding find_user upsert
    upsert-beside d ds e ih = elim (Bool-cases (on_platform q uid app_id d)) [
      | inl k ↦ rw (e, find_user, k, other_user d e k) refl
      | inr k ↦ rw (e, find_user, k) ih
    ]

    find_user-upsert : (ds : List (UserDoc D)) → AreUnique ds → Finds ds
    unfolding find_user upsert
    find_user-upsert [] h = ground arith
    find_user-upsert (d ∷ ds) (h, hs) = elim (Bool-cases (is_of u.uid u.app_id d)) [
      | inl e ↦ upsert-over d ds h e
      | inr e ↦ upsert-beside d ds e (find_user-upsert ds hs)
    ]

  upsert-none :
      (n : ℕ) (u : ClientUser D) (uid app_id : Option Text) (ds : List (UserDoc D))
      → find_user (is_of uid app_id) ds ≡ none
      → same_text u.uid uid && same_text u.app_id app_id ≡ false
      → find_user (is_of uid app_id) (upsert n u ds) ≡ none
  unfolding find_user upsert
  upsert-none n u uid app_id [] h k = rw k refl
  upsert-none n u uid app_id (d ∷ ds) h k = ground (arith, upsert-none n u uid app_id ds)

  upsert-AreUnique :
      (n : ℕ) (u : ClientUser D) (ds : List (UserDoc D)) → AreUnique ds → AreUnique (upsert n u ds)
  unfolding find_user upsert
  upsert-AreUnique n u [] h = (refl, tt)
  upsert-AreUnique n u (d ∷ ds) (h, hs) = elim (Bool-cases (is_of u.uid u.app_id d)) [
    | inl e ↦ rw e (h, hs)
    | inr e ↦ rw e (
      upsert-none n u d.user.uid d.user.app_id ds h
          (not_same d.user.uid u.uid d.user.app_id u.app_id e),
      upsert-AreUnique n u ds hs,
    )
  ]

  -- Where no two users have the same uid and application: after a save of `u` the search for a
  -- platform, a uid and an application finds `u` if the uid and the application are its own and the
  -- platform too, none if only the platform is another, and else what it found before; and no two
  -- users have the same uid and application.
  pub find-save_user :
      (q : ℤ) (uid app_id : Option Text) (u : ClientUser D) (s : Users D)
      → AreUnique s.docs
      → (find_by_uid_and_app_id q uid app_id (save_user u s) ≡ (
          if same_text u.uid uid && same_text u.app_id app_id
          then if eq_ℤ u.platform q then some u else none
          else find_by_uid_and_app_id q uid app_id s))
        × AreUnique (save_user u s).docs
  unfolding find_by_uid_and_app_id save_user
  find-save_user q uid app_id u s h =
      (find_user-upsert q uid app_id s.next_id u s.docs h, upsert-AreUnique s.next_id u s.docs h)
