-- ===== src/CryptoTool/Cache.antt =====
-- util/CryptoTool.java over native/interface.c: what decryption for an application amounts to,
-- whatever certificates are kept and whatever was on the stack.
use logful_api.Base.{
  ℕ, ◌-◌, ◌≡◌, true, if◌then◌else◌, List, [], ◌∷◌, ◌++◌, take, drop, length, Option, none, some,
  arith, refl, ap, ◌∙◌, take-append, length-append, append-nil, inl, inr, Bool-cases,
}
use mathlib.Core.Path.{subst}
use mathlib.Core.Option.{some-injective}
use logful_api.Base.Int.{pos}
use logful_api.ByteUtil.{Bytes}
use logful_api.StringUtil.{Text, equals}
use logful_api.Native.{
  EvpCipher, EvpMd, Derived, Evp, Jni, Certificate, State, Stack, Outcome, returned, security,
}
use logful_api.Native.Certificates.{
  IsWorking, IsStack, Provides, security_certificate, security_salt,
}
use logful_api.CryptoTool.{
  Primitives, copy_of, Store, find_key, Answer, answer, refused, decrypt_text, decrypt_by,
  key_string, on_created, decrypt_cached, aes_decrypt_app,
}

equals→eq : (s t : Text) → equals s t ≡ true → s ≡ t
unfolding equals
equals→eq [] [] h = refl
equals→eq [] (b ∷ t) h = cc
equals→eq (a ∷ s) [] h = cc
equals→eq (a ∷ s) (b ∷ t) h = ground (arith, equals→eq s t)

take_front : (key rest : Bytes) (n : ℕ) → length key ≡ n → take n (key ++ rest) ≡ key
take_front key rest n h = rw (← h) (take-append key rest)

long_enough : (key rest : Bytes) → length key ≡ 32 → 32 - length (key ++ rest) ≡ 0
long_enough key rest h = omega (arith, length-append key rest)

copy_of_front : (key rest : Bytes) → length key ≡ 32 → copy_of (key ++ rest) 32 ≡ key
copy_of_front key rest h = rw (take_front key rest 32 h, long_enough key rest h, append-nil)

module _ (prim : Primitives) (evp : Evp) (utf : Text → Bytes) (c : EvpCipher) (d : EvpMd) where
  -- The key and IV that OpenSSL derives for an application, with no salt.
  unfoldable pub derived_for : Text → Derived
  derived_for app_id =
      evp.bytes_to_key c d none (some (utf (prim.to_string (key_string prim app_id))))
        (pos (length (key_string prim app_id))) 1

  -- What the method promises: a function of the application and the data.
  unfoldable pub app_text : Option Text → Option Bytes → Option Text
  app_text none chunk = none
  app_text (some []) chunk = none
  app_text (some (a ∷ id)) none = none
  app_text (some (a ∷ id)) (some chunk) =
      if refused chunk
      then none
      else decrypt_text prim (derived_for (a ∷ id)).key (derived_for (a ∷ id)).iv chunk

  -- The certificate serves the application.
  abbrev pub Serves : Text → Certificate → Type 0
  Serves app_id cert =
      (copy_of cert.key 32 ≡ (derived_for app_id).key) × (cert.iv ≡ (derived_for app_id).iv)

  abbrev pub AllServe : List (Text × Certificate) → Type 0
  AllServe [] = Unit
  AllServe ((app_id, cert) ∷ m) = Serves app_id cert × AllServe m

  find_key-Serves :
      (app_id : Text) (m : List (Text × Certificate)) {cert : Certificate}
      → AllServe m
      → find_key app_id m ≡ some cert
      → Serves app_id cert
  unfolding find_key
  find_key-Serves app_id [] h e = cc
  find_key-Serves app_id ((j, k) ∷ m) {cert} (h, hs) e = elim (Bool-cases (equals j app_id)) [
    | inl q ↦
        subst (λ z. Serves z cert) (equals→eq j app_id q)
          (subst (λ z. Serves j z) (some-injective k _ (rw q at e)) h)
    | inr q ↦ find_key-Serves app_id m hs (rw q at e)
  ]

module _ (prim : Primitives) (evp : Evp) (jni : Jni) (utf : Text → Bytes) (c : EvpCipher)
    (d : EvpMd) (provides : Provides evp c d) (working : IsWorking jni)
    (chars : (t : Text) → jni.get_string_utf_chars t ≡ some (utf t)) (stack : Stack)
    (sized : IsStack stack) where
  created :
      (a : Text) (s : State)
      → s.salt ≡ none
      → (security evp jni
          (prim.to_string (key_string prim a))
          (pos (length (key_string prim a)))
          stack
          s).1
        ≡ returned (
            some (record {
              key = (derived_for prim evp utf c d a).key ++ drop 32 stack.key;
              iv = (derived_for prim evp utf c d a).iv;
            }))
  unfolding derived_for
  created a s e = simp e at (
      security_certificate evp jni (prim.to_string (key_string prim a))
        (pos (length (key_string prim a))) stack s c d _ provides working sized (chars _))

  created_Serves :
      (a : Text)
      → Serves prim evp utf c d a (record {
        key = (derived_for prim evp utf c d a).key ++ drop 32 stack.key;
        iv = (derived_for prim evp utf c d a).iv;
      })
  unfolding derived_for
  created_Serves a =
      let (r, hk, hi) =
        provides.derives none (utf (prim.to_string (key_string prim a)))
          (pos (length (key_string prim a))) in
      (copy_of_front _ _ (hk ∙ provides.cipher_key), refl)

  decrypt_by-Serves :
      (a : Text) (cert : Certificate) (chunk : Bytes)
      → Serves prim evp utf c d a cert
      → decrypt_by prim cert chunk
        ≡ decrypt_text prim
            (derived_for prim evp utf c d a).key
            (derived_for prim evp utf c d a).iv
            chunk
  unfolding decrypt_by
  decrypt_by-Serves a cert chunk (k, i) = rw (k, i)

  -- What both ways to a certificate come to.
  abbrev Right : Text → Bytes → Store × Answer → Type 0
  Right a chunk (st, r) =
      (r
        ≡ answer (
            decrypt_text prim (derived_for prim evp utf c d a).key
              (derived_for prim evp utf c d a).iv chunk))
      × AllServe prim evp utf c d st.key_map
      × (st.native.salt ≡ none)

  on_created-Right :
      (a : Text) (chunk : Bytes) (m : List (Text × Certificate)) (r : State × Outcome)
      → AllServe prim evp utf c d m
      → r.0.salt ≡ none
      → r.1
        ≡ returned (
            some (record {
              key = (derived_for prim evp utf c d a).key ++ drop 32 stack.key;
              iv = (derived_for prim evp utf c d a).iv;
            }))
      → Right a chunk (on_created prim evp jni a chunk m r)
  unfolding on_created
  on_created-Right a chunk m (s, r) h e q =
      rw q (ap answer (decrypt_by-Serves a _ chunk (created_Serves a)), (created_Serves a, h), e)

  decrypt_cached-Right :
      (a : Text) (chunk : Bytes) (st : Store) (o : Option Certificate)
      → find_key a st.key_map ≡ o
      → st.native.salt ≡ none
      → AllServe prim evp utf c d st.key_map
      → Right a chunk (decrypt_cached prim evp jni a chunk stack st o)
  unfolding decrypt_cached
  decrypt_cached-Right a chunk st (some cert) f e h = (
    ap answer (decrypt_by-Serves a cert chunk (find_key-Serves prim evp utf c d a st.key_map h f)),
    h,
    e,
  )
  decrypt_cached-Right a chunk st none f e h =
      on_created-Right a chunk st.key_map _ h (security_salt evp jni _ _ stack st.native ∙ e)
        (created a st.native e)

  -- Let OpenSSL have the cipher and the digest, let no JNI call fail, let the salt be NULL and let
  -- each kept certificate serve its application. Then decryption for an application ends in what
  -- `app_text` says, a function of the application and the data alone, whatever is kept and whatever
  -- the stack held; and the kept certificates still serve, and the salt is still NULL.
  pub aes_decrypt_app_lem :
      (app_id : Option Text) (chunk : Option Bytes) (st : Store)
      → st.native.salt ≡ none
      → AllServe prim evp utf c d st.key_map
      → ((aes_decrypt_app prim evp jni app_id chunk stack st).1
          ≡ answer (app_text prim evp utf c d app_id chunk))
        × AllServe prim evp utf c d (aes_decrypt_app prim evp jni app_id chunk stack st).0.key_map
        × ((aes_decrypt_app prim evp jni app_id chunk stack st).0.native.salt ≡ none)
  unfolding aes_decrypt_app app_text
  aes_decrypt_app_lem none chunk st e h = (refl, h, e)
  aes_decrypt_app_lem (some []) chunk st e h = (refl, h, e)
  aes_decrypt_app_lem (some (a ∷ id)) none st e h = (refl, h, e)
  aes_decrypt_app_lem (some (a ∷ id)) (some chunk) st e h = elim (Bool-cases (refused chunk)) [
    | inl r ↦ rw r (refl, h, e)
    | inr r ↦ rw r (decrypt_cached-Right (a ∷ id) chunk st (find_key (a ∷ id) st.key_map) refl e h)
  ]
