-- ===== src/Schedule/Clear/Laws.antt =====
-- schedule/ScheduledTasks.java: what `clearMemory` and `clearFiles` leave.
use logful_api.Base.{
  ℕ, ◌+◌, ◌<◌, ◌≡◌, refl, sym, ◌∙◌, arith, true, List, [], ◌∷◌, Option, none, some, if◌then◌else◌,
  Bool-cases, if-cases, inl, inr, All,
}
use mathlib.Core.Option.{none-ne-some}
use logful_api.StringUtil.{Text, equals}
use logful_api.Maps.{map_get}
use logful_api.Maps.Laws.{IsDistinct, eq_of_equals, equals_refl}
use logful_api.Weed.{WeedMeta, Weed, exists}
use logful_api.Schedule.Clear.{
  entry_file, clear_entries, clear_memory, FileAttributes, Visit, pre_visit_directory, visit_file,
  visit_file_failed, post_visit_directory, max_exec_millisecond, is_expired, go_on, clear_files,
}

module _ {D : Type 0} where
  -- A pending entry, if its file is in the directory.
  abbrev pub with_file : List Text → Text → Option (WeedMeta D) → Option (WeedMeta D)
  with_file files k none = none
  with_file files k (some m) = if exists (entry_file k m) files then some m else none

  clear_entries-none :
      (files : List Text) (k : Text) (es : List (Text × WeedMeta D))
      → map_get k es ≡ none
      → map_get k (clear_entries files es) ≡ none
  unfolding map_get clear_entries
  clear_entries-none files k [] h = refl
  clear_entries-none files k ((j, m) ∷ es) h = elim (Bool-cases (equals j k)) [
    | inl f ↦ absurd (none-ne-some m (sym (rw f at h)))
    | inr f ↦
        let ih = clear_entries-none files k es (rw f at h) in
        if-cases (λ r. map_get k r ≡ none) (exists (entry_file j m) files)
          {x = (j, m) ∷ clear_entries files es} {y = clear_entries files es} (λ _. rw f ih)
          (λ _. ih)
  ]

  map_get-clear_entries :
      (files : List Text) (k : Text) (es : List (Text × WeedMeta D))
      → IsDistinct es
      → map_get k (clear_entries files es) ≡ with_file files k (map_get k es)
  unfolding map_get clear_entries
  map_get-clear_entries files k [] h = refl
  map_get-clear_entries files k ((j, m) ∷ es) (n, h) = elim (Bool-cases (equals j k)) [
    | inl f ↦
        let g = eq_of_equals j k f in
        elim (Bool-cases (exists (entry_file k m) files)) [
          | inl e ↦ rw (f, g, e, equals_refl k) refl
          | inr e ↦ rw (f, g, e) (clear_entries-none files k es (rw g at n))
        ]
    | inr f ↦ elim (Bool-cases (exists (entry_file j m) files)) [
      | inl e ↦ rw (f, e) (rw f (map_get-clear_entries files k es h))
      | inr e ↦ rw (f, e) (map_get-clear_entries files k es h)
    ]
  ]

  clear_entries-IsDistinct :
      (files : List Text) (es : List (Text × WeedMeta D))
      → IsDistinct es
      → IsDistinct (clear_entries files es)
  unfolding clear_entries
  clear_entries-IsDistinct files [] h = tt
  clear_entries-IsDistinct files ((j, m) ∷ es) (n, h) =
      if-cases IsDistinct (exists (entry_file j m) files)
        (λ _. (clear_entries-none files j es n, clear_entries-IsDistinct files es h))
        (λ _. clear_entries-IsDistinct files es h)

  -- Of a map in which no key stands twice, `clearMemory` keeps exactly the entries whose file is in
  -- the directory, and no key stands twice.
  pub map_get-clear_memory :
      (k : Text) (w : Weed D)
      → IsDistinct w.meta_map
      → (map_get k (clear_memory w).meta_map ≡ with_file w.files k (map_get k w.meta_map))
        × IsDistinct (clear_memory w).meta_map
  unfolding clear_memory
  map_get-clear_memory k w h =
      (map_get-clear_entries w.files k w.meta_map h, clear_entries-IsDistinct w.files w.meta_map h)

module _ (start ttl : ℕ) where
  -- No visit fails or comes too late.
  abbrev pub IsQuick : Visit → Type 0
  IsQuick (pre_visit_directory now) = now < start + max_exec_millisecond
  IsQuick (visit_file now f deletable) = (now < start + max_exec_millisecond) × (deletable ≡ true)
  IsQuick visit_file_failed = ⊥
  IsQuick (post_visit_directory now) = now < start + max_exec_millisecond

  -- The files that have lived too long when they are visited.
  abbrev pub expired : List Visit → List FileAttributes
  expired [] = []
  expired (visit_file now f deletable ∷ vs) =
      let rest = expired vs in if is_expired ttl now f then f ∷ rest else rest
  expired (_ ∷ vs) = expired vs

  go_on-quick :
      (now : ℕ) (rest : List FileAttributes)
      → now < start + max_exec_millisecond
      → go_on start ttl now rest ≡ rest
  go_on-quick now rest h = ground arith

  -- Undisturbed, `clearFiles` deletes exactly the regular files that are not hidden and have lived
  -- for the time to live, in the order of the visits.
  pub clear_files-expired :
      (vs : List Visit) → All IsQuick vs → clear_files start ttl vs ≡ expired vs
  unfolding clear_files
  clear_files-expired [] h = refl
  clear_files-expired (pre_visit_directory now ∷ vs) (q, h) =
      go_on-quick now _ q ∙ clear_files-expired vs h
  clear_files-expired (visit_file now f deletable ∷ vs) ((q, d), h) =
      rw (go_on-quick now (clear_files start ttl vs) q, d, clear_files-expired vs h) refl
  clear_files-expired (visit_file_failed ∷ vs) (q, h) = absurd q
  clear_files-expired (post_visit_directory now ∷ vs) (q, h) =
      go_on-quick now _ q ∙ clear_files-expired vs h
