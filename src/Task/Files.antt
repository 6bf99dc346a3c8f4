-- ===== src/Task/Files.antt =====
-- parse/LogFileParseTask.java: the cached file on every branch.
use logful_api.Base.{
  ℕ, ◌≡◌, refl, ap, ◌∙◌, ◌⊎◌, inl, inr, Bool, true, false, List, [], ◌∷◌, Option, none, some,
  if-cases,
}
use logful_api.Base.Int.{eq_ℤ}
use logful_api.ByteUtil.{Bytes}
use logful_api.StringUtil.{Text}
use logful_api.LogFileParser.{Decryption, Event}
use logful_api.LogFileParser.Progress.{parse_total}
use logful_api.LogFileParser.Listener.{deliver, or_stop}
use logful_api.Layout.{LayoutMap}
use logful_api.Graylog.{Numbers, LogMessage}
use logful_api.Weed.{exists, delete}
use logful_api.Weed.Answers.{exists-delete}
use logful_api.LogFileProperties.{
  Library, LogFileProperties, Creation, meta, no_meta, thrown, create,
}
use logful_api.Task.{
  Task, message_of, line_of, send_graylog, send_local, put_line, and_then, output, release,
  close_lines, on_creation, or_error, result, after_parse, move_to_error_dir, run,
}
use logful_api.Task.Outcome.{run-parsed}

module _ {F : Type 0} (library : Library) (numbers : Numbers F) (next_key : LayoutMap → Text)
    (p : LogFileProperties) where
  -- The two directories are the same.
  abbrev SameFiles : Task F → Task F → Type 0
  SameFiles t u = (u.cached ≡ t.cached) × (u.failed ≡ t.failed)

  SameFiles-trans : (t u v : Task F) → SameFiles t u → SameFiles u v → SameFiles t v
  SameFiles-trans t u v h k = (k.0 ∙ h.0, k.1 ∙ h.1)

  put_line-SameFiles :
      (l : Text) (w : Option (List Text)) (t : Task F)
      → SameFiles t (put_line library numbers next_key l w t).0
  put_line-SameFiles l none t = (refl, refl)
  put_line-SameFiles l (some ls) t = (refl, refl)

  and_then-SameFiles :
      (m : LogMessage) (t : Task F) (r : Task F × Bool)
      → SameFiles t r.0
      → SameFiles t (and_then library numbers next_key (send_local library numbers next_key m) r).0
  unfolding send_local
  and_then-SameFiles m t (u, true) h =
      let l = line_of library m in
      SameFiles-trans t u (put_line library numbers next_key l u.writer u).0 h
        (put_line-SameFiles l u.writer u)
  and_then-SameFiles m t (u, false) h = h

  output-SameFiles :
      (e : Event) (t : Task F) → SameFiles t (output library numbers next_key p e t).0
  unfolding output send_local send_graylog
  output-SameFiles e t =
      let m = message_of library p e in
      if-cases (λ (r : Task F × Bool). SameFiles t r.0) (eq_ℤ p.level _)
        (λ _. put_line-SameFiles (line_of library m) t.writer t)
        (λ _. and_then-SameFiles m t (send_graylog library numbers next_key m t) (refl, refl))

  or_stop-SameFiles :
      (k : Task F → Task F × Bool) (t : Task F) (r : Task F × Bool)
      → ((u : Task F) → SameFiles u (k u).0)
      → SameFiles t r.0
      → SameFiles t (or_stop (output library numbers next_key p) k r).0
  or_stop-SameFiles k t (u, true) h s = SameFiles-trans t u (k u).0 s (h u)
  or_stop-SameFiles k t (u, false) h s = s

  deliver-SameFiles :
      (es : List Event) (b : Bool) (t : Task F)
      → SameFiles t (deliver (output library numbers next_key p) es b t).0
  unfolding deliver
  deliver-SameFiles [] b t = (refl, refl)
  deliver-SameFiles (e ∷ es) b t =
      or_stop-SameFiles (deliver (output library numbers next_key p) es b) t
        (output library numbers next_key p e t) (deliver-SameFiles es b) (output-SameFiles e t)

  -- The cached file is gone; the directory of failed files has it, or is as it was.
  abbrev pub HasLeft : Task F → Task F → Type 0
  HasLeft t u =
      (exists p.filename u.cached ≡ false)
      × ((u.failed ≡ t.failed) ⊎ (u.failed ≡ p.filename ∷ t.failed))

  -- The file is in the cache, and no file of that name has failed.
  abbrev pub IsCached : Task F → Type 0
  IsCached t = (exists p.filename t.cached ≡ true) × (exists p.filename t.failed ≡ false)

  move_to_error_dir-moved :
      (t : Task F)
      → IsCached t
      → move_to_error_dir library numbers next_key p t
        ≡ record t { cached = delete p.filename t.cached; failed = p.filename ∷ t.failed }
  unfolding move_to_error_dir
  move_to_error_dir-moved t (c, f) = rw (move_to_error_dir, c, f) refl

  release-SameFiles : (t : Task F) → SameFiles t (release library numbers next_key t)
  unfolding release
  release-SameFiles t = go t.writer
    where
      go : (w : Option (List Text)) → SameFiles t (close_lines library numbers next_key w t)
      go none = (refl, refl)
      go (some ls) = (refl, refl)

  SameFiles-IsCached : (t u : Task F) → SameFiles t u → IsCached t → IsCached u
  SameFiles-IsCached t u s (c, f) = (ap (exists p.filename) s.0 ∙ c, ap (exists p.filename) s.1 ∙ f)

  SameFiles-HasLeft : (t u v : Task F) → SameFiles t u → HasLeft u v → HasLeft t v
  SameFiles-HasLeft t u v s (c, inl e) = (c, inl (e ∙ s.1))
  SameFiles-HasLeft t u v s (c, inr e) = (c, inr (e ∙ ap (λ fs. p.filename ∷ fs) s.1))

  move_to_error_dir-HasLeft :
      (t : Task F) → IsCached t → HasLeft t (move_to_error_dir library numbers next_key p t)
  move_to_error_dir-HasLeft t h =
      rw (move_to_error_dir-moved t h) (exists-delete p.filename t.cached, inr refl)

  on_creation-HasLeft :
      (c : Creation) (t : Task F)
      → IsCached t
      → HasLeft t (or_error library numbers next_key p (on_creation library numbers next_key p c t))
  on_creation-HasLeft (meta m) t h = (exists-delete p.filename t.cached, inl refl)
  on_creation-HasLeft no_meta t h = (exists-delete p.filename t.cached, inl refl)
  on_creation-HasLeft thrown t h = move_to_error_dir-HasLeft t h

  after_parse-HasLeft :
      (now : ℕ) (b : Bool) (t : Task F)
      → IsCached t
      → HasLeft t (after_parse library numbers next_key now p (t, b))
  unfolding result
  after_parse-HasLeft now b t h =
      let s = release-SameFiles t in
      let u = release library numbers next_key t in
      SameFiles-HasLeft t u (after_parse library numbers next_key now p (t, b)) s
        (go b (SameFiles-IsCached t u s h))
    where
      go :
          (b : Bool)
          → IsCached (release library numbers next_key t)
          → HasLeft
              (release library numbers next_key t)
              (after_parse library numbers next_key now p (t, b))
      go true h = on_creation-HasLeft (create library numbers.digit now p) _ h
      go false h =
          (exists-delete p.filename _, inr (ap (λ v. v.failed) (move_to_error_dir-moved _ h)))

  -- On every branch, `run` ends, and if the file is in the cache and no file of its name has
  -- failed before, the cached file is gone, and the directory of failed files has got it, or is as
  -- it was.
  pub run-HasLeft :
      (crypto : Decryption) (now : ℕ) (contents : Option Bytes) (t : Task F)
      → IsCached t
      → (u : Task F) × (run library numbers next_key crypto now p contents t ≡ some u) × HasLeft t u
  unfolding run
  run-HasLeft crypto now none t h = (_, refl, move_to_error_dir-HasLeft t h)
  run-HasLeft crypto now (some contents) t h =
      let (es, b, q) = parse_total crypto p.app_id p.compatible p.security contents in
      let r = deliver (output library numbers next_key p) es b t in
      let s = deliver-SameFiles es b t in
      (
        after_parse library numbers next_key now p r,
        run-parsed library numbers next_key crypto now p contents t q,
        SameFiles-HasLeft t r.0 (after_parse library numbers next_key now p r) s
            (after_parse-HasLeft now r.1 r.0 (SameFiles-IsCached t r.0 s h)),
      )
