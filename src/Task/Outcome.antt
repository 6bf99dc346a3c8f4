-- ===== src/Task/Outcome.antt =====
-- parse/LogFileParseTask.java: what becomes of a cached log file.
use logful_api.Base.{ℕ, ◌≡◌, refl, ap, ◌∙◌, Bool, true, false, List, [], ◌∷◌, ◌++◌, some, map}
use logful_api.Base.Int.{eq_ℤ}
use logful_api.ByteUtil.{Bytes}
use logful_api.StringUtil.{Text}
use logful_api.LogFileParser.{Decryption, Event, parsed, parse}
use logful_api.LogFileParser.Listener.{deliver, parse_to-parse}
use logful_api.Layout.{LayoutMap}
use logful_api.Graylog.{Numbers}
use logful_api.Graylog.Client.{Client, write_message}
use logful_api.Graylog.Lost.{write_message-thrown}
use logful_api.Graylog.Unreported.{write_all}
use logful_api.Weed.{WeedMeta, delete, write}
use logful_api.LogFileProperties.{Library, LogFileProperties, LogMeta, meta, no_meta, create}
use logful_api.Task.{Task, verbose, message_of, output, release, result, after_parse, run}
use logful_api.Task.Local.{AllReturn, line, sent, after, deliver-all, deliver-stopped}

module _ {F : Type 0} (library : Library) (numbers : Numbers F) (next_key : LayoutMap → Text)
    (crypto : Decryption) (now : ℕ) (p : LogFileProperties) where
  pub run-parsed :
      (contents : Bytes) (t : Task F) {es : List Event} {b : Bool}
      → parse crypto p.app_id p.compatible p.security contents ≡ parsed es b
      → run library numbers next_key crypto now p (some contents) t
        ≡ some (
            after_parse library numbers next_key now p
              (deliver (output library numbers next_key p) es b t))
  unfolding run
  run-parsed contents t h =
      rw
        (
          run,
          parse_to-parse (output library numbers next_key p) crypto p.app_id p.compatible p.security
              contents t h,
        )
        refl

  -- The task after the lines of `es`, with the local file closed and the cached file deleted.
  abbrev pub closed : List Event → Client F → Task F → Task F
  closed es c t = record t {
    graylog = c;
    writer = some [];
    out_lines = t.out_lines ++ map (line library numbers next_key p) es;
    cached = delete p.filename t.cached;
  }

  -- That file has gone to the file store.
  abbrev pub stored : List Event → Client F → WeedMeta LogMeta → Task F → Task F
  stored es c m t = record (closed es c t) { weed = write m t.weed }

  after_parse-stored :
      (es : List Event) (c : Client F) (t : Task F) {m : WeedMeta LogMeta}
      → create library numbers.digit now p ≡ meta m
      → after_parse library numbers next_key now p
          (after library numbers next_key p [] es c t, true)
        ≡ stored es c m t
  unfolding result release
  after_parse-stored es c t h = rw (result, h, release) refl

  after_parse-no_meta :
      (es : List Event) (c : Client F) (t : Task F)
      → create library numbers.digit now p ≡ no_meta
      → after_parse library numbers next_key now p
          (after library numbers next_key p [] es c t, true)
        ≡ closed es c t
  unfolding result release
  after_parse-no_meta es c t h = rw (result, h, release) refl

  -- What a file does of which no message makes the Graylog service throw.
  run-returns :
      (contents : Bytes) (t : Task F) {es : List Event} {b : Bool}
      → parse crypto p.app_id p.compatible p.security contents ≡ parsed es b
      → t.writer ≡ some []
      → AllReturn library numbers next_key (sent library numbers next_key p es) t.graylog
      → run library numbers next_key crypto now p (some contents) t
        ≡ some (
            after_parse library numbers next_key now p (
              after library numbers next_key p [] es
                  (write_all numbers next_key (sent library numbers next_key p es) t.graylog)
                  t,
              b,
            ))
  run-returns contents t h w r =
      run-parsed contents t h
      ∙ ap (λ x. some (after_parse library numbers next_key now p x))
          (deliver-all library numbers next_key p _ _ t [] w r)

  -- A file that the parser reports as successful, with the lines of `es`, where the local file was
  -- opened, no message makes the Graylog service throw, and the name gives metadata: each line is
  -- in the local file and, if the level is not verbose, is written to the Graylog service, in order;
  -- the local file goes to the file store, and the cached file is deleted.
  pub run-stored :
      (contents : Bytes) (t : Task F) {es : List Event} {m : WeedMeta LogMeta}
      → parse crypto p.app_id p.compatible p.security contents ≡ parsed es true
      → t.writer ≡ some []
      → AllReturn library numbers next_key (sent library numbers next_key p es) t.graylog
      → create library numbers.digit now p ≡ meta m
      → run library numbers next_key crypto now p (some contents) t
        ≡ some (
            stored es
              (write_all numbers next_key (sent library numbers next_key p es) t.graylog)
              m
              t)
  run-stored contents t h w r c =
      run-returns contents t h w r ∙ ap some (after_parse-stored _ _ t c)

  -- A file that the parser reports as successful, where the local file was opened and no message
  -- makes the Graylog service throw, but the name gives no metadata: the lines are in the local file
  -- and, unless the level is verbose, written to the Graylog service; the local file does not go to
  -- the file store, and the cached file is deleted and not kept in the directory of failed files.
  pub run-no_meta :
      (contents : Bytes) (t : Task F) {es : List Event}
      → parse crypto p.app_id p.compatible p.security contents ≡ parsed es true
      → t.writer ≡ some []
      → AllReturn library numbers next_key (sent library numbers next_key p es) t.graylog
      → create library numbers.digit now p ≡ no_meta
      → run library numbers next_key crypto now p (some contents) t
        ≡ some (
            closed es (write_all numbers next_key (sent library numbers next_key p es) t.graylog) t)
  run-no_meta contents t h w r c =
      run-returns contents t h w r ∙ ap some (after_parse-no_meta _ _ t c)

  -- Where the local file was opened, the name gives metadata, the level is not verbose and a message
  -- makes the Graylog service throw, as by a bad template, and none before it does: the local file
  -- has the lines before it and neither its line nor one behind it, and is stored as if it were
  -- whole; nothing of it or of the lines behind it is put into Graylog's queue or saved for a retry;
  -- and the cached file is deleted.
  pub run-stopped :
      (contents : Bytes) (t : Task F) (es fs : List Event) (e : Event) {b : Bool} (c : Client F)
      {m : WeedMeta LogMeta}
      → parse crypto p.app_id p.compatible p.security contents ≡ parsed (es ++ (e ∷ fs)) b
      → t.writer ≡ some []
      → eq_ℤ p.level verbose ≡ false
      → AllReturn library numbers next_key (map (message_of library p) es) t.graylog
      → write_message numbers next_key
          (message_of library p e)
          (write_all numbers next_key (map (message_of library p) es) t.graylog)
        ≡ (c, false)
      → create library numbers.digit now p ≡ meta m
      → let before = write_all numbers next_key (map (message_of library p) es) t.graylog in
        (run library numbers next_key crypto now p (some contents) t ≡ some (stored es c m t))
        × (c.queue ≡ before.queue)
        × (c.saved ≡ before.saved)
  run-stopped contents t es fs e c h w v r x k =
      let (a, b) = write_message-thrown numbers next_key (message_of library p e) _ c x in
      (
        run-parsed contents t h
            ∙ ap (λ x. some (after_parse library numbers next_key now p x))
                (deliver-stopped library numbers next_key p es fs e _ t [] w v r c x)
            ∙ ap some (after_parse-stored es c t k),
        a,
        b,
      )
