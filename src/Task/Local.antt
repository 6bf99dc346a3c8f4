-- ===== src/Task/Local.antt =====
-- parse/LogFileParseTask.java: `output`, for the lines of a file one after another.
use logful_api.Base.{
  ◌≡◌, refl, ap, ◌∙◌, Bool, true, false, List, [], ◌∷◌, ◌++◌, none, some, map, if◌then◌else◌,
  append_assoc, append-nil, Bool-cases, inl, inr,
}
use logful_api.Base.Int.{eq_ℤ}
use logful_api.StringUtil.{Text}
use logful_api.LogFileParser.{Event}
use logful_api.LogFileParser.Listener.{deliver}
use logful_api.Layout.{LayoutMap}
use logful_api.Graylog.{Numbers, LogMessage}
use logful_api.Graylog.Client.{Client, write_message}
use logful_api.Graylog.Unreported.{write_all}
use logful_api.LogFileProperties.{Library, LogFileProperties}
use logful_api.Task.{Task, verbose, message_of, line_of, send_graylog, send_local, output}

module _ {F : Type 0} (library : Library) (numbers : Numbers F) (next_key : LayoutMap → Text) where
  -- None of the messages makes `write` throw, written in order.
  abbrev pub AllReturn : List LogMessage → Client F → Type 0
  AllReturn [] c = Unit
  AllReturn (m ∷ ms) c =
      ((write_message numbers next_key m c).1 ≡ true)
      × AllReturn ms (write_message numbers next_key m c).0

  module _ (p : LogFileProperties) where
    abbrev pub line : Event → Text
    line e = line_of library (message_of library p e)

    -- The messages that go to Graylog.
    abbrev pub sent : List Event → List LogMessage
    sent es = if eq_ℤ p.level verbose then [] else map (message_of library p) es

    -- The task after the lines of `es`.
    abbrev pub after : List Text → List Event → Client F → Task F → Task F
    after ls es c t = record t { graylog = c; writer = some (ls ++ map line es) }

    send_local-some :
        (m : LogMessage) (t : Task F) (ls : List Text)
        → t.writer ≡ some ls
        → send_local library numbers next_key m t
          ≡ (record t { writer = some (ls ++ (line_of library m ∷ [])) }, true)
    unfolding send_local
    send_local-some m t ls w = rw (send_local, w) refl

    output-verbose :
        (e : Event) (t : Task F) (ls : List Text)
        → t.writer ≡ some ls
        → eq_ℤ p.level verbose ≡ true
        → output library numbers next_key p e t ≡ (after ls (e ∷ []) t.graylog t, true)
    unfolding output
    output-verbose e t ls w v = rw (output, v) (send_local-some (message_of library p e) t ls w)

    output-graylog :
        (e : Event) (t : Task F) (ls : List Text)
        → t.writer ≡ some ls
        → eq_ℤ p.level verbose ≡ false
        → (write_message numbers next_key (message_of library p e) t.graylog).1 ≡ true
        → output library numbers next_key p e t ≡ (
          after ls (e ∷ []) (write_message numbers next_key (message_of library p e) t.graylog).0 t,
          true,
        )
    unfolding output send_graylog
    output-graylog e t ls w v r =
        let m = message_of library p e in
        let c = (write_message numbers next_key m t.graylog).0 in
        rw (output, v, send_graylog, r) (send_local-some m (record t { graylog = c }) ls w)

    output-stopped :
        (e : Event) (t : Task F)
        → eq_ℤ p.level verbose ≡ false
        → (write_message numbers next_key (message_of library p e) t.graylog).1 ≡ false
        → output library numbers next_key p e t ≡ (
          record t {
            graylog = (write_message numbers next_key (message_of library p e) t.graylog).0;
          },
          false,
        )
    unfolding output send_graylog
    output-stopped e t v r = rw (output, v, send_graylog, r) refl

    -- There is no local writer.
    pub output-none :
        (e : Event) (t : Task F)
        → t.writer ≡ none
        → output library numbers next_key p e t ≡ (
          record t {
            graylog =
                if eq_ℤ p.level verbose
                then t.graylog
                else (write_message numbers next_key (message_of library p e) t.graylog).0;
          },
          false,
        )
    unfolding output send_graylog send_local
    output-none e t w = elim (Bool-cases (eq_ℤ p.level verbose)) [
      | inl v ↦ rw (output, v, send_local, w) refl
      | inr v ↦
          elim (Bool-cases (write_message numbers next_key (message_of library p e) t.graylog).1) [
            | inl r ↦ rw (output, v, send_graylog, r, send_local, w) refl
            | inr r ↦ rw (output, v, send_graylog, r) refl
          ]
    ]

    deliver-verbose :
        (es : List Event) (b : Bool) (t : Task F) (ls : List Text)
        → t.writer ≡ some ls
        → eq_ℤ p.level verbose ≡ true
        → deliver (output library numbers next_key p) es b t ≡ (after ls es t.graylog t, b)
    unfolding deliver
    deliver-verbose [] b t ls w v = rw (append-nil ls, w) refl
    deliver-verbose (e ∷ es) b t ls w v =
        rw (deliver, output-verbose e t ls w v)
          (deliver-verbose es b (after ls (e ∷ []) t.graylog t) (ls ++ (line e ∷ [])) refl v
            ∙ rw (append_assoc ls (line e ∷ []) (map line es)) refl)

    deliver-graylog :
        (es fs : List Event) (b : Bool) (t : Task F) (ls : List Text)
        → t.writer ≡ some ls
        → eq_ℤ p.level verbose ≡ false
        → AllReturn (map (message_of library p) es) t.graylog
        → deliver (output library numbers next_key p) (es ++ fs) b t
          ≡ deliver
              (output library numbers next_key p)
              fs
              b
              (after ls es (write_all numbers next_key (map (message_of library p) es) t.graylog) t)
    unfolding deliver
    deliver-graylog [] fs b t ls w v h = rw (append-nil ls, w) refl
    deliver-graylog (e ∷ es) fs b t ls w v (r, h) =
        let c = (write_message numbers next_key (message_of library p e) t.graylog).0 in
        rw (deliver, output-graylog e t ls w v r)
          (deliver-graylog es fs b (after ls (e ∷ []) c t) (ls ++ (line e ∷ [])) refl v h
            ∙ rw (append_assoc ls (line e ∷ []) (map line es)) refl)

    -- The lines of a whole file.
    pub deliver-all :
        (es : List Event) (b : Bool) (t : Task F) (ls : List Text)
        → t.writer ≡ some ls
        → AllReturn (sent es) t.graylog
        → deliver (output library numbers next_key p) es b t
          ≡ (after ls es (write_all numbers next_key (sent es) t.graylog) t, b)
    unfolding deliver
    deliver-all es b t ls w h = elim (Bool-cases (eq_ℤ p.level verbose)) [
      | inl v ↦ rw v (deliver-verbose es b t ls w v)
      | inr v ↦ rw v (rw (append-nil es) at (deliver-graylog es [] b t ls w v (rw v at h)))
    ]

    -- A message in the middle makes `write` throw.
    pub deliver-stopped :
        (es fs : List Event) (e : Event) (b : Bool) (t : Task F) (ls : List Text)
        → t.writer ≡ some ls
        → eq_ℤ p.level verbose ≡ false
        → AllReturn (map (message_of library p) es) t.graylog
        → (c : Client F)
        → write_message numbers next_key
            (message_of library p e)
            (write_all numbers next_key (map (message_of library p) es) t.graylog)
          ≡ (c, false)
        → deliver (output library numbers next_key p) (es ++ (e ∷ fs)) b t ≡ (after ls es c t, true)
    unfolding deliver
    deliver-stopped es fs e b t ls w v h c r =
        let d = write_all numbers next_key (map (message_of library p) es) t.graylog in
        deliver-graylog es (e ∷ fs) b t ls w v h
        ∙ rw (deliver, output-stopped e (after ls es d t) v (ap (λ x. x.1) r), r) refl
