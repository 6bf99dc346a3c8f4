-- ===== src/Gelf/SenderThread/Held.antt =====
-- org/graylog2/gelfclient/transport/GelfSenderThread.java: the message that the thread holds, and
-- the messages that it reported as failed.
use mathlib.Core.Option
use logful_api.Base.{
  ℕ, ◌≡◌, refl, ap, ◌∙◌, sym, arith, Bool, true, false, List, [], ◌∷◌, ◌++◌, Option, none, some,
  ◌≢◌, if-cases,
}
use logful_api.Gelf.SenderThread.{
  Phase, not_started, top, waiting, polling, sending, exited, Sender, is_active, advance, start,
  is_started, stop, close, put, other_poll, loop_test, await, poll, poll_queue, send, advance_at,
}
use logful_api.Gelf.SenderThread.Steps.{
  Step, thread, started, stopped, closed, accepted, taken, Reach, begin, later,
}

-- Each member of the list is `x`.
abbrev pub AllAre : {A : Type 0} → A → List A → Type 0
AllAre x [] = Unit
AllAre x (y ∷ ys) = (y ≡ x) × AllAre x ys

AllAre-append : {A : Type 0} (x : A) (ys : List A) → AllAre x ys → AllAre x (ys ++ (x ∷ []))
AllAre-append x [] h = (refl, tt)
AllAre-append x (y ∷ ys) (e, h) = (e, AllAre-append x ys h)

false_ne_true : false ≡ true → ⊥
false_ne_true e = cc

not_started-is_started : {p : Phase} → p ≡ not_started → is_started p ≡ true → ⊥
not_started-is_started {p} e t = false_ne_true (sym (ap is_started e) ∙ t)

top-sending : {p : Phase} → p ≡ top → p ≢ sending
top-sending e f = cc

waiting-sending : {p : Phase} → p ≡ waiting → p ≢ sending
waiting-sending e f = cc

polling-sending : {p : Phase} → p ≡ polling → p ≢ sending
polling-sending e f = cc

module _ {M L : Type 0} (log_message : M → Option L) (id : L → Option (List ℕ)) where
  -- A message in hand has not been reported, and is about to be sent, or it has been reported and
  -- the channel is closed. No other message has been reported.
  abbrev pub Held : Phase → Option M → List (Option L) → Bool → Type 0
  Held p none failed active = failed ≡ []
  Held p (some m) [] active = p ≡ sending
  Held p (some m) (l ∷ ls) active =
      AllAre (log_message m) (l ∷ ls) × (active ≡ false) × (is_started p ≡ true)

  abbrev pub HeldBy : Sender M L → Type 0
  HeldBy s = Held s.phase s.gelf_message s.failed (is_active s.channel)

  Held-move :
      (p q : Phase) (g : Option M) (failed : List (Option L)) (active : Bool)
      → p ≢ sending
      → is_started q ≡ true
      → Held p g failed active
      → Held q g failed active
  Held-move p q none failed active n t h = h
  Held-move p q (some m) [] active n t h = absurd (n h)
  Held-move p q (some m) (l ∷ ls) active n t (a, e, _) = (a, e, t)

  Held-none :
      (p : Phase) (g : Option M) (failed : List (Option L)) (active : Bool)
      → g ≡ none
      → Held p g failed active
      → failed ≡ []
  Held-none p g failed active e h = rw e at h

  Held-written :
      (p : Phase) (m : M) (failed : List (Option L)) → Held p (some m) failed true → failed ≡ []
  Held-written p m [] h = refl
  Held-written p m (l ∷ ls) (a, e, t) = absurd cc

  Held-reported :
      (p : Phase) (m : M) (failed : List (Option L))
      → Held p (some m) failed false
      → Held top (some m) (failed ++ (log_message m ∷ [])) false
  Held-reported p m [] h = ((refl, tt), refl, refl)
  Held-reported p m (l ∷ ls) (a, e, t) = (AllAre-append (log_message m) (l ∷ ls) a, refl, refl)

  loop_test-HeldBy :
      (s : Sender M L) → s.phase ≡ top → HeldBy s → HeldBy (loop_test log_message id true s)
  unfolding loop_test
  loop_test-HeldBy s p h =
      Held-move s.phase _ s.gelf_message s.failed (is_active s.channel) (top-sending p)
        (ground arith) h

  await-HeldBy :
      (s : Sender M L) → s.phase ≡ waiting → HeldBy s → HeldBy (await log_message id true s)
  unfolding await
  await-HeldBy s p h =
      if-cases HeldBy (is_active s.channel)
        (λ a.
          Held-move s.phase _ s.gelf_message s.failed (is_active s.channel) (waiting-sending p) refl
            h)
        (λ a.
          if-cases HeldBy s.interrupted
            (λ i.
              Held-move s.phase _ s.gelf_message s.failed (is_active s.channel) (waiting-sending p)
                (ground arith) h)
            (λ i. h))

  poll_queue-HeldBy :
      (q : List M) (s : Sender M L)
      → s.gelf_message ≡ none
      → s.phase ≡ polling
      → HeldBy s
      → HeldBy (poll_queue log_message id true q s)
  unfolding poll_queue
  poll_queue-HeldBy [] s e p h =
      Held-move s.phase _ s.gelf_message s.failed (is_active s.channel) (polling-sending p) refl h
  poll_queue-HeldBy (m ∷ q) s e p h =
      rw (Held-none s.phase s.gelf_message s.failed (is_active s.channel) e h) refl

  poll-HeldBy :
      (g : Option M) (s : Sender M L)
      → s.gelf_message ≡ g
      → s.phase ≡ polling
      → HeldBy s
      → HeldBy (poll log_message id true g s)
  unfolding poll
  poll-HeldBy (some m) s e p h =
      Held-move s.phase _ s.gelf_message s.failed (is_active s.channel) (polling-sending p) refl h
  poll-HeldBy none s e p h =
      if-cases HeldBy s.interrupted
        (λ i.
          Held-move s.phase _ s.gelf_message s.failed (is_active s.channel) (polling-sending p) refl
            h)
        (λ i. poll_queue-HeldBy s.queue s e p h)

  send-HeldBy :
      (g : Option M) (s : Sender M L)
      → s.gelf_message ≡ g
      → HeldBy s
      → HeldBy (send log_message id true g s)
  unfolding send
  send-HeldBy none s e h =
      rw e (Held-none s.phase s.gelf_message s.failed (is_active s.channel) e h)
  send-HeldBy (some m) s e h =
      if-cases HeldBy (is_active s.channel) (λ a. Held-written s.phase m s.failed (rw (e, a) at h))
        (λ a. rw (e, a) (Held-reported s.phase m s.failed (rw (e, a) at h)))

  advance_at-HeldBy :
      (p : Phase) (s : Sender M L)
      → s.phase ≡ p
      → HeldBy s
      → HeldBy (advance_at log_message id true p s)
  unfolding advance_at
  advance_at-HeldBy not_started s p h = h
  advance_at-HeldBy top s p h = loop_test-HeldBy s p h
  advance_at-HeldBy waiting s p h = await-HeldBy s p h
  advance_at-HeldBy polling s p h = poll-HeldBy s.gelf_message s refl p h
  advance_at-HeldBy sending s p h = send-HeldBy s.gelf_message s refl h
  advance_at-HeldBy exited s p h = h

  -- A thread not yet started holds nothing.
  Held-start :
      (p : Phase) (g : Option M) (failed : List (Option L)) (active b : Bool)
      → p ≡ not_started
      → Held p g failed active
      → Held top g failed b
  Held-start p none failed active b e h = h
  Held-start p (some m) [] active b e h = absurd cc
  Held-start p (some m) (l ∷ ls) active b e (a, i, t) = absurd (not_started-is_started e t)

  Held-close :
      (p : Phase) (g : Option M) (failed : List (Option L)) (c : Option Bool)
      → Held p g failed (is_active c)
      → Held p g failed (is_active (Option.map (λ _. false) c))
  Held-close p none failed c h = h
  Held-close p (some m) [] c h = h
  Held-close p (some m) (l ∷ ls) none h = h
  Held-close p (some m) (l ∷ ls) (some b) (a, i, t) = (a, refl, t)

  Step-HeldBy : {s t : Sender M L} → Step log_message id true s t → HeldBy s → HeldBy t
  unfolding advance start stop close put other_poll
  Step-HeldBy {s} thread h = advance_at-HeldBy s.phase s refl h
  Step-HeldBy {s} (started b e) h = Held-start s.phase s.gelf_message s.failed _ b e h
  Step-HeldBy {s} stopped h = h
  Step-HeldBy {s} closed h = Held-close s.phase s.gelf_message s.failed s.channel h
  Step-HeldBy {s} (accepted m) h = h
  Step-HeldBy {s} taken h = h

  pub Reach-HeldBy :
      {queue : List M} {s : Sender M L} → Reach log_message id true queue s → HeldBy s
  Reach-HeldBy begin = refl
  Reach-HeldBy (later r t) = Step-HeldBy t (Reach-HeldBy r)
