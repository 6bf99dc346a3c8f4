-- ===== src/Gelf/SenderThread/Accounted.antt =====
-- org/graylog2/gelfclient/transport/GelfSenderThread.java: the messages that the thread took are
-- the ones that it wrote, and the one that it holds.
use logful_api.Base.{
  ℕ, ◌≡◌, refl, ap, true, List, [], ◌∷◌, ◌++◌, Option, none, some, if-cases, append-nil,
}
use logful_api.Gelf.SenderThread.{
  Phase, not_started, top, waiting, polling, sending, exited, Sender, is_active, advance, start,
  stop, close, put, other_poll, loop_test, await, poll, poll_queue, send, advance_at,
}
use logful_api.Gelf.SenderThread.Steps.{
  Step, thread, started, stopped, closed, accepted, taken, Reach, begin, later,
}

abbrev pub to_list : {A : Type 0} → Option A → List A
to_list none = []
to_list (some a) = a ∷ []

module _ {M L : Type 0} (log_message : M → Option L) (id : L → Option (List ℕ)) where
  -- What the thread took has been written, but for the message in hand.
  abbrev pub Accounted : Sender M L → Type 0
  Accounted s = s.polled ≡ s.written ++ to_list s.gelf_message

  await-Accounted : (s : Sender M L) → Accounted s → Accounted (await log_message id true s)
  unfolding await
  await-Accounted s h =
      if-cases Accounted (is_active s.channel) (λ a. h)
        (λ a. if-cases Accounted s.interrupted (λ i. h) (λ i. h))

  poll_queue-Accounted :
      (q : List M) (s : Sender M L)
      → s.gelf_message ≡ none
      → Accounted s
      → Accounted (poll_queue log_message id true q s)
  unfolding poll_queue
  poll_queue-Accounted [] s e h = h
  poll_queue-Accounted (m ∷ q) s e h = ap (λ l. l ++ (m ∷ [])) (rw (e, append-nil s.written) at h)

  poll-Accounted :
      (g : Option M) (s : Sender M L)
      → s.gelf_message ≡ g
      → Accounted s
      → Accounted (poll log_message id true g s)
  unfolding poll
  poll-Accounted (some m) s e h = h
  poll-Accounted none s e h =
      if-cases Accounted s.interrupted (λ i. h) (λ i. poll_queue-Accounted s.queue s e h)

  send-Accounted :
      (g : Option M) (s : Sender M L)
      → s.gelf_message ≡ g
      → Accounted s
      → Accounted (send log_message id true g s)
  unfolding send
  send-Accounted none s e h = h
  send-Accounted (some m) s e h =
      if-cases Accounted (is_active s.channel)
        (λ a. rw (append-nil (s.written ++ (m ∷ []))) (rw e at h)) (λ a. h)

  advance_at-Accounted :
      (p : Phase) (s : Sender M L) → Accounted s → Accounted (advance_at log_message id true p s)
  unfolding advance_at loop_test
  advance_at-Accounted not_started s h = h
  advance_at-Accounted top s h = h
  advance_at-Accounted waiting s h = await-Accounted s h
  advance_at-Accounted polling s h = poll-Accounted s.gelf_message s refl h
  advance_at-Accounted sending s h = send-Accounted s.gelf_message s refl h
  advance_at-Accounted exited s h = h

  Step-Accounted : {s t : Sender M L} → Step log_message id true s t → Accounted s → Accounted t
  unfolding advance start stop close put other_poll
  Step-Accounted {s} thread h = advance_at-Accounted s.phase s h
  Step-Accounted {s} (started b e) h = h
  Step-Accounted {s} stopped h = h
  Step-Accounted {s} closed h = h
  Step-Accounted {s} (accepted m) h = h
  Step-Accounted {s} taken h = h

  pub Reach-Accounted :
      {queue : List M} {s : Sender M L} → Reach log_message id true queue s → Accounted s
  Reach-Accounted begin = refl
  Reach-Accounted (later r t) = Step-Accounted t (Reach-Accounted r)
