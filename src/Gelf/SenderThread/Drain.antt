-- ===== src/Gelf/SenderThread/Drain.antt =====
-- org/graylog2/gelfclient/transport/GelfSenderThread.java: a connected thread empties the queue, and
-- the messages of the database are marked.
use logful_api.Base.{
  ℕ, zero, suc, ◌≡◌, refl, ◌∙◌, true, false, List, [], ◌∷◌, ◌++◌, Option, none, some, append_assoc,
  append-nil, length,
}
use logful_api.Gelf.SenderThread.{
  top, Sender, saved, advance, loop_test, await, poll, poll_queue, send, advance_at,
}

module _ {M L : Type 0} (log_message : M → Option L) (id : L → Option (List ℕ)) where
  -- A connected thread at the top of its loop.
  abbrev pub connected : List M → List M → List M → List (Option L) → List L → Sender M L
  connected queue polled written failed retried = record {
    phase = top;
    keep_running = true;
    interrupted = false;
    channel = some true;
    gelf_message = none;
    queue = queue;
    polled = polled;
    written = written;
    failed = failed;
    retried = retried;
  }

  -- A round of the outer loop: four steps.
  abbrev round : Sender M L → Sender M L
  round s = let go = advance log_message id true in go (go (go (go s)))

  abbrev pub rounds : ℕ → Sender M L → Sender M L
  rounds zero s = s
  rounds (suc n) s = rounds n (round s)

  -- The log messages that had an id, of the messages that carry one.
  abbrev pub retries : List M → List L
  retries [] = []
  retries (m ∷ q) = saved log_message id true (log_message m) ++ retries q

  round-connected :
      (m : M) (q p w : List M) (f : List (Option L)) (r : List L)
      → round (connected (m ∷ q) p w f r)
        ≡ connected q
            (p ++ (m ∷ []))
            (w ++ (m ∷ []))
            f
            (r ++ saved log_message id true (log_message m))
  unfolding advance advance_at loop_test await poll poll_queue send
  round-connected m q p w f r = refl

  -- Undisturbed, a connected thread takes and writes the whole queue, in order and in as many rounds
  -- as there are messages; the log messages with an id are reported as sent, and none as failed.
  pub rounds-connected :
      (q p w : List M) (f : List (Option L)) (r : List L)
      → rounds (length q) (connected q p w f r) ≡ connected [] (p ++ q) (w ++ q) f (r ++ retries q)
  rounds-connected [] p w f r = rw (append-nil p, append-nil w, append-nil r) refl
  rounds-connected (m ∷ q) p w f r =
      rw (rounds, round-connected m q p w f r)
        (rounds-connected q (p ++ (m ∷ [])) (w ++ (m ∷ [])) f
            (r ++ saved log_message id true (log_message m))
          ∙ rw
              (
                append_assoc p (m ∷ []) q,
                append_assoc w (m ∷ []) q,
                append_assoc r (saved log_message id true (log_message m)) (retries q),
              )
              refl)
