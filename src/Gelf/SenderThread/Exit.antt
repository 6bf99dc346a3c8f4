-- ===== src/Gelf/SenderThread/Exit.antt =====
-- org/graylog2/gelfclient/transport/GelfSenderThread.java: a thread that is told to stop ends.
use logful_api.Base.{ℕ, zero, suc, ◌≡◌, arith, Bool, true, List, Option}
use logful_api.Gelf.SenderThread.{
  Phase, not_started, top, waiting, polling, sending, exited, Sender, is_started, advance,
  loop_test, await, poll, poll_queue, send, advance_at, stop,
}

module _ {M L : Type 0} (log_message : M → Option L) (id : L → Option (List ℕ))
    (listener : Bool) where
  abbrev pub steps : ℕ → Sender M L → Sender M L
  steps zero s = s
  steps (suc n) s = steps n (advance log_message id listener s)

  stop_at :
      (p : Phase) (k i : Bool) (c : Option Bool) (g : Option M) (q u w : List M)
      (f : List (Option L)) (r : List L)
      → is_started p ≡ true
      → (steps 5 (
          stop (record {
            phase = p;
            keep_running = k;
            interrupted = i;
            channel = c;
            gelf_message = g;
            queue = q;
            polled = u;
            written = w;
            failed = f;
            retried = r;
          }))).phase
        ≡ exited
  unfolding advance advance_at loop_test await poll poll_queue send stop
  stop_at not_started k i c g q u w f r h = ground arith
  stop_at top k i c g q u w f r h = ground arith
  stop_at waiting k i c g q u w f r h = ground arith
  stop_at polling k i c g q u w f r h = ground arith
  stop_at sending k i c g q u w f r h = ground arith
  stop_at exited k i c g q u w f r h = ground arith

  -- A started thread that is told to stop has left its loop after at most five steps, whatever it was
  -- doing and whether the channel is active or not.
  pub steps-stop : (s : Sender M L) → is_started s.phase ≡ true → (steps 5 (stop s)).phase ≡ exited
  steps-stop s h =
      stop_at s.phase s.keep_running s.interrupted s.channel s.gelf_message s.queue s.polled
        s.written s.failed s.retried h
