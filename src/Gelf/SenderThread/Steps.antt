-- ===== src/Gelf/SenderThread/Steps.antt =====
-- org/graylog2/gelfclient/transport/GelfSenderThread.java: what the thread has done with the messages
-- that it took from the queue, whatever the order of the steps.
use logful_api.Base.{ℕ, ◌≡◌, Bool, List, Option}
use logful_api.Gelf.SenderThread.{
  not_started, Sender, fresh, advance, start, stop, close, put, other_poll,
}

module _ {M L : Type 0} (log_message : M → Option L) (id : L → Option (List ℕ))
    (listener : Bool) where
  -- A step of the thread or of what is around it.
  pub data Step (s : Sender M L) : Sender M L → Type 0 where
    thread : Step s (advance log_message id listener s)
    started : (active : Bool) → s.phase ≡ not_started → Step s (start active s)
    stopped : Step s (stop s)
    closed : Step s (close s)
    accepted : (m : M) → Step s (put m s)
    taken : Step s (other_poll s)

  -- What a thread that begins with `queue` can come to.
  pub data Reach (queue : List M) : Sender M L → Type 0 where
    begin : Reach queue (fresh queue)
    later : {s t : Sender M L} → Reach queue s → Step s t → Reach queue t
