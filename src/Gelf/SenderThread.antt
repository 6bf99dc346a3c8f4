-- ===== src/Gelf/SenderThread.antt =====
-- org/graylog2/gelfclient/transport/GelfSenderThread.java: the thread that takes messages from the
-- queue and writes them to the channel, and what goes on around it. A step is what happens between
-- two points where another thread can act; the lock is held by one thread only but for `start`,
-- which comes first. The listener's methods return normally. A thread is started once: GelfTcpTransport makes a new one for each connection.
pub mod Steps
pub mod Held
pub mod Accounted
pub mod Handled
pub mod Drain
pub mod Exit
use mathlib.Core.Option
use logful_api.Base.{
  ℕ, Bool, true, false, List, [], ◌∷◌, ◌++◌, Option, none, some, if◌then◌else◌, drop,
}

-- Where the thread is: at the test of the outer loop, of the inner loop, before the poll, or behind it.
pub data Phase : Type 0 where
  not_started : Phase
  top : Phase
  waiting : Phase
  polling : Phase
  sending : Phase
  exited : Phase

-- The fields of the class, the local `gelfMessage`, the thread's interrupt flag and the shared queue.
-- The channel is null or active or not. `polled`, `written`, `failed` and `retried` are the messages
-- taken, the messages written to the channel, and the arguments of the two calls of the listener.
pub record Sender (M L : Type 0) : Type 0 where
  pub phase : Phase
  pub keep_running : Bool
  pub interrupted : Bool
  pub channel : Option Bool
  pub gelf_message : Option M
  pub queue : List M
  pub polled : List M
  pub written : List M
  pub failed : List (Option L)
  pub retried : List L

abbrev pub is_active : Option Bool → Bool
is_active none = false
is_active (some b) = b

abbrev pub fresh : {M L : Type 0} → List M → Sender M L
fresh queue = record {
  phase = not_started;
  keep_running = true;
  interrupted = false;
  channel = none;
  gelf_message = none;
  queue = queue;
  polled = [];
  written = [];
  failed = [];
  retried = [];
}

-- The getters of GelfMessage and LogMessage, and whether there is a listener.
module _ {M L : Type 0} (log_message : M → Option L) (id : L → Option (List ℕ))
    (listener : Bool) where
  unfoldable pub loop_test : Sender M L → Sender M L
  loop_test s = record s { phase = if s.keep_running then waiting else exited }

  -- `connectedCond.await()` until the channel is active, or an interrupt once the thread shall stop.
  unfoldable pub await : Sender M L → Sender M L
  await s =
      if is_active s.channel
      then record s { phase = polling }
      else if s.interrupted
      then record s { interrupted = false; phase = if s.keep_running then waiting else polling }
      else s

  -- `queue.poll`, unless a message lingers. An interrupt leaves the round.
  unfoldable pub poll_queue : List M → Sender M L → Sender M L
  poll_queue [] s = record s { phase = sending }
  poll_queue (m ∷ q) s = record s {
    gelf_message = some m;
    queue = q;
    polled = s.polled ++ (m ∷ []);
    phase = sending;
  }

  unfoldable pub poll : Option M → Sender M L → Sender M L
  unfolding poll_queue
  poll (some m) s = record s { phase = sending }
  poll none s =
      if s.interrupted then record s { interrupted = false; phase = top } else poll_queue s.queue s

  -- The log message, if it has been saved before.
  abbrev pub saved_id : Option (List ℕ) → Bool
  saved_id none = false
  saved_id (some []) = false
  saved_id (some (c ∷ s)) = true

  abbrev pub saved : Option L → List L
  saved none = []
  saved (some l) = if saved_id (id l) then l ∷ [] else []

  unfoldable pub send : Option M → Sender M L → Sender M L
  send none s = record s { phase = top }
  send (some m) s =
      if is_active s.channel
      then record s {
        written = s.written ++ (m ∷ []);
        retried = s.retried ++ (if listener then saved (log_message m) else []);
        gelf_message = none;
        phase = top;
      }
      else record s {
        failed = s.failed ++ (if listener then log_message m ∷ [] else []);
        phase = top;
      }

  unfoldable pub advance_at : Phase → Sender M L → Sender M L
  unfolding loop_test await poll send
  advance_at not_started s = s
  advance_at top s = loop_test s
  advance_at waiting s = await s
  advance_at polling s = poll s.gelf_message s
  advance_at sending s = send s.gelf_message s
  advance_at exited s = s

  unfoldable pub advance : Sender M L → Sender M L
  unfolding advance_at
  advance s = advance_at s.phase s

-- `start` of a thread not yet started, and `stop`: an interrupt of a thread not started is lost.
unfoldable pub start : {M L : Type 0} → Bool → Sender M L → Sender M L
start active s = record s { channel = some active; keep_running = true; phase = top }

abbrev pub is_started : Phase → Bool
is_started not_started = false
is_started _ = true

unfoldable pub stop : {M L : Type 0} → Sender M L → Sender M L
stop s = record s {
  keep_running = false;
  interrupted = if is_started s.phase then true else s.interrupted;
}

-- Netty closes the channel, which is never active again.
unfoldable pub close : {M L : Type 0} → Sender M L → Sender M L
close s = record s { channel = Option.map (λ _. false) s.channel }

-- `send` of the transport, and another sender's poll.
unfoldable pub put : {M L : Type 0} → M → Sender M L → Sender M L
put m s = record s { queue = s.queue ++ (m ∷ []) }

unfoldable pub other_poll : {M L : Type 0} → Sender M L → Sender M L
other_poll s = record s { queue = drop 1 s.queue }
