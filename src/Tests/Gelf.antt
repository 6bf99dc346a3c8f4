-- ===== src/Tests/Gelf.antt =====
-- org/graylog2/gelfclient.
use logful_api.Base.{ℕ, ◌≡◌, refl, ◌≢◌, true, Option, some, List, [], ◌∷◌}
use logful_api.Gelf.SenderThread.{
  Sender, not_started, sending, exited, fresh, advance, start, stop, close, put, is_started,
  advance_at, loop_test, await, poll, poll_queue, send,
}
use logful_api.Gelf.SenderThread.Steps.{Reach, begin, later, thread, started, closed, accepted}
use logful_api.Gelf.SenderThread.Handled.{Handled, Reach-Handled}
use logful_api.Gelf.SenderThread.Drain.{connected, rounds, rounds-connected}
use logful_api.Gelf.SenderThread.Exit.{steps, steps-stop}

-- Messages that are numbers, with the same number as their log message's id.
abbrev log : ℕ → Option ℕ
log n = some n

abbrev log_id : ℕ → Option (List ℕ)
log_id n = some (n ∷ [])

go : Sender ℕ ℕ → Sender ℕ ℕ
go s = advance log log_id true s

-- The channel is closed after the thread has seen it open and before it has polled.
abbrev interrupted_send : Sender ℕ ℕ
interrupted_send = go (go (close (go (go (start true (put 7 (fresh [])))))))

phase_fresh : (put 7 (fresh {M = ℕ} {L = ℕ} [])).phase ≡ not_started
unfolding put
phase_fresh = refl

start_started : is_started (start true (put 7 (fresh {M = ℕ} {L = ℕ} []))).phase ≡ true
unfolding put start
start_started = refl

reached : Reach log log_id true [] interrupted_send
unfolding go
reached =
    later
      (later
        (later
          (later (later (later (later begin (accepted 7)) (started true phase_fresh)) thread)
            thread)
          closed)
        thread)
      thread

not_sending : interrupted_send.phase ≢ sending
unfolding go advance advance_at loop_test await poll poll_queue send start close put
not_sending e = cc

Reach-Handled_example : Handled log log_id interrupted_send
Reach-Handled_example = Reach-Handled log log_id [] interrupted_send reached not_sending

reported : interrupted_send.failed ≡ some 7 ∷ []
unfolding go advance advance_at loop_test await poll poll_queue send start close put
reported = refl

rounds-connected_example :
    rounds log log_id 2 (connected log log_id (7 ∷ 8 ∷ []) [] [] [] [])
    ≡ connected log log_id [] (7 ∷ 8 ∷ []) (7 ∷ 8 ∷ []) [] (7 ∷ 8 ∷ [])
rounds-connected_example = rounds-connected log log_id (7 ∷ 8 ∷ []) [] [] [] []

steps-stop_example : (steps log log_id true 5 (stop (start true (put 7 (fresh []))))).phase ≡ exited
steps-stop_example = steps-stop log log_id true (start true (put 7 (fresh []))) start_started
