-- ===== src/Gelf/SenderThread/Handled.antt =====
-- org/graylog2/gelfclient/transport/GelfSenderThread.java: what has become of the messages that
-- the thread took from the queue, whatever the order of the steps.
use logful_api.Base.{
  ℕ, ◌≡◌, ◌⊎◌, inl, inr, refl, ◌∙◌, true, false, List, [], ◌∷◌, ◌++◌, Option, none, some, ◌≢◌,
  append-nil,
}
use logful_api.Gelf.SenderThread.{sending, Sender, is_active}
use logful_api.Gelf.SenderThread.Steps.{Reach}
use logful_api.Gelf.SenderThread.Held.{AllAre, Held, Reach-HeldBy}
use logful_api.Gelf.SenderThread.Accounted.{to_list, Reach-Accounted}

module _ {M L : Type 0} (log_message : M → Option L) (id : L → Option (List ℕ)) where
  -- All that was taken has been written, and nothing reported; or all but the last, which alone was
  -- reported, once or more, and the channel is closed.
  abbrev pub Handled : Sender M L → Type 0
  Handled s =
      ((s.polled ≡ s.written) × (s.failed ≡ []))
      ⊎ ((m : M) × (s.polled ≡ s.written ++ (m ∷ []))
          × (s.failed ≢ [])
          × AllAre (log_message m) s.failed
          × (is_active s.channel ≡ false))

  Handled-Held :
      (g : Option M) (s : Sender M L) (failed : List (Option L))
      → s.failed ≡ failed
      → s.phase ≢ sending
      → s.polled ≡ s.written ++ to_list g
      → Held log_message id s.phase g failed (is_active s.channel)
      → Handled s
  Handled-Held none s failed e n a h = inl (a ∙ append-nil s.written, e ∙ h)
  Handled-Held (some m) s [] e n a h = absurd (n h)
  Handled-Held (some m) s (l ∷ ls) e n a (all, i, t) = inr (m, a, λ f. cc, rw e all, i)

  -- Whatever the order of the steps, outside the sending of a message each message that the thread
  -- took from the queue has been written once and in order, and none was reported as failed; or this
  -- holds of all but the last, the only one that was reported as failed, and the channel is closed.
  pub Reach-Handled :
      (queue : List M) (s : Sender M L)
      → Reach log_message id true queue s
      → s.phase ≢ sending
      → Handled s
  Reach-Handled queue s r n =
      Handled-Held s.gelf_message s s.failed refl n (Reach-Accounted log_message id r)
        (Reach-HeldBy log_message id r)
