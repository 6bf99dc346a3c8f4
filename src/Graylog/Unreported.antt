-- ===== src/Graylog/Unreported.antt =====
-- parse/GraylogClientService.java with org/graylog2/gelfclient/transport/GelfSenderThread.java: what
-- the sender reports of the service's messages.
use logful_api.Base.{
  ◌≡◌, refl, Bool, true, false, List, [], ◌∷◌, Option, none, some, if-cases, All, All-append,
}
use logful_api.StringUtil.{Text}
use logful_api.Layout.{LayoutMap, Found, no_layout, found, illegal_template, get_layout}
use logful_api.Graylog.{Fields, Numbers, LogMessage, GelfMessage}
use logful_api.Graylog.Client.{
  Client, Created, created, not_created, thrown, finish, columns_of, with_layout, create_message,
  on_created, write_message,
}
use logful_api.Gelf.SenderThread.Drain.{retries}

module _ {F : Type 0} where
  -- The message carries no log message.
  abbrev pub HasNoLog : GelfMessage F → Type 0
  HasNoLog m = m.log_message ≡ none

  abbrev MakesNoLog : Created F → Type 0
  MakesNoLog (created m) = HasNoLog m
  MakesNoLog not_created = Unit
  MakesNoLog thrown = Unit

  module _ (numbers : Numbers F) (next_key : LayoutMap → Text) where
    finish-MakesNoLog :
        (l : LogMessage) (msg : Text) (r : Fields F × Bool)
        → MakesNoLog (finish numbers next_key l msg r)
    finish-MakesNoLog l msg (m, true) = tt
    finish-MakesNoLog l msg (m, false) = refl

    with_layout-MakesNoLog :
        (l : LogMessage) (msg : Text) (f : Found)
        → MakesNoLog (with_layout numbers next_key l msg f)
    unfolding with_layout
    with_layout-MakesNoLog l msg no_layout =
        finish-MakesNoLog l msg (columns_of numbers next_key l msg none)
    with_layout-MakesNoLog l msg (found layout) =
        finish-MakesNoLog l msg (columns_of numbers next_key l msg (some layout))
    with_layout-MakesNoLog l msg illegal_template = tt

    create_message-MakesNoLog :
        (o : Option Text) (l : LogMessage) (m : LayoutMap)
        → MakesNoLog (create_message numbers next_key o l m).1
    unfolding create_message
    create_message-MakesNoLog none l m = tt
    create_message-MakesNoLog (some msg) l m =
        with_layout-MakesNoLog l msg (get_layout next_key l.msg_layout m).1

    on_created-HasNoLog :
        (m : LayoutMap) (c : Created F) (s : Client F)
        → MakesNoLog c
        → All HasNoLog s.queue
        → All HasNoLog (on_created numbers next_key (m, c) s).0.queue
    unfolding on_created
    on_created-HasNoLog m (created message) s h q =
        All-append HasNoLog s.queue (message ∷ []) q (h, tt)
    on_created-HasNoLog m not_created s h q = q
    on_created-HasNoLog m thrown s h q = q

    write_message-HasNoLog :
        (l : LogMessage) (s : Client F)
        → All HasNoLog s.queue
        → All HasNoLog (write_message numbers next_key l s).0.queue
    unfolding write_message
    write_message-HasNoLog l s q =
        if-cases (λ (t : Client F × Bool). All HasNoLog t.0.queue) s.connected
          (λ c. on_created-HasNoLog _ _ s (create_message-MakesNoLog l.message l s.layouts) q)
          (λ c. q)

    -- The log messages written one after another, by `write`.
    abbrev pub write_all : List LogMessage → Client F → Client F
    write_all [] s = s
    write_all (l ∷ ls) s = write_all ls (write_message numbers next_key l s).0

    write_all-HasNoLog :
        (ls : List LogMessage) (s : Client F)
        → All HasNoLog s.queue
        → All HasNoLog (write_all ls s).queue
    write_all-HasNoLog [] s q = q
    write_all-HasNoLog (l ∷ ls) s q =
        write_all-HasNoLog ls (write_message numbers next_key l s).0 (write_message-HasNoLog l s q)

    retries-HasNoLog :
        (id : LogMessage → Option Text) (q : List (GelfMessage F))
        → All HasNoLog q
        → retries (λ m. m.log_message) id q ≡ []
    retries-HasNoLog id [] h = refl
    retries-HasNoLog id (m ∷ q) (h, hs) = rw h (retries-HasNoLog id q hs)

    -- Whatever is written to a service with an empty queue: of the messages that come to its queue,
    -- the sender reports no log message as sent, also of those that had an id.
    pub retries-write_all :
        (id : LogMessage → Option Text) (ls : List LogMessage) (s : Client F)
        → s.queue ≡ []
        → retries (λ m. m.log_message) id (write_all ls s).queue ≡ []
    retries-write_all id ls s e =
        retries-HasNoLog id (write_all ls s).queue (write_all-HasNoLog ls s (rw e tt))
