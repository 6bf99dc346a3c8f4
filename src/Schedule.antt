-- ===== src/Schedule.antt =====
-- schedule/ScheduledTasks.java: `retryPutQueue` takes the messages and the files that the database
-- still holds, the arguments `messages` and `metas`, and writes them again. The files' metadata have
-- their keys, so that no write of a file throws.
pub mod Retry
pub mod Clear
use logful_api.Base.{ℕ, Bool, true, false, List, [], ◌∷◌, if◌then◌else◌, take}
use logful_api.StringUtil.{Text}
use logful_api.Layout.{LayoutMap}
use logful_api.Graylog.{Numbers, LogMessage}
use logful_api.Graylog.Client.{Client, write_message}
use logful_api.Weed.{WeedMeta, Weed, write, reset_server_error}

abbrev pub page_limit : ℕ
page_limit = 2048

module _ {F : Type 0} (numbers : Numbers F) (next_key : LayoutMap → Text) where
  -- The loops. An exception ends the first one, and the task.
  abbrev pub if_returned : (Client F → Client F × Bool) → Client F × Bool → Client F × Bool
  if_returned k (c, false) = (c, false)
  if_returned k (c, true) = k c

  unfoldable pub send_all : List LogMessage → Client F → Client F × Bool
  send_all [] c = (c, true)
  send_all (l ∷ ls) c = if_returned (λ d. send_all ls d) (write_message numbers next_key l c)

module _ {D : Type 0} where
  unfoldable pub write_files : List (WeedMeta D) → Weed D → Weed D
  write_files [] w = w
  write_files (m ∷ ms) w = write_files ms (write m w)

module _ {D F : Type 0} (numbers : Numbers F) (next_key : LayoutMap → Text) where
  unfoldable pub retry_files : List (WeedMeta D) → Client F × Bool → Weed D → Client F × Weed D
  retry_files metas (c, false) w = (c, w)
  retry_files metas (c, true) w =
      (c, if w.connected then write_files (take page_limit metas) w else w)

  unfoldable pub retry_put_queue :
      List LogMessage → List (WeedMeta D) → Client F → Weed D → Client F × Weed D
  retry_put_queue messages metas c w =
      retry_files metas
        (if c.connected then send_all numbers next_key (take page_limit messages) c else (c, true))
        (reset_server_error w)
