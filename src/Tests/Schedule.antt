-- ===== src/Tests/Schedule.antt =====
-- schedule/ScheduledTasks.java.
use logful_api.Base.{ℕ, ◌≡◌, refl, Bool, true, [], ◌∷◌, none, some}
use logful_api.Base.Int.{pos}
use logful_api.StringUtil.{Text, codes}
use logful_api.CryptoTool.{drop_empty_end, is_empty}
use logful_api.Weed.{WeedMeta, Weed, create_log, reset_server_error}
use logful_api.Maps.{map_get}
use logful_api.Weed.Steps.{idle}
use logful_api.Layout.{
  LayoutMap, get_layout, lookup_layout, keep_layout, new_layout, add_elements, add_element,
  split_on, pieces_on,
}
use logful_api.Graylog.{Numbers, LogMessage}
use logful_api.Graylog.Client.{Client, thrown, create_message, with_layout}
use logful_api.Schedule.{retry_put_queue}
use logful_api.Maps.Laws.{IsDistinct}
use logful_api.Schedule.Clear.{clear_memory}
use logful_api.Schedule.Clear.Laws.{with_file, map_get-clear_memory}
use logful_api.Schedule.Retry.{retry_put_queue-thrown}

numbers : Numbers ℕ
numbers = record { digit = λ c. none; parse_double = λ t. none; seconds = λ z. 0 }

first_key : LayoutMap → Text
first_key [] = []
first_key ((k, layout) ∷ m) = k

abbrev service : Bool → Client ℕ
service connected = record { connected = connected; queue = []; saved = []; layouts = [] }

-- A message whose template has no commas.
abbrev untyped : LogMessage
untyped = record {
  platform = none;
  uid = none;
  app_id = none;
  logger_name = none;
  timestamp = pos 5;
  tag = none;
  message = some (codes "text");
  msg_layout = some (codes "bad");
  level = pos 3;
  alias = none;
  attachment = none;
}

abbrev file : WeedMeta ℕ
file = create_log 1 (codes "a") (codes "log") (record { fid = none; size = pos 0; rest = 42 })

abbrev store : Weed ℕ
store = record (idle {D = ℕ}) { connected = true; server_error = true }

throws :
    (create_message numbers first_key untyped.message untyped (service true).layouts).1 ≡ thrown
unfolding create_message with_layout get_layout lookup_layout keep_layout new_layout add_elements
    add_element split_on pieces_on drop_empty_end is_empty map_get
throws = refl

retry_put_queue-thrown_example :
    ((retry_put_queue numbers first_key (untyped ∷ []) (file ∷ []) (service true) store).0.queue
      ≡ [])
    × ((retry_put_queue numbers first_key (untyped ∷ []) (file ∷ []) (service true) store).0.saved
        ≡ [])
    × ((retry_put_queue numbers first_key (untyped ∷ []) (file ∷ []) (service true) store).1
        ≡ reset_server_error store)
retry_put_queue-thrown_example =
    retry_put_queue-thrown numbers first_key untyped [] (file ∷ []) (service true) store refl throws

-- A file is pending that is not in the directory.
abbrev forgotten : Weed ℕ
forgotten = record (idle {D = ℕ}) { meta_map = (codes "a", file) ∷ [] }

forgotten-IsDistinct : IsDistinct forgotten.meta_map
unfolding map_get
forgotten-IsDistinct = (refl, tt)

map_get-clear_memory_example :
    (map_get (codes "a") (clear_memory forgotten).meta_map
      ≡ with_file forgotten.files (codes "a") (map_get (codes "a") forgotten.meta_map))
    × IsDistinct (clear_memory forgotten).meta_map
map_get-clear_memory_example = map_get-clear_memory (codes "a") forgotten forgotten-IsDistinct
