-- ===== src/Graylog/Client.antt =====
-- parse/GraylogClientService.java: `createMessage` and `write`.
use logful_api.Base.{Bool, true, false, List, [], ◌∷◌, ◌++◌, Option, none, some, if◌then◌else◌}
use logful_api.StringUtil.{Text, codes}
use logful_api.Gelf.Level.{info}
use logful_api.Layout.{
  Items, LayoutMap, Found, no_layout, found, illegal_template, get_layout, split_on,
}
use logful_api.Graylog.{Fields, Numbers, LogMessage, GelfMessage, base_fields, put_columns}

-- What `createMessage` ends in. `thrown` is a message without a text, or a bad template.
pub data Created (F : Type 0) : Type 0 where
  created : GelfMessage F → Created F
  not_created : Created F
  thrown : Created F

-- The service: whether it is connected, the messages that the transport has been given by calls of
-- its `send`, in order, the messages saved in the database, and the kept layouts. The transport is
-- another project's: its `send` waits while its queue is full, and returns once it has room; it is
-- taken not to be interrupted.
pub record Client (F : Type 0) : Type 0 where
  pub connected : Bool
  pub queue : List (GelfMessage F)
  pub saved : List LogMessage
  pub layouts : LayoutMap

module _ {F : Type 0} (numbers : Numbers F) (next_key : LayoutMap → Text) where
  abbrev pub to_message : LogMessage → Text → Fields F → GelfMessage F
  to_message l msg fields = record {
    message = msg;
    host = codes "127.0.0.1";
    full_message = none;
    level = some info;
    timestamp = numbers.seconds l.timestamp;
    fields = fields;
    log_message = none;
  }

  abbrev pub finish : LogMessage → Text → Fields F × Bool → Created F
  finish l msg (fields, format_error) =
      if format_error then not_created else created (to_message l msg fields)

  abbrev pub columns_of : LogMessage → Text → Option Items → Fields F × Bool
  columns_of l msg layout = put_columns numbers layout 1 (split_on b'|' msg) (base_fields l, false)

  unfoldable pub with_layout : LogMessage → Text → Found → Created F
  with_layout l msg no_layout = finish l msg (columns_of l msg none)
  with_layout l msg (found layout) = finish l msg (columns_of l msg (some layout))
  with_layout l msg illegal_template = thrown

  unfoldable pub create_message : Option Text → LogMessage → LayoutMap → LayoutMap × Created F
  create_message none l m = (m, thrown)
  create_message (some msg) l m =
      let (m', layout) = get_layout next_key l.msg_layout m in (m', with_layout l msg layout)

  -- The second component is whether the call returns.
  unfoldable pub on_created : LayoutMap × Created F → Client F → Client F × Bool
  on_created (m, created message) s =
      (record s { queue = s.queue ++ (message ∷ []); layouts = m }, true)
  on_created (m, not_created) s = (record s { layouts = m }, true)
  on_created (m, thrown) s = (record s { layouts = m }, false)

  unfoldable pub write_message : LogMessage → Client F → Client F × Bool
  write_message l s =
      if s.connected
      then on_created (create_message l.message l s.layouts) s
      else (record s { saved = s.saved ++ (l ∷ []) }, true)
