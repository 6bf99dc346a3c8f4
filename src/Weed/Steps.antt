-- ===== src/Weed/Steps.antt =====
-- weed/WeedFSClientService.java and its threads: what can happen, in any order.
use logful_api.Base.{ℕ, ◌≢◌, [], ◌∷◌, none, false}
use logful_api.ByteUtil.{Bytes}
use logful_api.StringUtil.{Text}
use logful_api.Weed.{
  WeedMeta, Weed, state_successful, write, channel_read, channel_active, channel_inactive,
  reset_server_error,
}
use logful_api.Weed.ReadThread.{Library, read_round}
use logful_api.Weed.WriteThread.{poll_write, send_held}

abbrev pub idle : {D : Type 0} → Weed D
idle = record {
  connected = false;
  server_error = false;
  write_queue = [];
  read_queue = [];
  meta_map = [];
  files = [];
  held = none;
  requests = [];
  queue_saved = [];
  log_saved = [];
  attach_saved = [];
  crash_saved = [];
  messages = [];
}

module _ {D J : Type 0} (lib : Library J) where
  -- A file is written by a controller, the parser or the scheduled retry; none of them has marked
  -- its metadata as successful.
  pub data Step (s : Weed D) : Weed D → Type 0 where
    written : (m : WeedMeta D) → m.status ≢ state_successful → Step s (write m s)
    answered : (now code : ℕ) (content : Bytes) → Step s (channel_read now code content s)
    activated : Step s (channel_active s)
    inactivated : Step s (channel_inactive s)
    retried : Step s (reset_server_error s)
    uploaded : (file : Text) → Step s (record s { files = file ∷ s.files })
    polled : Step s (poll_write s)
    sent : Step s (send_held s)
    read : Step s (read_round lib s)

  pub data Reach : Weed D → Type 0 where
    begin : Reach idle
    later : {s t : Weed D} → Reach s → Step s t → Reach t
