-- ===== src/Tests/Weed.antt =====
-- weed/WeedFSClientService.java and its threads, on a store that answers any file with the same.
use logful_api.Base.{ℕ, ◌≡◌, refl, true, false, [], ◌∷◌, ◌++◌, none, some, if◌then◌else◌, ◌==◌, All}
use logful_api.Base.Int.{pos}
use logful_api.ByteUtil.{Bytes}
use logful_api.StringUtil.{Text, codes, equals}
use logful_api.Weed.{
  FileMeta, WeedMeta, Weed, create_log, create_response, filename, exists, put_queue, put_pending,
  write, write_around, channel_read, channel_active,
}
use logful_api.Maps.{map_get, map_remove, map_put}
use logful_api.Weed.ReadThread.{Library, is_success, stored, read_round}
use logful_api.Weed.Steps.{idle, Reach, begin, later, written, activated, answered, read}
use logful_api.Weed.Open.{IsOpen}
use logful_api.Weed.Marks.{Reach-IsOpen}
use logful_api.Weed.Answers.{name_of, key_of, fid_of, size_of, IsNext, read_round-log}
use logful_api.Weed.Early.{answered as early_answer, IsQuiet, write_around-read_round}

-- What stands before the first dot.
base_name : Text → Text
base_name [] = []
base_name (c ∷ s) = let rest = base_name s in if c == b'.' then [] else c ∷ rest

library : Library Bytes
unfolding base_name
library = record {
  parse_json = λ b. some b;
  has = λ o k. true;
  opt_string = λ o k. if equals k (codes "fileName") then codes "a.log" else codes "3,01";
  opt_long = λ o k. pos 5;
  get_base_name = base_name;
}

abbrev log_meta : FileMeta ℕ
log_meta = record { fid = none; size = pos 0; rest = 42 }

abbrev file : WeedMeta ℕ
file = create_log 1 (codes "a") (codes "log") log_meta

abbrev reply : Bytes
reply = codes "yes"

abbrev answer : WeedMeta ℕ
answer = create_response 2 reply

-- The file is in the queue and pending, and its answer has come.
replied : Weed ℕ
replied = channel_read 2 201 reply (write file (channel_active idle))

handled : Weed ℕ
handled = read_round library replied

file-IsOpen : IsOpen file
file-IsOpen e = cc

reached : Reach library handled
unfolding handled replied
reached =
    later (later (later (later begin activated) (written file file-IsOpen)) (answered 2 201 reply))
      read

Reach-IsOpen_example : All IsOpen handled.queue_saved
Reach-IsOpen_example = Reach-IsOpen library handled reached

replied-IsNext : IsNext library reply answer [] replied
unfolding replied library channel_read write channel_active put_queue put_pending
replied-IsNext = record { next_answer = refl; readable = refl; success = refl; no_id = refl }

pending : map_get (key_of library reply) replied.meta_map ≡ some file
unfolding replied library base_name equals channel_read write channel_active put_queue put_pending
    map_get map_put map_remove
pending = refl

read_round-log_example :
    ((read_round library replied).log_saved
      ≡ replied.log_saved ++ (stored (fid_of library reply) (size_of library reply) log_meta ∷ []))
    × ((read_round library replied).attach_saved ≡ replied.attach_saved)
    × ((read_round library replied).crash_saved ≡ replied.crash_saved)
    × ((read_round library replied).queue_saved ≡ replied.queue_saved)
    × (map_get (key_of library reply) (read_round library replied).meta_map ≡ none)
    × (exists (name_of library reply) (read_round library replied).files ≡ false)
    × ((read_round library replied).read_queue ≡ [])
read_round-log_example =
    read_round-log library reply answer [] replied file log_meta replied-IsNext pending refl refl

abbrev quiet : Weed ℕ
quiet = record (idle {D = ℕ}) { connected = true; files = codes "a.log" ∷ [] }

quiet-IsQuiet : IsQuiet quiet
quiet-IsQuiet = record {
  is_connected = refl;
  no_error = refl;
  nothing_to_write = refl;
  nothing_to_read = refl;
  nothing_held = refl;
}

file_exists : exists (filename file) quiet.files ≡ true
unfolding exists equals
file_exists = refl

same_key : file.key ≡ some (key_of library reply)
unfolding library base_name equals
same_key = refl

readable : (library.parse_json reply ≡ some reply) × (is_success library reply ≡ true)
unfolding library
readable = (refl, refl)

nothing_pending : map_get (key_of library reply) quiet.meta_map ≡ none
unfolding map_get
nothing_pending = refl

write_around-read_round_example :
    let t = write_around (early_answer library 2 reply) file quiet in
    (t.requests ≡ codes "a.log" ∷ [])
    × (t.log_saved ≡ [])
    × (t.attach_saved ≡ [])
    × (t.crash_saved ≡ [])
    × (exists (name_of library reply) t.files ≡ false)
    × (map_get (key_of library reply) t.meta_map ≡ some file)
write_around-read_round_example =
    write_around-read_round library 2 b'y' (codes "es") reply file quiet quiet-IsQuiet file_exists
      same_key nothing_pending readable.0 readable.1
