-- ===== src/Schedule/Clear.antt =====
-- schedule/ScheduledTasks.java: `clearMemory` and `clearFiles`.
--
-- The walk over the directories is the list of the visits that Files.walkFileTree makes, each with
-- the time at which it is made, in milliseconds; the task starts at `start`. The time to live is not
-- negative, and its milliseconds fit a long.
pub mod Laws
use logful_api.Base.{
  ℕ, ◌+◌, Bool, true, false, not, ◌&&◌, List, [], ◌∷◌, ◌++◌, Option, none, some, if◌then◌else◌, leb,
}
use logful_api.StringUtil.{Text, codes}
use logful_api.Weed.{WeedMeta, Weed, shown, exists}

module _ {D : Type 0} where
  -- The file of an entry of the map.
  abbrev pub entry_file : Text → WeedMeta D → Text
  entry_file k m = k ++ (codes "." ++ shown m.extension)

  unfoldable pub clear_entries : List Text → List (Text × WeedMeta D) → List (Text × WeedMeta D)
  unfolding exists
  clear_entries files [] = []
  clear_entries files ((k, m) ∷ es) =
      let rest = clear_entries files es in
      if exists (entry_file k m) files then (k, m) ∷ rest else rest

  unfoldable pub clear_memory : Weed D → Weed D
  unfolding clear_entries
  clear_memory w = record w { meta_map = clear_entries w.files w.meta_map }

pub record FileAttributes : Type 0 where
  pub name : Text
  pub regular : Bool
  pub hidden : Bool
  pub created : ℕ

-- A visit of a file also says whether a deletion of it would return.
pub data Visit : Type 0 where
  pre_visit_directory : ℕ → Visit
  visit_file : ℕ → FileAttributes → Bool → Visit
  visit_file_failed : Visit
  post_visit_directory : ℕ → Visit

abbrev pub max_exec_millisecond : ℕ
max_exec_millisecond = 3600000

abbrev pub is_expired : ℕ → ℕ → FileAttributes → Bool
is_expired ttl now f = f.regular && (not f.hidden && leb (f.created + ttl) now)

module _ (start ttl : ℕ) where
  -- What is deleted behind a visit: nothing, if it ends the walk.
  abbrev pub go_on : ℕ → List FileAttributes → List FileAttributes
  go_on now rest = if leb (start + max_exec_millisecond) now then [] else rest

  -- A deletion that throws ends the walk.
  abbrev pub on_deleted : FileAttributes → Bool → List FileAttributes → List FileAttributes
  on_deleted f true rest = f ∷ rest
  on_deleted f false rest = []

  -- The files that are deleted, in order.
  unfoldable pub clear_files : List Visit → List FileAttributes
  clear_files [] = []
  clear_files (pre_visit_directory now ∷ vs) = go_on now (clear_files vs)
  clear_files (visit_file now f deletable ∷ vs) =
      let rest = go_on now (clear_files vs) in
      if is_expired ttl now f then on_deleted f deletable rest else rest
  clear_files (visit_file_failed ∷ vs) = []
  clear_files (post_visit_directory now ∷ vs) = go_on now (clear_files vs)
