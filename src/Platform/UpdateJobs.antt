-- ===== src/Platform/UpdateJobs.antt =====
-- services/platform-api/internal/core/middleware_update_jobs.go: a batch of updates of gateways, each
-- in a goroutine of its own, and the job that reports their progress.
pub mod Batch
use ygate_git.Base.{
  ℕ, suc, ◌/◌, Bool, true, false, not, ◌&&◌, ◌||◌, if◌then◌else◌, Option, none, some, List, [], ◌∷◌,
  map, length, ltb, ◌==◌, Result, err, ok, guard, ◌>>◌,
}
use ygate_git.Base.Int.{ℤ, pos, negsuc, ◌-ℤ◌}
use ygate_git.Base.Text.{Text, lit, text_eq, is_empty}
use ygate_git.Middleware.Store.File.{map_get, map_put}

-- The status of an item or a job, and the empty one of an item that a map does not have.
pub data UpdateStatus : Type 0 where
  unset : UpdateStatus
  pending : UpdateStatus
  running : UpdateStatus
  succeeded : UpdateStatus
  failed : UpdateStatus

-- A time is absent where the code has the zero time.
pub record UpdateItem : Type 0 where
  pub middleware_id : Text
  pub status : UpdateStatus
  pub error : Text
  pub started_at : Option ℤ
  pub finished_at : Option ℤ
  pub duration_ms : ℤ
  pub phase : Text
  pub downloaded_bytes : ℤ
  pub total_bytes : ℤ

pub record UpdateJob : Type 0 where
  pub id : Text
  pub action : Text
  pub patch_id : Text
  pub status : UpdateStatus
  pub created_at : ℤ
  pub started_at : ℤ
  pub finished_at : Option ℤ
  pub duration_ms : ℤ
  pub items : List (Text × UpdateItem)

abbrev pub blank_item : UpdateItem
blank_item = record {
  middleware_id = [];
  status = unset;
  error = [];
  started_at = none;
  finished_at = none;
  duration_ms = pos 0;
  phase = [];
  downloaded_bytes = pos 0;
  total_bytes = pos 0;
}

-- Duration.Milliseconds of a number of nanoseconds, which rounds towards 0.
unfoldable pub to_milliseconds : ℤ → ℤ
to_milliseconds (pos n) = pos (n / 1000000)
to_milliseconds (negsuc n) = pos 0 -ℤ pos (suc n / 1000000)

-- `job.Items[middlewareID]`
abbrev pub or_blank : Option UpdateItem → UpdateItem
or_blank none = blank_item
or_blank (some item) = item

unfoldable pub pending_item : Text → UpdateItem
pending_item id = record blank_item { middleware_id = id; status = pending }

unfoldable pub pending_items : List (Text × UpdateItem) → List Text → List (Text × UpdateItem)
unfolding map_put pending_item
pending_items items [] = items
pending_items items (id ∷ ids) = pending_items (map_put id (pending_item id) items) ids

-- The job that middlewareUpdateJobStore.create makes.
unfoldable pub new_job : Text → Text → Text → List Text → ℤ → UpdateJob
unfolding pending_items
new_job id action patch_id middleware_ids now = record {
  id = id;
  action = action;
  patch_id = patch_id;
  status = running;
  created_at = now;
  started_at = now;
  finished_at = none;
  duration_ms = pos 0;
  items = pending_items [] middleware_ids;
}

unfoldable pub start_item : Text → ℤ → UpdateJob → UpdateJob
unfolding map_get map_put
start_item middleware_id now job =
    let item = or_blank (map_get middleware_id job.items) in
    record job {
      items =
          map_put middleware_id (record item { status = running; started_at = some now }) job.items;
    }

abbrev pub is_unfinished : UpdateStatus → Bool
is_unfinished pending = true
is_unfinished running = true
is_unfinished _ = false

abbrev pub is_failed : UpdateStatus → Bool
is_failed failed = true
is_failed _ = false

-- The loop over the items: nothing when it meets one that is not finished.
unfoldable pub scan_items : UpdateStatus → List (Text × UpdateItem) → Option UpdateStatus
scan_items so_far [] = some so_far
scan_items so_far ((id, item) ∷ rest) =
    let next = scan_items (if is_failed item.status then failed else so_far) rest in
    if is_unfinished item.status then none else next

-- The end of finishItem, where the job takes its status from the items.
abbrev pub settle_job : Option UpdateStatus → ℤ → UpdateJob → UpdateJob
settle_job none now job = record job { status = running }
settle_job (some status) now job = record job {
  status = status;
  finished_at = some now;
  duration_ms = to_milliseconds (now -ℤ job.started_at);
}

abbrev pub duration_since : Option ℤ → ℤ → ℤ → ℤ
duration_since none now before = before
duration_since (some t) now before = to_milliseconds (now -ℤ t)

-- What finishItem makes of its item.
unfoldable pub finished_item : Bool → Text → ℤ → UpdateItem → UpdateItem
finished_item is_ok reason now item = record item {
  finished_at = some now;
  duration_ms = duration_since item.started_at now item.duration_ms;
  status = if is_ok then succeeded else failed;
  error = if is_ok then item.error else reason;
}

unfoldable pub finish_item : Text → Bool → Text → ℤ → UpdateJob → UpdateJob
unfolding map_get map_put finished_item scan_items
finish_item middleware_id is_ok reason now job =
    let item = or_blank (map_get middleware_id job.items) in
    let items = map_put middleware_id (finished_item is_ok reason now item) job.items in
    settle_job (scan_items succeeded items) now (record job { items = items })

unfoldable pub update_progress : Text → Text → ℤ → ℤ → UpdateJob → UpdateJob
unfolding map_get map_put
update_progress middleware_id phase downloaded total job =
    let item = or_blank (map_get middleware_id job.items) in
    record job {
      items =
          map_put middleware_id
            (record item { phase = phase; downloaded_bytes = downloaded; total_bytes = total })
            job.items;
    }

-- middlewareUpdateJobStore: the jobs by their id.
abbrev pub JobStore : Type 0
JobStore = List (Text × UpdateJob)

unfoldable pub create : Text → Text → Text → List Text → ℤ → JobStore → JobStore × UpdateJob
unfolding map_put new_job
create id action patch_id middleware_ids now jobs =
    let job = new_job id action patch_id middleware_ids now in (map_put id job jobs, job)

abbrev put_job : Text → (UpdateJob → UpdateJob) → Option UpdateJob → JobStore → JobStore
put_job id f none jobs = jobs
put_job id f (some job) jobs = map_put id (f job) jobs

-- The methods change the job of an id, and do nothing when there is none.
unfoldable pub on_job : Text → (UpdateJob → UpdateJob) → JobStore → JobStore
unfolding map_get
on_job id f jobs = put_job id f (map_get id jobs) jobs

unfoldable pub get : Text → JobStore → Option UpdateJob
unfolding map_get
get id jobs = map_get id jobs

pub data BatchError : Type 0 where
  forbidden : BatchError
  invalid : BatchError
  patch_not_found : BatchError

-- The tests at the beginning of CreateMiddlewareUpdateBatch.
unfoldable pub check_batch : Bool → Text → Text → List Text → Result BatchError (Unit {0})
unfolding text_eq is_empty
check_batch permitted action patch_id middleware_ids =
    guard permitted forbidden
    >> guard (text_eq action (lit "stage") || text_eq action (lit "apply")) invalid
    >> guard (not (text_eq action (lit "stage") && is_empty patch_id)) patch_not_found
    >> guard (not (length middleware_ids == 0 || ltb 100 (length middleware_ids))) invalid
