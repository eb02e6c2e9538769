-- ===== src/Platform/UpdateJobs/Batch.antt =====
-- The goroutines of CreateMiddlewareUpdateBatch as a step relation: each of them starts its item
-- and finishes it, progress is reported once it has started, and their steps may come in any order.
use ygate_git.Base.{
  ◌≡◌, ◌≢◌, refl, sym, Bool, true, false, not, Bool-cases, inl, inr, Option, none, some, List, [],
  ◌∷◌, ◌++◌, append-nil, append_assoc, ◌∙◌, subst, All-append, All-weaken, map, All, some_item,
  if◌then◌else◌, arith,
}
use ygate_git.Base.Int.{ℤ}
use ygate_git.Base.Text.{Text, text_eq, text_eq_iff}
use ygate_git.Middleware.Store.File.{map_get, map_put}
use ygate_git.Middleware.Service.Heartbeat.{map_get-put}
use ygate_git.Platform.UpdateJobs.{
  UpdateStatus, pending, running, succeeded, failed, UpdateItem, UpdateJob, pending_item,
  pending_items, new_job, start_item, scan_items, settle_job, finished_item, finish_item,
  update_progress, or_blank,
}

-- What a goroutine has done, and whether its update succeeded.
pub data Phase : Type 0 where
  waiting : Phase
  working : Phase
  done : Bool → Phase

pub record BatchState : Type 0 where
  pub job : UpdateJob
  pub workers : List (Text × Phase)

pub data Step : BatchState → BatchState → Type 0 where
  starts :
      (s : BatchState) (id : Text) (now : ℤ)
      → map_get id s.workers ≡ some waiting
      → Step s (record { job = start_item id now s.job; workers = map_put id working s.workers })
  -- Progress can still be reported after the goroutine has finished its item.
  reports :
      (s : BatchState) (id phase : Text) (downloaded total : ℤ) (p : Phase)
      → map_get id s.workers ≡ some p
      → p ≢ waiting
      → Step s (record s { job = update_progress id phase downloaded total s.job })
  finishes :
      (s : BatchState) (id reason : Text) (is_ok : Bool) (now : ℤ)
      → map_get id s.workers ≡ some working
      → Step s (record {
        job = finish_item id is_ok reason now s.job;
        workers = map_put id (done is_ok) s.workers;
      })

pub data Reach (s : BatchState) : BatchState → Type 0 where
  begin : Reach s s
  next : {t u : BatchState} → Reach s t → Step t u → Reach s u

-- The batch when its goroutines were started. Its ids are different: two goroutines of one id would be
-- two workers that share an item.
unfoldable pub new_batch : Text → Text → Text → List Text → ℤ → BatchState
new_batch id action patch_id middleware_ids now = record {
  job = new_job id action patch_id middleware_ids now;
  workers = map (λ (id : Text). (id, waiting)) middleware_ids;
}

-- The status that an item has while its goroutine is in a phase.
abbrev status_in : Phase → UpdateStatus
status_in waiting = pending
status_in working = running
status_in (done true) = succeeded
status_in (done false) = failed

abbrev is_done : Phase → Bool
is_done (done is_ok) = true
is_done _ = false

abbrev pub has_failed : Phase → Bool
has_failed (done false) = true
has_failed _ = false

-- Each item belongs to the goroutine at its place, and has the status of its phase.
abbrev Matches : List (Text × Phase) → List (Text × UpdateItem) → Type 0
Matches [] [] = Unit
Matches [] (i ∷ is) = ⊥
Matches (w ∷ ws) [] = ⊥
Matches ((k, p) ∷ ws) ((j, item) ∷ is) = (k ≡ j) × (item.status ≡ status_in p) × Matches ws is

put-Matches :
    (id : Text) (p : Phase) (item : UpdateItem) (ws : List (Text × Phase))
    (is : List (Text × UpdateItem))
    → item.status ≡ status_in p
    → Matches ws is
    → Matches (map_put id p ws) (map_put id item is)
unfolding map_put
put-Matches id p item [] [] e h = (refl, e, tt)
put-Matches id p item [] (i ∷ is) e h = absurd h
put-Matches id p item (w ∷ ws) [] e h = absurd h
put-Matches id p item ((k, q) ∷ ws) ((j, old) ∷ is) e (same, status, rest) =
    elim (Bool-cases (text_eq k id)) [
      | inl here ↦ rw (sym same, here) (refl, e, rest)
      | inr there ↦ rw (sym same, there) (refl, status, put-Matches id p item ws is e rest)
    ]

-- The item of a goroutine has the status of its phase.
get-Matches :
    (id : Text) (p : Phase) (ws : List (Text × Phase)) (is : List (Text × UpdateItem))
    → map_get id ws ≡ some p
    → Matches ws is
    → (or_blank (map_get id is)).status ≡ status_in p
unfolding map_get
get-Matches id p [] [] e h = absurd (cc)
get-Matches id p [] (i ∷ is) e h = absurd h
get-Matches id p (w ∷ ws) [] e h = absurd h
get-Matches id p ((k, q) ∷ ws) ((j, item) ∷ is) e (same, status, rest) =
    elim (Bool-cases (text_eq k id)) [
      | inl here ↦ rw (sym same, here) (ground arith)
      | inr there ↦ rw (sym same, there) (get-Matches id p ws is (ground arith) rest)
    ]

-- What a job is said to be while its goroutines are in these phases.
abbrev pub verdict : List (Text × Phase) → UpdateStatus
verdict ws =
    if some_item (λ (w : Text × Phase). not (is_done w.1)) ws
    then running
    else if some_item (λ (w : Text × Phase). has_failed w.1) ws
    then failed
    else succeeded

abbrev pub IsDistinct : List Text → Type 0
IsDistinct [] = Unit
IsDistinct (id ∷ ids) = All (λ (other : Text). id ≢ other) ids × IsDistinct ids

put_new :
    (id : Text) (p : Phase) (ws : List (Text × Phase))
    → All (λ (w : Text × Phase). w.0 ≢ id) ws
    → map_put id p ws ≡ ws ++ ((id, p) ∷ [])
unfolding map_put
put_new id p [] h = refl
put_new id p ((k, q) ∷ ws) h = elim (Bool-cases (text_eq k id)) [
  | inl here ↦ absurd (h.0 ((text_eq_iff k id).0 here))
  | inr there ↦ rw (there, put_new id p ws h.1) refl
]

-- The goroutines so far have other ids than those that are still to come.
abbrev AreFresh : List (Text × Phase) → List Text → Type 0
AreFresh ws ids = All (λ (w : Text × Phase). All (λ (id : Text). w.0 ≢ id) ids) ws

pending_status : (id : Text) → (pending_item id).status ≡ pending
unfolding pending_item
pending_status id = refl

new-Matches :
    (ids : List Text) (ws : List (Text × Phase)) (is : List (Text × UpdateItem))
    → Matches ws is
    → AreFresh ws ids
    → IsDistinct ids
    → Matches (ws ++ map (λ (id : Text). (id, waiting)) ids) (pending_items is ids)
unfolding pending_items
new-Matches [] ws is h fresh distinct = rw append-nil h
new-Matches (id ∷ ids) ws is h fresh distinct =
    let grown = ws ++ ((id, waiting) ∷ []) in
    let first : All (λ (w : Text × Phase). w.0 ≢ id) ws = All-weaken _ _ (λ w f. f.0) ws fresh in
    let matched : Matches grown (map_put id (pending_item id) is) =
      subst (λ (vs : List (Text × Phase)). Matches vs (map_put id (pending_item id) is))
        (put_new id waiting ws first)
        (put-Matches id waiting (pending_item id) ws is (pending_status id) h) in
    let rest_fresh : AreFresh grown ids =
      All-append _ ws ((id, waiting) ∷ []) (All-weaken _ _ (λ w f. f.1) ws fresh)
        (distinct.0, tt) in
    rw (sym (append_assoc ws ((id, waiting) ∷ []) (map (λ (i : Text). (i, waiting)) ids)))
      (new-Matches ids grown (map_put id (pending_item id) is) matched rest_fresh distinct.1)

keep_failed :
    (ws : List (Text × Phase))
    → (if some_item (λ (w : Text × Phase). not (is_done w.1)) ws
        then none
        else some (if some_item (λ (w : Text × Phase). has_failed w.1) ws then failed else failed))
      ≡ (if some_item (λ (w : Text × Phase). not (is_done w.1)) ws then none else some failed)
keep_failed ws = ground arith

scan_items_lem :
    (so_far : UpdateStatus) (ws : List (Text × Phase)) (is : List (Text × UpdateItem))
    → Matches ws is
    → scan_items so_far is ≡ (
        if some_item (λ (w : Text × Phase). not (is_done w.1)) ws
        then none
        else some (if some_item (λ (w : Text × Phase). has_failed w.1) ws then failed else so_far))
unfolding scan_items some_item
scan_items_lem so_far [] [] h = refl
scan_items_lem so_far [] (i ∷ is) h = absurd h
scan_items_lem so_far (w ∷ ws) [] h = absurd h
scan_items_lem so_far ((k, waiting) ∷ ws) ((j, item) ∷ is) (same, status, rest) = rw status refl
scan_items_lem so_far ((k, working) ∷ ws) ((j, item) ∷ is) (same, status, rest) = rw status refl
scan_items_lem so_far ((k, done true) ∷ ws) ((j, item) ∷ is) (same, status, rest) =
    rw status (scan_items_lem so_far ws is rest)
scan_items_lem so_far ((k, done false) ∷ ws) ((j, item) ∷ is) (same, status, rest) =
    rw status (scan_items_lem failed ws is rest ∙ keep_failed ws)

-- While a goroutine is not done, the verdict is `running`.
not_done :
    (id : Text) (p : Phase) (ws : List (Text × Phase))
    → is_done p ≡ false
    → map_get id ws ≡ some p
    → verdict ws ≡ running
unfolding map_get some_item
not_done id p [] e h = absurd (cc)
not_done id p ((k, q) ∷ ws) e h = elim (Bool-cases (text_eq k id)) [
  | inl here ↦ ground arith
  | inr there ↦ ground (arith, not_done id p ws e (ground arith))
]

record IsBatch (s : BatchState) : Type 0 where
  items_match : Matches s.workers s.job.items
  status_is : s.job.status ≡ verdict s.workers

settle_job-status :
    (ws : List (Text × Phase)) (now : ℤ) (job : UpdateJob)
    → (settle_job
        (if some_item (λ (w : Text × Phase). not (is_done w.1)) ws
          then none
          else some
              (if some_item (λ (w : Text × Phase). has_failed w.1) ws then failed else succeeded))
        now
        job).status
      ≡ verdict ws
settle_job-status ws now job =
    elim (Bool-cases (some_item (λ (w : Text × Phase). not (is_done w.1)) ws)) [
      | inl waits ↦ rw waits refl
      | inr over ↦ rw over refl
    ]

settle_job-items :
    (o : Option UpdateStatus) (now : ℤ) (job : UpdateJob) → (settle_job o now job).items ≡ job.items
settle_job-items none now job = refl
settle_job-items (some status) now job = refl

put_same :
    (id : Text) (p : Phase) (ws : List (Text × Phase))
    → map_get id ws ≡ some p
    → map_put id p ws ≡ ws
unfolding map_get map_put
put_same id p [] h = absurd (cc)
put_same id p ((k, q) ∷ ws) h = elim (Bool-cases (text_eq k id)) [
  | inl here ↦ rw here (cc)
  | inr there ↦ rw (there, put_same id p ws (ground arith)) refl
]

start_item-IsBatch :
    (s : BatchState) (id : Text) (now : ℤ)
    → map_get id s.workers ≡ some waiting
    → IsBatch s
    → IsBatch (record { job = start_item id now s.job; workers = map_put id working s.workers })
unfolding start_item
start_item-IsBatch s id now h inv = record {
  items_match = put-Matches id working _ s.workers s.job.items refl inv.items_match;
  status_is =
      inv.status_is
      ∙ not_done id waiting s.workers refl h
      ∙ sym (
          not_done id working (map_put id working s.workers) refl
            (map_get-put id working s.workers));
}

update_progress-IsBatch :
    (s : BatchState) (id phase : Text) (downloaded total : ℤ) (p : Phase)
    → map_get id s.workers ≡ some p
    → IsBatch s
    → IsBatch (record s { job = update_progress id phase downloaded total s.job })
unfolding update_progress
update_progress-IsBatch s id phase downloaded total p h inv = record {
  items_match =
      subst
        (λ (ws : List (Text × Phase)).
          Matches ws (update_progress id phase downloaded total s.job).items)
        (put_same id p s.workers h)
        (put-Matches id p _ s.workers s.job.items
          (get-Matches id p s.workers s.job.items h inv.items_match) inv.items_match);
  status_is = inv.status_is;
}

status-finished_item :
    (is_ok : Bool) (reason : Text) (now : ℤ) (item : UpdateItem)
    → (finished_item is_ok reason now item).status ≡ status_in (done is_ok)
unfolding finished_item
status-finished_item true reason now item = refl
status-finished_item false reason now item = refl

finish_item-IsBatch :
    (s : BatchState) (id reason : Text) (is_ok : Bool) (now : ℤ)
    → IsBatch s
    → IsBatch (record {
      job = finish_item id is_ok reason now s.job;
      workers = map_put id (done is_ok) s.workers;
    })
unfolding finish_item
finish_item-IsBatch s id reason is_ok now inv =
    let item = finished_item is_ok reason now (or_blank (map_get id s.job.items)) in
    let items = map_put id item s.job.items in
    let ws = map_put id (done is_ok) s.workers in
    let matched : Matches ws items =
      put-Matches id (done is_ok) item s.workers s.job.items
        (status-finished_item is_ok reason now (or_blank (map_get id s.job.items)))
        inv.items_match in
    record {
      items_match =
          rw (settle_job-items (scan_items succeeded items) now (record s.job { items = items }))
            matched;
      status_is =
          rw (scan_items_lem succeeded ws items matched)
            (settle_job-status ws now (record s.job { items = items }));
    }

Step-IsBatch : {s t : BatchState} → Step s t → IsBatch s → IsBatch t
Step-IsBatch (starts s id now h) inv = start_item-IsBatch s id now h inv
Step-IsBatch (reports s id phase downloaded total p h started) inv =
    update_progress-IsBatch s id phase downloaded total p h inv
Step-IsBatch (finishes s id reason is_ok now h) inv = finish_item-IsBatch s id reason is_ok now inv

Reach-IsBatch : {s t : BatchState} → IsBatch s → Reach s t → IsBatch t
Reach-IsBatch h begin = h
Reach-IsBatch h (next before step) = Step-IsBatch step (Reach-IsBatch h before)

new_batch-IsBatch :
    (job_id action patch_id id : Text) (ids : List Text) (now : ℤ)
    → IsDistinct (id ∷ ids)
    → IsBatch (new_batch job_id action patch_id (id ∷ ids) now)
unfolding new_batch new_job some_item
new_batch-IsBatch job_id action patch_id id ids now distinct = record {
  items_match = new-Matches (id ∷ ids) [] [] tt tt distinct;
  status_is = refl;
}

-- Whatever the order in which the goroutines of a batch of different gateways take their steps, the
-- job is `running` while one of them is not done, and after that `failed` if an update failed, and
-- else `succeeded`.
pub new_batch-status :
    (job_id action patch_id id : Text) (ids : List Text) (now : ℤ) {s : BatchState}
    → IsDistinct (id ∷ ids)
    → Reach (new_batch job_id action patch_id (id ∷ ids) now) s
    → s.job.status ≡ verdict s.workers
new_batch-status job_id action patch_id id ids now distinct run =
    (Reach-IsBatch (new_batch-IsBatch job_id action patch_id id ids now distinct) run).status_is
