-- ===== src/Middleware/Store/File/Outbox.antt =====
-- internal/store/file_arch.go: the outbox of readings that wait for delivery, and its logs.
use Prim.Native.Nat.{◌*◌, ◌^◌, ◌-◌, ◌+◌, min}
use mathlib.Core.List.{reverse}
use ygate_git.Base.{
  ℕ, suc, Bool, true, false, not, ◌&&◌, ◌||◌, Option, none, some, ok, err, List, [], ◌∷◌, ◌++◌,
  if◌then◌else◌, leb, some_item, keep, take, length, map,
}
use ygate_git.Base.Int.{ℤ, pos, negsuc, ◌+ℤ◌, ltb_ℤ, leb_ℤ, eqb_ℤ}
use ygate_git.Base.Text.{Text, lit, text_eq}
use ygate_git.Middleware.Domain.{PollLog, DeliveryLog}
use ygate_git.Middleware.Store.File.{
  Store, Saves, Outcome, Status, pending, retrying, delivered, dead_letter, OutboxRow,
  marshal_failed, commit, with_next_id,
}

-- `v.Status == "PENDING" || v.Status == "RETRYING"`
abbrev pub is_waiting : Status → Bool
is_waiting pending = true
is_waiting retrying = true
is_waiting delivered = false
is_waiting dead_letter = false

abbrev pub status_text : Status → Text
status_text pending = lit "PENDING"
status_text retrying = lit "RETRYING"
status_text delivered = lit "DELIVERED"
status_text dead_letter = lit "DEAD_LETTER"

-- The test in the loop of `Ready`.
unfoldable pub is_ready : ℤ → OutboxRow → Bool
is_ready now v = is_waiting v.status && leb_ℤ v.next_retry now

-- The loop of `Ready` on its rows: the bound is tested after a row is added, so a bound below 1
-- still gives one row.
unfoldable pub ready_rows : ℤ → ℕ → List OutboxRow → List OutboxRow
unfolding keep
ready_rows now limit rows = take (if leb 1 limit then limit else 1) (keep (is_ready now) rows)

-- The row of an id that was delivered, and its other fields.
unfoldable pub deliver_row : ℤ → ℤ → Text → OutboxRow → OutboxRow
deliver_row now http response v = record v {
  status = delivered;
  http_status = http;
  last_response = response;
  delivered_at = now;
}

-- The delay before the next attempt, in milliseconds.
unfoldable pub backoff : ℕ → ℕ
backoff attempts = 1000 * 2 ^ min (attempts - 1) 8

-- The row of an id whose delivery failed.
unfoldable pub fail_row : ℤ → ℤ → Text → Bool → OutboxRow → OutboxRow
fail_row now http msg retry v =
    let attempts = suc v.attempts in
    let v' = record v {
      attempts = attempts;
      http_status = http;
      last_error = msg;
      last_response = msg;
    } in
    if retry
    then record v' { status = retrying; next_retry = now +ℤ pos (backoff attempts) }
    else record v' { status = dead_letter }

-- The inner loop over the ids, on one row: a repeated id acts again.
unfoldable pub for_ids : (OutboxRow → OutboxRow) → List ℤ → OutboxRow → OutboxRow
for_ids f [] v = v
for_ids f (id ∷ ids) v = for_ids f ids (if eqb_ℤ v.id id then f v else v)

-- The rows that `ClearDeliveryLogs` and `CleanupOld` remove.
unfoldable pub is_finished : OutboxRow → Bool
is_finished v = not (is_waiting v.status)

unfoldable pub is_expired : ℤ → OutboxRow → Bool
is_expired cut v = elim v.status [
  | pending ↦ false
  | retrying ↦ false
  | delivered ↦ ltb_ℤ v.delivered_at cut
  | dead_letter ↦ ltb_ℤ v.created cut
]

-- The limit of the two log views.
abbrev pub log_limit : ℤ → ℕ
log_limit (pos n) = if leb n 500 && leb 1 n then n else 100
log_limit (negsuc n) = 100

module _ {F : Type 0} where
  -- `payload` is the reading as JSON, `none` when it cannot be encoded.
  unfoldable pub enqueue : Saves F → ℤ → Text → Text → Option Text → Store F → Outcome F Bool
  enqueue saves now key hash payload s =
      if some_item (λ (v : OutboxRow). text_eq v.key key) s.state.outbox
      then (ok false, s)
      else elim payload [
        | none ↦ (err marshal_failed, s)
        | some json ↦ commit saves true s (record (with_next_id s.state) {
          outbox =
              s.state.outbox
              ++ record {
                id = s.state.next_id;
                key = key;
                hash = hash;
                payload = json;
                status = pending;
                attempts = 0;
                http_status = pos 0;
                next_retry = pos 0;
                created = now;
                delivered_at = pos 0;
                last_error = [];
                last_response = [];
              }
                ∷ [];
        })
      ]

  unfoldable pub ready : ℤ → ℕ → Store F → List (ℤ × Text × ℕ)
  ready now limit s =
      map (λ (v : OutboxRow). (v.id, v.payload, v.attempts)) (ready_rows now limit s.state.outbox)

  -- The clock is read once for all rows.
  unfoldable pub delivered_with_response :
      Saves F → ℤ → List ℤ → ℤ → Text → Store F → Outcome F (Unit {0})
  delivered_with_response saves now ids http response s =
      commit saves tt s (record s.state {
        outbox = map (for_ids (deliver_row now http response) ids) s.state.outbox;
      })

  unfoldable pub failed : Saves F → ℤ → List ℤ → ℤ → Text → Bool → Store F → Outcome F (Unit {0})
  failed saves now ids http msg retry s =
      commit saves tt s
        (record s.state { outbox = map (for_ids (fail_row now http msg retry) ids) s.state.outbox })

  unfoldable pub delivery_logs : ℤ → Store F → List DeliveryLog
  delivery_logs limit s =
      map
        (λ (v : OutboxRow). record {
          id = v.id;
          idempotency_key = v.key;
          status = status_text v.status;
          attempts = v.attempts;
          last_http_status = v.http_status;
          last_error = v.last_error;
          last_response = v.last_response;
          created_at = v.created;
          delivered_at = v.delivered_at;
        })
        (take (log_limit limit) (reverse s.state.outbox))

  -- The result is the number of rows removed.
  unfoldable pub clear_delivery_logs : Saves F → Store F → Outcome F ℕ
  clear_delivery_logs saves s =
      commit saves (length (keep is_finished s.state.outbox)) s
        (record s.state { outbox = keep (λ v. not (is_finished v)) s.state.outbox })

  unfoldable pub save_poll_log : Saves F → ℤ → PollLog → Store F → Outcome F (Unit {0})
  save_poll_log saves now v s =
      let fresh = eqb_ℤ v.id (pos 0) in
      let v' = record v {
        id = if fresh then s.state.next_id else v.id;
        created_at = if eqb_ℤ v.created_at (pos 0) then now else v.created_at;
      } in
      let t = if fresh then with_next_id s.state else s.state in
      commit saves tt s (record t { poll_logs = t.poll_logs ++ v' ∷ [] })

  unfoldable pub poll_logs : ℤ → ℤ → Store F → List PollLog
  poll_logs cid limit s = take (log_limit limit) (
      keep (λ (v : PollLog). eqb_ℤ cid (pos 0) || eqb_ℤ v.connection_id cid)
        (reverse s.state.poll_logs))

  -- `cut` is the time before which a log is old: now less the retention.
  unfoldable pub cleanup_old : Saves F → ℤ → Store F → Outcome F ℕ
  cleanup_old saves cut s =
      let old_log = λ (v : PollLog). ltb_ℤ v.created_at cut in
      commit saves
        (length (keep (is_expired cut) s.state.outbox) + length (keep old_log s.state.poll_logs)) s
        (record s.state {
          outbox = keep (λ v. not (is_expired cut v)) s.state.outbox;
          poll_logs = keep (λ v. not (old_log v)) s.state.poll_logs;
        })
