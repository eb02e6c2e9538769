-- ===== src/Platform/Tests/Gateways.antt =====
-- A gateway that connects, gets a command and answers it, and a batch of two updates.
use ygate_git.Base.{ℕ, ◌≡◌, ◌≢◌, refl, ap, length, false, some, [], ◌∷◌, arith}
use ygate_git.Base.Int.{pos}
use ygate_git.Base.Text.{lit}
use ygate_git.Middleware.Store.File.{map_get, map_put}
use ygate_git.Platform.GatewayHub.{
  set_at, new_conn, register, conn_of, add_pending, pending_of, sending,
}
use ygate_git.Platform.GatewayHub.Steps.{
  System, registers, begins_call, Reach, begin, next, start, IsWaiting, caller,
}
use ygate_git.Platform.GatewayHub.Steps.Waiting.{Reach-AreServed}
use ygate_git.Platform.UpdateJobs.{start_item, finish_item}
use ygate_git.Platform.UpdateJobs.Batch.{
  BatchState, Reach as BatchReach, starts, finishes, begin as at_begin, next as and_next, working,
  done, new_batch, verdict, new_batch-status,
}

abbrev online : System
online = record start { hub = (register (lit "gw") start.hub).0 }

abbrev called : System
called = record {
  hub = add_pending 0 (lit "c1") (record { call = 0; has_progress = false }) online.hub;
  calls = caller (sending 0 (lit "c1") (lit "reboot")) ∷ [];
}

called_is_reached : Reach start called
unfolding register conn_of
called_is_reached =
    next (next begin (registers start (lit "gw")))
      (begins_call online (lit "gw") (lit "c1") (lit "reboot") false 0 new_conn refl)

command_is_pending :
    pending_of 0 (lit "c1") called.hub ≡ some (record { call = 0; has_progress = false })
unfolding pending_of register add_pending set_at map_get
command_is_pending = refl

Reach-AreServed_example : IsWaiting 0 (lit "c1") called.calls 0
Reach-AreServed_example =
    Reach-AreServed called_is_reached 0 (lit "c1") (record { call = 0; has_progress = false })
      command_is_pending

abbrev two_updates : BatchState
two_updates = new_batch (lit "j") (lit "apply") [] (lit "a" ∷ lit "bb" ∷ []) (pos 0)

abbrev one_started : BatchState
one_started = record {
  job = start_item (lit "bb") (pos 1) two_updates.job;
  workers = map_put (lit "bb") working two_updates.workers;
}

abbrev one_failed : BatchState
one_failed = record {
  job = finish_item (lit "bb") false (lit "refused") (pos 2) one_started.job;
  workers = map_put (lit "bb") (done false) one_started.workers;
}

one_failed_is_reached : BatchReach two_updates one_failed
unfolding new_batch map_get map_put
one_failed_is_reached =
    and_next (and_next at_begin (starts two_updates (lit "bb") (pos 1) refl))
      (finishes one_started (lit "bb") (lit "refused") false (pos 2) refl)

names_differ : lit "a" ≢ lit "bb"
names_differ same = omega (arith, ap {B = ℕ} length same)

new_batch-status_example : one_failed.job.status ≡ verdict one_failed.workers
new_batch-status_example =
    new_batch-status (lit "j") (lit "apply") [] (lit "a") (lit "bb" ∷ []) (pos 0)
      ((names_differ, tt), (tt, tt)) one_failed_is_reached
