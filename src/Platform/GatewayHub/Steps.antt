-- ===== src/Platform/GatewayHub/Steps.antt =====
-- The hub with its callers, connections and gateways, whose steps may come in any order.
pub mod Waiting
pub mod Rooms
use ygate_git.Base.{
  ℕ, suc, zero, ◌≤◌, ◌<◌, ◌≡◌, ◌≢◌, refl, sym, ap, subst, ◌∙◌, Bool, true, false, Bool-cases,
  Option-cases, inl, inr, Option, none, some, List, [], ◌∷◌, ◌++◌, length, length-append, get_elem?,
  ◌⊎◌, ◌==◌, ==_iff, All, All-append, arith, Result, err, ok, ltb, ltb→lt,
}
use ygate_git.Base.Text.{Text}
use ygate_git.Middleware.Store.File.{map_get}
use ygate_git.Platform.GatewayHub.{
  PendingCommand, Conn, Hub, new_conn, set_at, register, unregister, conn_of, send, receive,
  pending_of, add_pending, delete_pending, out_size, has_room, change, push_out, pop_out,
  push_config, CallError, offline, context_done, CallState, sending, awaiting, leaving, returned,
  Caller,
}
use ygate_git.Platform.GatewayHub.Slots.{
  get_elem?-set_at, get_elem?-set_at_other, get_elem?-append_one, get_elem?-append_last, differ,
  pending_of-register, pending_of-change_same, pending_of-add_pending, pending_of-delete_pending,
  change-All, some_inj, none-some,
}

pub record System : Type 0 where
  pub hub : Hub
  pub calls : List Caller

abbrev pub caller : CallState → Caller
caller state = record { state = state; channel = none }

-- The call `n` of the system is in a state, and its channel has this result or none.
abbrev pub IsAt : System → ℕ → CallState → Option Text → Type 0
IsAt s n state channel = get_elem? s.calls n ≡ some (record { state = state; channel = channel })

-- The call `n` goes on to a state.
abbrev pub go : ℕ → Caller → List Caller → List Caller
go = set_at

-- A step of a connection, of a gateway's messages, or of a call in `run`. A result is sent to the
-- channel of a call in the step that takes its command out of `pending`.
pub data Step : System → System → Type 0 where
  registers :
      (s : System) (gateway_id : Text) → Step s (record s { hub = (register gateway_id s.hub).0 })
  unregisters :
      (s : System) (gateway_id : Text) (c : ℕ)
      → Step s (record s { hub = unregister gateway_id c s.hub })
  pushes :
      (s : System) (gateway_id payload : Text)
      → Step s (record s { hub = (push_config gateway_id payload s.hub).1 })
  writes : (s : System) (c : ℕ) → Step s (record s { hub = receive c s.hub })
  calls_offline :
      (s : System) (gateway_id : Text)
      → conn_of gateway_id s.hub ≡ none
      → Step s (record s { calls = s.calls ++ (caller (returned (err offline)) ∷ []) })
  begins_call :
      (s : System) (gateway_id command_id payload : Text) (has_progress : Bool) (c : ℕ)
      (conn : Conn)
      → conn_of gateway_id s.hub ≡ some (c, conn)
      → Step s (record {
        hub =
            add_pending c command_id
              (record { call = length s.calls; has_progress = has_progress })
              s.hub;
        calls = s.calls ++ (caller (sending c command_id payload) ∷ []);
      })
  sends :
      (s : System) (n c : ℕ) (command_id payload : Text) (channel : Option Text) (sent : Hub)
      → IsAt s n (sending c command_id payload) channel
      → send c payload s.hub ≡ some sent
      → Step s (record {
        hub = sent;
        calls = go n (record { state = awaiting c command_id; channel = channel }) s.calls;
      })
  gives_up :
      (s : System) (n c : ℕ) (command_id payload : Text) (channel : Option Text)
      → IsAt s n (sending c command_id payload) channel
      → Step s (record s {
        calls =
            go n
              (record { state = leaving c command_id (err context_done); channel = channel })
              s.calls;
      })
  resolves :
      (s : System) (c : ℕ) (command_id result : Text) (p : PendingCommand) (state : CallState)
      → pending_of c command_id s.hub ≡ some p
      → IsAt s p.call state none
      → Step s (record {
        hub = delete_pending c command_id s.hub;
        calls = go p.call (record { state = state; channel = some result }) s.calls;
      })
  gets :
      (s : System) (n c : ℕ) (command_id result : Text)
      → IsAt s n (awaiting c command_id) (some result)
      → Step s (record s { calls = go n (caller (leaving c command_id (ok result))) s.calls })
  times_out :
      (s : System) (n c : ℕ) (command_id : Text) (channel : Option Text)
      → IsAt s n (awaiting c command_id) channel
      → Step s (record s {
        calls =
            go n
              (record { state = leaving c command_id (err context_done); channel = channel })
              s.calls;
      })
  leaves :
      (s : System) (n c : ℕ) (command_id : Text) (result : Result CallError Text)
      (channel : Option Text)
      → IsAt s n (leaving c command_id result) channel
      → Step s (record {
        hub = delete_pending c command_id s.hub;
        calls = go n (record { state = returned result; channel = channel }) s.calls;
      })

pub data Reach (s : System) : System → Type 0 where
  begin : Reach s s
  next : {t u : System} → Reach s t → Step t u → Reach s u

-- A hub that was just made, with no calls.
abbrev pub start : System
start = record { hub = record { conns = []; made = [] }; calls = [] }

-- The connection and the command that a call is in `run` for.
abbrev pub run_place : CallState → Option (ℕ × Text)
run_place (sending c command_id payload) = some (c, command_id)
run_place (awaiting c command_id) = some (c, command_id)
run_place (leaving c command_id result) = some (c, command_id)
run_place (returned result) = none

-- The call that a pending command names is in `run` for that command, and its channel is empty.
pub record IsWaiting (c : ℕ) (command_id : Text) (calls : List Caller) (n : ℕ) : Type 0 where
  pub state : CallState
  pub is_there : get_elem? calls n ≡ some (caller state)
  pub is_for : run_place state ≡ some (c, command_id)

-- Every pending command belongs to such a call.
abbrev pub AreServed : System → Type 0
AreServed s =
    (c : ℕ) (command_id : Text) (p : PendingCommand)
    → pending_of c command_id s.hub ≡ some p
    → IsWaiting c command_id s.calls p.call
