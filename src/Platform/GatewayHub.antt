-- ===== src/Platform/GatewayHub.antt =====
-- services/platform-api/internal/gatewayhub/hub.go: the connections of the gateways, and the commands
-- that wait for their results. A pointer to a connection is its place in the list of all connections
-- that were made, and a call is its place in the list of all calls; the channel that a call waits on
-- has room for one result.
pub mod Slots
pub mod Steps
use ygate_git.Base.{
  ℕ, suc, zero, Bool, true, false, not, if◌then◌else◌, Option, none, some, List, [], ◌∷◌, ◌++◌,
  length, get_elem?, ltb, ◌==◌, Result, err, ok,
}
use ygate_git.Base.Text.{Text, lit, is_empty}
use ygate_git.Middleware.Store.File.{map_get, map_put}
use ygate_git.Middleware.Service.Idle.{map_delete}

-- pendingCommand: the call whose channel gets the result, and whether it has a progress callback.
pub record PendingCommand : Type 0 where
  pub call : ℕ
  pub has_progress : Bool

-- conn: the buffered channel `out`, and the pending commands by their id.
pub record Conn : Type 0 where
  pub out : List Text
  pub pending : List (Text × PendingCommand)

pub record Hub : Type 0 where
  pub conns : List (Text × ℕ)
  pub made : List Conn

abbrev pub out_size : ℕ
out_size = 16

abbrev pub new_conn : Conn
new_conn = record { out = []; pending = [] }

-- `xs[i] = x`, for an index in range.
unfoldable pub set_at {ℓ} : {A : Type ℓ} → ℕ → A → List A → List A
set_at i y [] = []
set_at zero y (x ∷ xs) = y ∷ xs
set_at (suc i) y (x ∷ xs) = x ∷ set_at i y xs

-- Register: the new connection takes the gateway's place. The second value is the connection, which
-- its resolve and unregister refer to.
unfoldable pub register : Text → Hub → Hub × ℕ
unfolding map_put
register gateway_id h = (
  record { conns = map_put gateway_id (length h.made) h.conns; made = h.made ++ (new_conn ∷ []) },
  length h.made,
)

unfoldable pub unregister_at : Option ℕ → Text → ℕ → Hub → Hub
unfolding map_delete
unregister_at none gateway_id c h = h
unregister_at (some d) gateway_id c h =
    if d == c then record h { conns = map_delete gateway_id h.conns } else h

-- unregister of the connection `c`.
unfoldable pub unregister : Text → ℕ → Hub → Hub
unfolding map_get unregister_at
unregister gateway_id c h = unregister_at (map_get gateway_id h.conns) gateway_id c h

abbrev pub is_found {ℓ} : {A : Type ℓ} → Option A → Bool
is_found none = false
is_found (some a) = true

-- IsOnline
unfoldable pub is_online : Text → Hub → Bool
unfolding map_get
is_online gateway_id h = is_found (map_get gateway_id h.conns)

-- The connection of a gateway that is online.
unfoldable pub conn_of : Text → Hub → Option (ℕ × Conn)
unfolding map_get
conn_of gateway_id h = elim (map_get gateway_id h.conns) [
  | none ↦ none
  | some c ↦ elim (get_elem? h.made c) [ none ↦ none | some conn ↦ some (c, conn) ]
]

abbrev pub change_at : Option Conn → ℕ → (Conn → Conn) → Hub → Hub
change_at none c f h = h
change_at (some conn) c f h = record h { made = set_at c (f conn) h.made }

-- What is done to a connection, if it exists.
unfoldable pub change : ℕ → (Conn → Conn) → Hub → Hub
change c f h = change_at (get_elem? h.made c) c f h

abbrev pub push_out : Text → Conn → Conn
push_out payload conn = record conn { out = conn.out ++ (payload ∷ []) }

abbrev pub room_in : Option Conn → Bool
room_in none = false
room_in (some conn) = ltb (length conn.out) out_size

-- Whether `c.out` has room.
unfoldable pub has_room : ℕ → Hub → Bool
has_room c h = room_in (get_elem? h.made c)

-- `c.out <- payload`, if there is room.
unfoldable pub send : ℕ → Text → Hub → Option Hub
unfolding has_room change
send c payload h = if has_room c h then some (change c (push_out payload) h) else none

abbrev pub sent_or : Hub → Option Hub → Bool × Hub
sent_or h none = (false, h)
sent_or h (some sent) = (true, sent)

unfoldable pub push_at : Option (ℕ × Conn) → Text → Hub → Bool × Hub
unfolding send
push_at none payload h = (false, h)
push_at (some (c, conn)) payload h = sent_or h (send c payload h)

-- PushConfig
unfoldable pub push_config : Text → Text → Hub → Bool × Hub
unfolding conn_of push_at
push_config gateway_id payload h = push_at (conn_of gateway_id h) payload h

abbrev pub tail : List Text → List Text
tail [] = []
tail (payload ∷ out) = out

abbrev pub pop_out : Conn → Conn
pop_out conn = record conn { out = tail conn.out }

-- What the writer of the socket does: it takes the first message.
unfoldable pub receive : ℕ → Hub → Hub
unfolding change
receive c h = change c pop_out h

abbrev pub pending_at : Option Conn → Text → Option PendingCommand
pending_at none command_id = none
pending_at (some conn) command_id = map_get command_id conn.pending

-- `c.pending[commandID]`
unfoldable pub pending_of : ℕ → Text → Hub → Option PendingCommand
pending_of c command_id h = pending_at (get_elem? h.made c) command_id

unfoldable pub add_pending : ℕ → Text → PendingCommand → Hub → Hub
unfolding change map_put
add_pending c command_id p =
    change c (λ (conn : Conn). record conn { pending = map_put command_id p conn.pending })

unfoldable pub delete_pending : ℕ → Text → Hub → Hub
unfolding change map_delete
delete_pending c command_id =
    change c (λ (conn : Conn). record conn { pending = map_delete command_id conn.pending })

-- Progress: the call whose callback gets the payload, if there is one.
unfoldable pub progress : Text → Text → Hub → Option ℕ
unfolding conn_of map_get
progress gateway_id command_id h = elim (conn_of gateway_id h) [
  | none ↦ none
  | some (c, conn) ↦ elim (map_get command_id conn.pending) [
    | none ↦ none
    | some p ↦ if p.has_progress then some p.call else none
  ]
]

pub data CallError : Type 0 where
  offline : CallError
  context_done : CallError
  undecodable : CallError
  rejected : Text → Text → CallError

-- Where a call is in `run`, with its connection and its command.
pub data CallState : Type 0 where
  sending : ℕ → Text → Text → CallState
  awaiting : ℕ → Text → CallState
  leaving : ℕ → Text → Result CallError Text → CallState
  returned : Result CallError Text → CallState

pub record Caller : Type 0 where
  pub state : CallState
  pub channel : Option Text

-- The frame of a command: the caller's fields, and over them the three of the envelope.
module _ {V : Type 0} (text : Text → V) where
  unfoldable pub command_frame : List (Text × V) → Text → Text → List (Text × V)
  unfolding map_put
  command_frame fields command_id kind = map_put (lit "kind") (text kind) (
      map_put (lit "commandId") (text command_id)
        (map_put (lit "type") (text (lit "command.request")) fields))

-- The result that a gateway sends.
pub record CommandResult : Type 0 where
  pub is_ok : Bool
  pub result_data : Text
  pub error : Text

-- What Call makes of what `run` returns; `decode` is the decoding of JSON.
unfoldable pub call_result :
    (Text → Option CommandResult) → Text → Result CallError Text → Result CallError Text
unfolding is_empty
call_result decode kind (err e) = err e
call_result decode kind (ok raw) = elim (decode raw) [
  | none ↦ err undecodable
  | some r ↦
      if r.is_ok
      then ok r.result_data
      else err (rejected kind (if is_empty r.error then lit "no reason given" else r.error))
]
