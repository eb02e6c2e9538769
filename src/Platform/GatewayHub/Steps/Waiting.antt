-- ===== src/Platform/GatewayHub/Steps/Waiting.antt =====
-- Every pending command belongs to a call that waits for it, and no channel holds more than it can.
use ygate_git.Base.{
  ℕ, ◌≡◌, ◌≢◌, refl, sym, ap, subst, ◌∙◌, Bool, Bool-cases, Option-cases, inl, inr, Option, none,
  some, List, [], ◌∷◌, ◌++◌, length, get_elem?, ◌==◌, ==_iff, err, ok,
}
use ygate_git.Base.Text.{Text}
use ygate_git.Middleware.Store.File.{map_get}
use ygate_git.Platform.GatewayHub.{
  PendingCommand, Hub, register, unregister, unregister_at, push_at, conn_of, send, receive,
  pending_of, add_pending, delete_pending, has_room, change, push_out, pop_out, push_config,
  offline, CallState, sending, awaiting, leaving, returned, Caller,
}
use ygate_git.Platform.GatewayHub.Slots.{
  get_elem?-set_at, get_elem?-set_at_other, get_elem?-append_one, get_elem?-append_last, differ,
  pending_of-register, pending_of-change_same, pending_of-add_pending, pending_of-delete_pending,
  some_inj, none-some,
}
use ygate_git.Platform.GatewayHub.Steps.{
  System, caller, IsAt, go, Step, registers, unregisters, pushes, writes, calls_offline,
  begins_call, sends, gives_up, resolves, gets, times_out, leaves, Reach, begin, next, start,
  run_place, IsWaiting, AreServed,
}

pending_of-unregister :
    (c : ℕ) (command_id gateway_id : Text) (d : ℕ) (h : Hub)
    → pending_of c command_id (unregister gateway_id d h) ≡ pending_of c command_id h
unfolding unregister unregister_at pending_of
pending_of-unregister c command_id gateway_id d h =
    elim (Option-cases (map_get gateway_id h.conns)) [
      | inl missing ↦ rw missing refl
      | inr (e, found) ↦ elim (Bool-cases (e == d)) [
        | inl own ↦ rw (found, own) refl
        | inr newer ↦ rw (found, newer) refl
      ]
    ]

pending_of-send :
    (c : ℕ) (command_id payload : Text) (d : ℕ) (h sent : Hub)
    → send d payload h ≡ some sent
    → pending_of c command_id sent ≡ pending_of c command_id h
unfolding send
pending_of-send c command_id payload d h sent e = elim (Bool-cases (has_room d h)) [
  | inl room ↦
      subst (λ (k : Hub). pending_of c command_id k ≡ pending_of c command_id h)
        (some_inj (change d (push_out payload) h) sent (rw room at e))
        (pending_of-change_same (push_out payload) d h (λ conn. refl) c command_id)
  | inr full ↦ absurd (none-some sent (rw full at e))
]

pending_of-receive :
    (c : ℕ) (command_id : Text) (d : ℕ) (h : Hub)
    → pending_of c command_id (receive d h) ≡ pending_of c command_id h
unfolding receive
pending_of-receive c command_id d h = pending_of-change_same pop_out d h (λ conn. refl) c command_id

caller_eta : (x : Caller) → x.channel ≡ none → x ≡ caller x.state
caller_eta x empty = ap (λ (ch : Option Text). record { state = x.state; channel = ch }) empty

-- A call that keeps its place and its channel still waits.
go_on :
    (n m c : ℕ) (i : Text) (old new : Caller) (calls : List Caller)
    → get_elem? calls n ≡ some old
    → new.channel ≡ old.channel
    → run_place new.state ≡ run_place old.state
    → IsWaiting c i calls m
    → IsWaiting c i (go n new calls) m
go_on n m c i old new calls found channel same w = elim (Bool-cases (n == m)) [
  | inr other ↦ record {
    state = w.state;
    is_there = get_elem?-set_at_other n m new calls (differ n m other) ∙ w.is_there;
    is_for = w.is_for;
  }
  | inl here ↦
      let n_m = (==_iff n m).0 here in
      let old_w : old ≡ caller w.state = some_inj old (caller w.state) (
        sym found
        ∙ subst (λ (k : ℕ). get_elem? calls k ≡ some (caller w.state)) (sym n_m) w.is_there) in
      record {
        state = new.state;
        is_there =
            subst (λ (k : ℕ). get_elem? (go n new calls) k ≡ some (caller new.state)) n_m
              (get_elem?-set_at n old new calls found
                ∙ ap some (caller_eta new (channel ∙ ap (λ (x : Caller). x.channel) old_w)));
        is_for = same ∙ ap (λ (x : Caller). run_place x.state) old_w ∙ w.is_for;
      }
]

-- A call keeps waiting when another one goes on.
go_other :
    (n m c : ℕ) (i : Text) (new : Caller) (calls : List Caller)
    → n ≢ m
    → IsWaiting c i calls m
    → IsWaiting c i (go n new calls) m
go_other n m c i new calls other w = record {
  state = w.state;
  is_there = get_elem?-set_at_other n m new calls other ∙ w.is_there;
  is_for = w.is_for;
}

wait_more :
    (m c : ℕ) (i : Text) (new : Caller) (calls : List Caller)
    → IsWaiting c i calls m
    → IsWaiting c i (calls ++ (new ∷ [])) m
wait_more m c i new calls w = record {
  state = w.state;
  is_there = get_elem?-append_one m new (caller w.state) calls w.is_there;
  is_for = w.is_for;
}

-- Two commands that wait for the same call are the same.
same_place :
    (n m c d : ℕ) (i j : Text) (st : CallState) (ch : Option Text) (calls : List Caller)
    → n ≡ m
    → get_elem? calls n ≡ some (record { state = st; channel = ch })
    → run_place st ≡ some (d, j)
    → IsWaiting c i calls m
    → (c ≡ d) × (i ≡ j)
same_place n m c d i j st ch calls n_m found at w =
    let callers : record { state = st; channel = ch } ≡ caller w.state =
      some_inj (record { state = st; channel = ch }) (caller w.state)
        (sym found
          ∙ subst (λ (k : ℕ). get_elem? calls k ≡ some (caller w.state)) (sym n_m) w.is_there) in
    let pairs : (d, j) ≡ (c, i) =
      some_inj (d, j) (c, i) (sym at ∙ ap (λ (x : Caller). run_place x.state) callers ∙ w.is_for) in
    (sym (ap (λ (x : ℕ × Text). x.0) pairs), sym (ap (λ (x : ℕ × Text). x.1) pairs))

full_empty :
    (d : ℕ) (j result : Text) (state : CallState)
    → ◌≡◌ {A = Caller} (record { state = awaiting d j; channel = some result }) (caller state)
    → ⊥
full_empty d j result state same = none-some result (sym (ap (λ (x : Caller). x.channel) same))

pending_of-push_config :
    (c : ℕ) (command_id gateway_id payload : Text) (h : Hub)
    → pending_of c command_id (push_config gateway_id payload h).1 ≡ pending_of c command_id h
unfolding push_config push_at
pending_of-push_config c command_id gateway_id payload h =
    elim (Option-cases (conn_of gateway_id h)) [
      | inl missing ↦ rw missing refl
      | inr ((d, conn), found) ↦ elim (Option-cases (send d payload h)) [
        | inl full ↦ rw (found, full) refl
        | inr (sent, e) ↦ rw (found, e) (pending_of-send c command_id payload d h sent e)
      ]
    ]

module _ (s : System) (served : AreServed s) where
  -- A hub with the pending commands of before, and with calls that keep what waits.
  unchanged :
      (h : Hub)
      → ((c : ℕ) (i : Text) → pending_of c i h ≡ pending_of c i s.hub)
      → AreServed (record s { hub = h })
  unchanged h same c i p e = served c i p (sym (same c i) ∙ e)

  served_begins_call :
      (c : ℕ) (i payload : Text) (has_progress : Bool)
      → AreServed (record {
        hub = add_pending c i (record { call = length s.calls; has_progress = has_progress }) s.hub;
        calls = s.calls ++ (caller (sending c i payload) ∷ []);
      })
  served_begins_call d j payload has_progress c i p e =
      elim (pending_of-add_pending c d i j
        (record { call = length s.calls; has_progress = has_progress }) p s.hub e) [
          | inl (c_d, i_j, new) ↦ record {
            state = sending d j payload;
            is_there =
                subst
                  (λ (k : ℕ).
                    get_elem? (s.calls ++ (caller (sending d j payload) ∷ [])) k
                    ≡ some (caller (sending d j payload)))
                  (sym (ap (λ (x : PendingCommand). x.call) new))
                  (get_elem?-append_last (caller (sending d j payload)) s.calls);
            is_for = rw (c_d, i_j) refl;
          }
          | inr before ↦
              wait_more p.call c i (caller (sending d j payload)) s.calls (served c i p before)
        ]

  served_goes_on :
      (h : Hub) (n : ℕ) (old new : Caller)
      → ((c : ℕ) (i : Text) → pending_of c i h ≡ pending_of c i s.hub)
      → get_elem? s.calls n ≡ some old
      → new.channel ≡ old.channel
      → run_place new.state ≡ run_place old.state
      → AreServed (record { hub = h; calls = go n new s.calls })
  served_goes_on h n old new same found channel at c i p e =
      go_on n p.call c i old new s.calls found channel at (served c i p (sym (same c i) ∙ e))

  -- A call that had the command of a place goes on, and what is pending there is deleted.
  served_deletes :
      (d n : ℕ) (j : Text) (st : CallState) (ch : Option Text) (new : Caller)
      → get_elem? s.calls n ≡ some (record { state = st; channel = ch })
      → run_place st ≡ some (d, j)
      → AreServed (record { hub = delete_pending d j s.hub; calls = go n new s.calls })
  served_deletes d n j st ch new found at c i p e =
      let (before, other) = pending_of-delete_pending c d i j p s.hub e in
      let waits = served c i p before in
      go_other n p.call c i new s.calls
        (λ n_m. other (same_place n p.call c d i j st ch s.calls n_m found at waits)) waits

  served_resolves :
      (d : ℕ) (j result : Text) (p : PendingCommand) (st : CallState)
      → pending_of d j s.hub ≡ some p
      → IsAt s p.call st none
      → AreServed (record {
        hub = delete_pending d j s.hub;
        calls = go p.call (record { state = st; channel = some result }) s.calls;
      })
  served_resolves d j result p st pending found =
      let w = served d j p pending in
      let at : run_place st ≡ some (d, j) =
        ap (λ (x : Caller). run_place x.state)
          (some_inj (caller st) (caller w.state) (sym found ∙ w.is_there))
        ∙ w.is_for in
      served_deletes d p.call j st none (record { state = st; channel = some result }) found at

  served_gets :
      (d n : ℕ) (j result : Text)
      → IsAt s n (awaiting d j) (some result)
      → AreServed (record s { calls = go n (caller (leaving d j (ok result))) s.calls })
  served_gets d n j result found c i p e =
      let w = served c i p e in
      go_other n p.call c i (caller (leaving d j (ok result))) s.calls
        (λ n_m. full_empty d j result w.state (
          some_inj (record { state = awaiting d j; channel = some result }) (caller w.state)
            (sym found
              ∙ subst (λ (k : ℕ). get_elem? s.calls k ≡ some (caller w.state)) (sym n_m)
                  w.is_there)))
        w

Step-AreServed : {s t : System} → Step s t → AreServed s → AreServed t
Step-AreServed (registers s gateway_id) served =
    unchanged s served (register gateway_id s.hub).0
      (λ c i. pending_of-register c i gateway_id s.hub)
Step-AreServed (unregisters s gateway_id d) served =
    unchanged s served (unregister gateway_id d s.hub)
      (λ c i. pending_of-unregister c i gateway_id d s.hub)
Step-AreServed (pushes s gateway_id payload) served =
    unchanged s served (push_config gateway_id payload s.hub).1
      (λ c i. pending_of-push_config c i gateway_id payload s.hub)
Step-AreServed (writes s d) served =
    unchanged s served (receive d s.hub) (λ c i. pending_of-receive c i d s.hub)
Step-AreServed (calls_offline s gateway_id missing) served =
    λ c i p e. wait_more p.call c i (caller (returned (err offline))) s.calls (served c i p e)
Step-AreServed (begins_call s gateway_id i payload has_progress c conn found) served =
    served_begins_call s served c i payload has_progress
Step-AreServed (sends s n c i payload channel sent found e) served =
    served_goes_on s served sent n _ _ (λ d j. pending_of-send d j payload c s.hub sent e) found
      refl refl
Step-AreServed (gives_up s n c i payload channel found) served =
    served_goes_on s served s.hub n _ _ (λ d j. refl) found refl refl
Step-AreServed (resolves s c i result p state pending found) served =
    served_resolves s served c i result p state pending found
Step-AreServed (gets s n c i result found) served = served_gets s served c n i result found
Step-AreServed (times_out s n c i channel found) served =
    served_goes_on s served s.hub n _ _ (λ d j. refl) found refl refl
Step-AreServed (leaves s n c i result channel found) served =
    served_deletes s served c n i (leaving c i result) channel _ found refl

none_pending : AreServed start
unfolding pending_of
none_pending c i p e = absurd (none-some p e)

-- In every state that the hub can reach, a pending command belongs to a call that is still in `run` on
-- that connection for that command, and whose channel is empty. So `resolve` never blocks and gives a
-- result only to the call that sent its command, at most once, and a call that has returned leaves no
-- command behind.
pub Reach-AreServed : {s : System} → Reach start s → AreServed s
Reach-AreServed begin = none_pending
Reach-AreServed (next before step) = Step-AreServed step (Reach-AreServed before)
