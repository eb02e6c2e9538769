-- ===== src/Middleware/Service/Sweep.antt =====
-- internal/app/poller.go: one sweep over the enabled connections, and the gate that maintenance takes.
use mathlib.Core.List.{foldl}
use ygate_git.Base.{
  ℕ, suc, ◌+◌, ◌≤◌, ◌≡◌, refl, subst, Bool, true, false, Option, none, some, Result, ok, err, List,
  [], ◌∷◌, if◌then◌else◌, keep, length, arith,
}
use ygate_git.Base.Int.{ℤ, pos, ltb_ℤ}
use ygate_git.Base.Text.{Text, lit, is_empty, trim_space, show_int}
use ygate_git.Middleware.Float64.{Float64}
use ygate_git.Middleware.Domain.{Reading, RegisterSample, ConnectionConfig, GatewayConfig}
use ygate_git.Middleware.Modbus.{Client}
use ygate_git.Middleware.Store.File.{Store, StoreError}
use ygate_git.Middleware.Store.File.Sets.{gateway_config}
use ygate_git.Middleware.Store.File.Outbox.{save_poll_log}
use ygate_git.Middleware.Service.{PollError, World}
use ygate_git.Middleware.Service.Poll.{Polled, poll_connection}
use ygate_git.Middleware.Service.Idle.{Idle, enqueue_reading, set_idle_heartbeat}

-- The channel `maintenanceGate` with room for one token: whether the token is in it.
pub record Gate : Type 0 where
  pub free : Bool

-- `tryBeginPoll`, and `BeginMaintenance` when it does not have to wait: the token is taken.
unfoldable pub try_begin_poll : Gate → Bool × Gate
try_begin_poll g = (g.free, record { free = false })

-- `endPoll`, and the release of maintenance: the token is put back.
unfoldable pub end_poll : Gate → Gate
end_poll g = record { free = true }

-- The clock when a connection is polled, when its reading is enqueued and when its log is written.
pub record Times : Type 0 where
  pub cycle : ℤ
  pub warned : ℤ
  pub enqueued : ℤ
  pub logged : ℤ

pub record Counts : Type 0 where
  pub read_ok : ℕ
  pub failed : ℕ
  pub queued : ℕ
  pub idle : ℕ

-- The service and its store, and what the sweep has counted.
pub record Sweep (F : Type 0) : Type 0 where
  pub client : Client
  pub idle : Idle
  pub store : Store F
  pub counts : Counts

-- What the logs of a sweep hold of an error, and the JSON of their details.
pub record Messages (F : Type 0) : Type 0 where
  pub poll_message : PollError → Text
  pub poll_detail : PollError → Text
  pub enqueue_message : Option StoreError → Text
  pub enqueue_detail : Reading F → List (RegisterSample F) → Text

unfoldable pub log_poll :
    {F : Type 0} → World F → ℤ → ConnectionConfig → Text → Text → Text → Store F → Store F
unfolding save_poll_log
log_poll w now c status message detail s =
    (save_poll_log w.saves now
      (record {
        id = pos 0;
        connection_id = c.connection_id;
        connection_name = c.connection_name;
        status = status;
        message = message;
        detail = detail;
        created_at = pos 0;
      })
      s).1

module _ {F : Type 0} where
  -- The part of the loop behind a successful poll: what `Enqueue` returned is counted and logged.
  unfoldable pub finish :
      World F
      → Messages F
      → Times
      → ConnectionConfig
      → Reading F
      → List (RegisterSample F)
      → Option (Result StoreError Bool)
      → Sweep F
      → Sweep F
  finish w m t c r samples (some (ok created)) s =
      let k = s.counts in
      record s {
        store =
            log_poll w t.logged c (lit "OK")
              (if created then lit "poll queued" else lit "poll skipped (unchanged)") [] s.store;
        counts =
            if created then record k { queued = suc k.queued } else record k { idle = suc k.idle };
      }
  finish w m t c r samples (some (err e)) s = record s {
    store =
        log_poll w t.logged c (lit "ERROR") (m.enqueue_message (some e))
          (m.enqueue_detail r samples) s.store;
    counts = record s.counts { failed = suc s.counts.failed };
  }
  finish w m t c r samples none s = record s {
    store =
        log_poll w t.logged c (lit "ERROR") (m.enqueue_message none) (m.enqueue_detail r samples)
          s.store;
    counts = record s.counts { failed = suc s.counts.failed };
  }

module _ (fl : Float64) (w : World fl.F) (m : Messages fl.F) where
  open fl use {F}

  -- What one turn of the loop does with the outcome of the poll.
  unfoldable pub after_poll :
      Text → Sweep F → ConnectionConfig → Times → Polled fl → Client → Store F → Sweep F
  after_poll gw s c t (err e) client store = record s {
    client = client;
    store = log_poll w t.logged c (lit "ERROR") (m.poll_message e) (m.poll_detail e) store;
    counts = record s.counts { failed = suc s.counts.failed };
  }
  after_poll gw s c t (ok (r, samples)) client store =
      let (result, idle, store') = enqueue_reading w t.enqueued r gw s.idle store in
      finish w m t c r samples result (record {
        client = client;
        idle = idle;
        store = store';
        counts = record s.counts { read_ok = suc s.counts.read_ok };
      })

  -- One turn of the loop of `PollEnabledConnections`.
  unfoldable pub sweep_one : Text → Sweep F → ConnectionConfig × Times → Sweep F
  sweep_one gw s (c, t) =
      let (polled, client, store) =
        poll_connection fl w t.cycle t.warned (show_int c.connection_id) s.client s.store in
      after_poll gw s c t polled client store

  abbrev pub is_enabled : ConnectionConfig × Times → Bool
  is_enabled (c, t) = c.enabled

  -- The gateway's id of the sweep: the configured one, if there is one.
  abbrev pub gateway_of : Text → GatewayConfig → Text
  gateway_of gateway_id cfg =
      if is_empty (trim_space cfg.gateway_id)
      then trim_space gateway_id
      else trim_space cfg.gateway_id

  -- The sweep; `connections` are those of the cache, in the order in which the map gives them.
  -- `blank` is Go's zero value of the gateway's settings.
  unfoldable pub poll_enabled_connections :
      GatewayConfig → Text → List (ConnectionConfig × Times) → Gate × Sweep F → Gate × Sweep F
  unfolding try_begin_poll end_poll keep
  poll_enabled_connections blank gateway_id connections (g, s) =
      let (begun, g') = try_begin_poll g in
      let cfg = gateway_config blank s.store in
      let start = record s {
        idle = set_idle_heartbeat cfg.idle_heartbeat_seconds s.idle;
        counts = record { read_ok = 0; failed = 0; queued = 0; idle = 0 };
      } in
      if begun
      then (
        end_poll g',
        foldl (sweep_one (gateway_of gateway_id cfg)) start (keep is_enabled connections),
      )
      else (g', s)

-- `PollInterval`, in seconds, over a store whose settings are `cfg`.
unfoldable pub poll_interval : GatewayConfig → ℤ
poll_interval cfg =
    if ltb_ℤ (pos 0) cfg.send_interval_seconds
    then (if ltb_ℤ (pos 3600) cfg.send_interval_seconds
        then pos 3600
        else cfg.send_interval_seconds)
    else pos 5

-- Every connection of a sweep ends in one of three ways: it failed, it was queued, or it was idle; and
-- no more of them are queued or idle than were read.
pub record IsCounted (n : ℕ) (k : Counts) : Type 0 where
  pub all_counted : k.failed + k.queued + k.idle ≡ n
  pub read_bound : k.queued + k.idle ≤ k.read_ok

module _ (fl : Float64) (w : World fl.F) (m : Messages fl.F) (gw : Text) where
  open fl use {F}

  finish-counts :
      (t : Times) (c : ConnectionConfig) (r : Reading F) (samples : List (RegisterSample F))
      (result : Option (Result StoreError Bool)) (n : ℕ) (client : Client) (idle : Idle)
      (store : Store F) (k : Counts)
      → IsCounted n k
      → IsCounted
          (suc n)
          (finish w m t c r samples result (record {
            client = client;
            idle = idle;
            store = store;
            counts = record k { read_ok = suc k.read_ok };
          })).counts
  unfolding finish
  finish-counts t c r samples (some (ok true)) n client idle store k h = record {
    all_counted = omega (arith, h.all_counted);
    read_bound = omega (arith, h.read_bound);
  }
  finish-counts t c r samples (some (ok false)) n client idle store k h = record {
    all_counted = omega (arith, h.all_counted);
    read_bound = omega (arith, h.read_bound);
  }
  finish-counts t c r samples (some (err e)) n client idle store k h = record {
    all_counted = omega (arith, h.all_counted);
    read_bound = omega (arith, h.read_bound);
  }
  finish-counts t c r samples none n client idle store k h = record {
    all_counted = omega (arith, h.all_counted);
    read_bound = omega (arith, h.read_bound);
  }

  after_poll-counts :
      (n : ℕ) (s : Sweep F) (c : ConnectionConfig) (t : Times) (polled : Polled fl)
      (client : Client) (store : Store F)
      → IsCounted n s.counts
      → IsCounted (suc n) (after_poll fl w m gw s c t polled client store).counts
  unfolding after_poll
  after_poll-counts n s c t (err e) client store h = record {
    all_counted = omega (arith, h.all_counted);
    read_bound = h.read_bound;
  }
  after_poll-counts n s c t (ok (r, samples)) client store h =
      finish-counts t c r samples _ n _ _ _ s.counts h

  sweep_one-counts :
      (n : ℕ) (s : Sweep F) (c : ConnectionConfig × Times)
      → IsCounted n s.counts
      → IsCounted (suc n) (sweep_one fl w m gw s c).counts
  unfolding sweep_one
  sweep_one-counts n s (c, t) h = after_poll-counts n s c t _ _ _ h

  sweep-counts :
      (cs : List (ConnectionConfig × Times)) (n : ℕ) (s : Sweep F)
      → IsCounted n s.counts
      → IsCounted (n + length cs) (foldl (sweep_one fl w m gw) s cs).counts
  sweep-counts [] n s h = subst (λ k. IsCounted k s.counts) (omega arith) h
  sweep-counts (c ∷ cs) n s h =
      subst (λ k. IsCounted k (foldl (sweep_one fl w m gw) s (c ∷ cs)).counts) (omega arith)
        (sweep-counts cs (suc n) (sweep_one fl w m gw s c) (sweep_one-counts n s c h))

  sweep_from_zero-counts :
      (cs : List (ConnectionConfig × Times)) (client : Client) (idle : Idle) (store : Store F)
      → IsCounted
          (length cs)
          (foldl
            (sweep_one fl w m gw)
            (record {
              client = client;
              idle = idle;
              store = store;
              counts = record { read_ok = 0; failed = 0; queued = 0; idle = 0 };
            })
            cs).counts
  sweep_from_zero-counts cs client idle store =
      let s : Sweep F = record {
        client = client;
        idle = idle;
        store = store;
        counts = record { read_ok = 0; failed = 0; queued = 0; idle = 0 };
      } in
      let zero_counted : IsCounted 0 s.counts = record {
        all_counted = refl;
        read_bound = omega arith;
      } in
      subst (λ n. IsCounted n (foldl (sweep_one fl w m gw) s cs).counts) (omega arith)
        (sweep-counts cs 0 s zero_counted)

sweep_cases :
    (fl : Float64) (w : World fl.F) (m : Messages fl.F) (blank : GatewayConfig) (gw : Text)
    (cs : List (ConnectionConfig × Times)) (free : Bool) (s : Sweep fl.F)
    → (let after = poll_enabled_connections fl w m blank gw cs (record { free = free }, s) in
        (after.0.free ≡ free)
        × (free ≡ true → IsCounted (length (keep (is_enabled fl w m) cs)) after.1.counts)
        × (free ≡ false → after.1 ≡ s))
unfolding poll_enabled_connections
sweep_cases fl w m blank gw cs true s = (
  refl,
  λ h. sweep_from_zero-counts fl w m _ (keep (is_enabled fl w m) cs) _ _ _,
  λ h. absurd (cc),
)
sweep_cases fl w m blank gw cs false s = (refl, λ h. absurd (cc), λ h. refl)

-- A sweep that begins puts the token back, and each enabled connection ends it in one of three ways:
-- failed, queued or unchanged, of which the last two need a successful read. A sweep that meets a
-- taken gate changes nothing.
pub poll_enabled_connections_lem :
    (fl : Float64) (w : World fl.F) (m : Messages fl.F) (blank : GatewayConfig) (gw : Text)
    (cs : List (ConnectionConfig × Times)) (g : Gate) (s : Sweep fl.F)
    → (let after = poll_enabled_connections fl w m blank gw cs (g, s) in
        (after.0.free ≡ g.free)
        × (g.free ≡ true → IsCounted (length (keep (is_enabled fl w m) cs)) after.1.counts)
        × (g.free ≡ false → after.1 ≡ s))
unfolding poll_enabled_connections
poll_enabled_connections_lem fl w m blank gw cs g s = sweep_cases fl w m blank gw cs g.free s
