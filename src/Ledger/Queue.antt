-- ===== src/Ledger/Queue.antt =====
-- packages/ghost-ledger/src/ledger/queue.ts: `GhostMemoryQueue` over the fallback ledger, with the
-- timers of the host. Timer handles are numbers from 1, so that a handle in the map counts as true.
pub mod Timers
pub mod Covered
pub mod Timed
pub mod Steps
pub mod Expiry
pub mod Watchdog
pub mod Engine
pub mod Resident
pub mod Tests
use vesper_platform.Base.{
  ℕ, suc, ◌+◌, String, Bool, true, false, Option, none, some, List, [], ◌∷◌, ◌++◌, ltb, ◌==◌,
  if◌then◌else◌, Bytes, str_eq,
}
use vesper_platform.Ledger.Fallback.{
  Host, Ledger, Outcome, QueueStatus, new_ledger, get_queue_status, execute_transaction,
  dequeue_transaction, zeroize, clear_queue, verify_integrity, get_queue_ids,
  get_transaction_payload, toggle_network_sim, get_telemetry_snapshot,
}
use vesper_platform.Ledger.Fallback.Lifecycle.{after}

-- Ids and timer handles in order of insertion.
abbrev pub TimerMap : Type 0
TimerMap = List (String × ℕ)

-- `scheduled` holds the expiry timers that the host still has to fire, and for whom; `tick_pending`
-- tells whether it still has to fire the watchdog's.
pub record MemoryQueue : Type 0 where
  pub client : Ledger
  pub expiry_timers : TimerMap
  pub is_watchdog_running : Bool
  pub scheduled : TimerMap
  pub tick_pending : Bool
  pub next_handle : ℕ

abbrev pub new_queue : MemoryQueue
new_queue = record {
  client = new_ledger;
  expiry_timers = [];
  is_watchdog_running = false;
  scheduled = [];
  tick_pending = false;
  next_handle = 1;
}

-- What a method that checks the ledger's status does: it ends, or it throws.
pub data Checked {ℓ} (A : Type ℓ) : Type ℓ where
  passed : A → Checked A
  ledger_locked : Checked A
  ledger_compromised : Checked A

-- A method that throws leaves the queue as it was.
abbrev pub kept : MemoryQueue → Checked MemoryQueue → MemoryQueue
kept q (passed next) = next
kept q ledger_locked = q
kept q ledger_compromised = q

unfoldable pub check_status : MemoryQueue → MemoryQueue → Checked MemoryQueue
check_status q next =
    if (get_queue_status q.client).is_locked
    then ledger_locked
    else if (get_queue_status q.client).is_integrity_compromised
    then ledger_compromised
    else passed next

-- expiryTimers.get(id)
unfoldable pub timer_of : String → TimerMap → Option ℕ
timer_of id [] = none
timer_of id ((k, h) ∷ rest) = if str_eq k id then some h else timer_of id rest

-- expiryTimers.delete(id)
unfoldable pub delete_timer : String → TimerMap → TimerMap
delete_timer id [] = []
delete_timer id ((k, h) ∷ rest) =
    if str_eq k id then delete_timer id rest else (k, h) ∷ delete_timer id rest

-- For whom the host holds a timer.
unfoldable pub holder_of : ℕ → TimerMap → Option String
holder_of h [] = none
holder_of h ((k, t) ∷ rest) = if t == h then some k else holder_of h rest

-- clearTimeout(h), on the timers that the host holds
unfoldable pub clear_timeout : ℕ → TimerMap → TimerMap
clear_timeout h [] = []
clear_timeout h ((k, t) ∷ rest) =
    if t == h then clear_timeout h rest else (k, t) ∷ clear_timeout h rest

-- `if (timer) { clearTimeout(timer); expiryTimers.delete(id); }`
unfoldable pub drop_timer : String → MemoryQueue → MemoryQueue
drop_timer id q = elim (timer_of id q.expiry_timers) [
  | none ↦ q
  | some h ↦ record q {
    scheduled = clear_timeout h q.scheduled;
    expiry_timers = delete_timer id q.expiry_timers;
  }
]

-- `expiryTimers.set(id, setTimeout(..))` for an id that the map does not hold
unfoldable pub set_timer : String → MemoryQueue → MemoryQueue
set_timer id q = record q {
  scheduled = q.scheduled ++ (id, q.next_handle) ∷ [];
  expiry_timers = q.expiry_timers ++ (id, q.next_handle) ∷ [];
  next_handle = suc q.next_handle;
}

unfoldable pub clear_timeouts : TimerMap → TimerMap → TimerMap
unfolding clear_timeout
clear_timeouts [] scheduled = scheduled
clear_timeouts ((k, h) ∷ rest) scheduled = clear_timeouts rest (clear_timeout h scheduled)

-- The loop over the timers and `expiryTimers.clear()`.
unfoldable pub drop_timers : MemoryQueue → MemoryQueue
unfolding clear_timeouts
drop_timers q = record q {
  scheduled = clear_timeouts q.expiry_timers q.scheduled;
  expiry_timers = [];
}

abbrev pub size : MemoryQueue → ℕ
size q = (get_queue_status q.client).size

unfoldable pub get_execution_order : MemoryQueue → List String
get_execution_order q = get_queue_ids q.client

unfoldable pub get_payload : String → MemoryQueue → Option Bytes
get_payload id q = get_transaction_payload id q.client

unfoldable pub stop_watchdog : MemoryQueue → MemoryQueue
stop_watchdog q = record q { is_watchdog_running = false; tick_pending = false }

unfoldable pub suspend_and_freeze_ledger : MemoryQueue → MemoryQueue
unfolding stop_watchdog
suspend_and_freeze_ledger q = drop_timers (stop_watchdog q)

unfoldable pub start_watchdog : MemoryQueue → MemoryQueue
start_watchdog q =
    if q.is_watchdog_running
    then q
    else record q { is_watchdog_running = true; tick_pending = true }

unfoldable pub toggle_queue_network : Bool → MemoryQueue → MemoryQueue
toggle_queue_network online q = record q { client = toggle_network_sim online q.client }

module _ (host : Host) where
  unfoldable pub enqueue : String → Bytes → ℕ → MemoryQueue → Checked MemoryQueue
  enqueue id payload ttl q =
      let timed = set_timer id (drop_timer id q) in
      check_status q (record timed {
        client = after timed.client (execute_transaction host id payload ttl timed.client);
      })

  unfoldable pub dequeue : String → MemoryQueue → Checked MemoryQueue
  dequeue id q =
      let untimed = drop_timer id q in
      check_status q (record untimed {
        client = after untimed.client (dequeue_transaction host id untimed.client);
      })

  unfoldable pub active_zeroization : String → MemoryQueue → Checked MemoryQueue
  active_zeroization id q =
      let untimed = drop_timer id q in
      check_status q (record untimed { client = zeroize host id untimed.client })

  -- The host fires the timer `h`: whose it is, and the queue before the callback runs.
  unfoldable pub fire : ℕ → MemoryQueue → Option (String × MemoryQueue)
  fire h q = elim (holder_of h q.scheduled) [
    | none ↦ none
    | some id ↦ some (id, record q { scheduled = clear_timeout h q.scheduled })
  ]

  unfoldable pub clear_all : MemoryQueue → MemoryQueue
  clear_all q = let free = drop_timers q in record free { client = clear_queue host free.client }

  unfoldable pub verify_ledger_integrity : MemoryQueue → Bool × MemoryQueue
  verify_ledger_integrity q =
      let v = verify_integrity host q.client in (v.0, record q { client = v.1 })

  -- The callback of the watchdog's timer, and whether it calls `onTamper`. `verifyIntegrity` of the
  -- fallback ledger does not throw.
  unfoldable pub tick : MemoryQueue → Bool × MemoryQueue
  tick q =
      let fired = record q { tick_pending = false } in
      let v = verify_ledger_integrity fired in
      if q.is_watchdog_running
      then (if ltb 0 (size q)
          then (if v.0
              then (false, record v.1 { tick_pending = true })
              else (true, suspend_and_freeze_ledger v.1))
          else (false, record fired { tick_pending = true }))
      else (false, fired)

  -- The callback of an expiry timer, after `onExpire(id)`.
  unfoldable pub expire : ℕ → MemoryQueue → MemoryQueue
  unfolding fire
  expire h q = elim (fire h q) [
    | none ↦ q
    | some (id, fired) ↦ kept fired (active_zeroization id fired)
  ]

  -- What the client does before a replay: a queue that fails the check is suspended.
  unfoldable pub check_or_suspend : MemoryQueue → MemoryQueue
  check_or_suspend q =
      let v = verify_ledger_integrity q in if v.0 then v.1 else suspend_and_freeze_ledger v.1
