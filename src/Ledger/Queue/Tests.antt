-- ===== src/Ledger/Queue/Tests.antt =====
-- Runs of the memory queue, and its theorems at concrete inputs.
use vesper_platform.Base.{◌≡◌, refl, false, true, String, some, none, List, [], ◌∷◌, ◌++◌, str_eq}
use vesper_platform.Ledger.Fallback.{get_queue_status}
use vesper_platform.Ledger.Fallback.Tamper.{overwritten}
use vesper_platform.Ledger.Queue.{
  new_queue, suspend_and_freeze_ledger, passed, timer_of, holder_of, get_payload,
  get_execution_order, active_zeroization, expire, tick, enqueue, check_status, drop_timer,
  set_timer, start_watchdog, toggle_queue_network, delete_timer, verify_ledger_integrity,
}
use vesper_platform.Ledger.Queue.Timed.{IsTimed}
use vesper_platform.Ledger.Queue.Steps.{
  QueueCall, put, timer_fires, tick_fires, watch, network, queue_run, IsTimerless,
  queue_run-IsTimed,
}
use vesper_platform.Ledger.Queue.Expiry.{expire-erases}
use vesper_platform.Ledger.Queue.Watchdog.{IsSuspended, tick-detects}
use vesper_platform.Ledger.Tests.{host, ledger, pay_block, pay_differs}

abbrev two_puts : List QueueCall
two_puts =
    network false ∷ watch ∷ put "pay" (1 ∷ 2 ∷ []) 60 ∷ put "log" (4 ∷ []) 60 ∷ tick_fires ∷ []

abbrev one_put : List QueueCall
one_put = network false ∷ watch ∷ put "pay" (1 ∷ 2 ∷ []) 60 ∷ []

unfoldable pub queue : Unit {0}
unfolding ledger get_queue_status queue_run enqueue check_status drop_timer set_timer timer_of
    holder_of delete_timer start_watchdog toggle_queue_network tick verify_ledger_integrity
    get_execution_order get_payload expire active_zeroization
queue = tt

both_kept : get_execution_order (queue_run host new_queue two_puts) ≡ "pay" ∷ "log" ∷ []
unfolding queue
both_kept = refl

expired_gone :
    get_execution_order (queue_run host new_queue (two_puts ++ timer_fires 1 ∷ [])) ≡ "log" ∷ []
unfolding queue
expired_gone = refl

queue_run-IsTimed_example :
    let q = queue_run host new_queue two_puts in
    IsTimed q × IsTimerless host q (suspend_and_freeze_ledger q)
queue_run-IsTimed_example = queue_run-IsTimed host two_puts

log_holder : holder_of 2 (queue_run host new_queue two_puts).scheduled ≡ some "log"
unfolding queue
log_holder = refl

expire-erases_example :
    let q = queue_run host new_queue two_puts in
    (active_zeroization host "log" q ≡ passed (expire host 2 q))
    × (get_payload "log" (expire host 2 q) ≡ none)
    × (timer_of "log" (expire host 2 q).expiry_timers ≡ none)
    × ((j : String) → str_eq "log" j ≡ false → get_payload j (expire host 2 q) ≡ get_payload j q)
expire-erases_example =
    expire-erases host "log" 2 (queue_run host new_queue two_puts)
      (queue_run-IsTimed host two_puts).0 log_holder

one_in_queue : (queue_run host new_queue one_put).client.queue ≡ [] ++ pay_block ∷ []
unfolding queue
one_in_queue = refl

ticking : (queue_run host new_queue one_put).tick_pending ≡ true
unfolding queue
ticking = refl

tick-detects_example :
    let q = queue_run host new_queue one_put in
    let t = tick host (record q { client = overwritten q.client [] pay_block (9 ∷ 2 ∷ []) [] }) in
    (t.0 ≡ true) × IsSuspended host t.1
tick-detects_example =
    tick-detects host (queue_run host new_queue one_put) [] pay_block [] (9 ∷ 2 ∷ [])
      (queue_run-IsTimed host one_put).0 ticking one_in_queue pay_differs
