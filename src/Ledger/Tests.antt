-- ===== src/Ledger/Tests.antt =====
-- Runs of the ledger, and its theorems at concrete inputs.
use vesper_platform.Base.{
  ℕ, ◌+◌, ◌≡◌, ◌≢◌, ◌↔◌, ◌⊎◌, refl, ap, sym, get_or, true, false, some, none, List, [], ◌∷◌, ◌++◌,
  arith, Bytes, length, u32_bytes, get_u32,
}
use vesper_platform.Ledger.Sha256.{sha256_sync, pad}
use vesper_platform.Ledger.Sha256.Padding.{IsFipsPadding, pad-IsFipsPadding}
use vesper_platform.Ledger.Fallback.{
  clear_queue, LedgerBlock, Host, Ledger, new_ledger, erased, zeroize, verify_integrity,
  execute_transaction, append_block, replaced, dequeue_transaction, get_transaction_payload,
  pre_image, decimal, get_telemetry_snapshot, constant_time_equal, compute_block_hash,
  rechain_ledger, zeroize_block, resolve_previous_hash, toggle_network_sim, get_queue_ids,
}
use vesper_platform.Ledger.Fallback.Compare.{constant_time_equal_iff}
use vesper_platform.Ledger.Fallback.Chain.{hash_of}
use vesper_platform.Ledger.Fallback.Invariant.{genesis, IsWellFormed}
use vesper_platform.Ledger.Fallback.Verify.{IsIntact, verify_integrity_iff}
use vesper_platform.Ledger.Fallback.Lifecycle.{
  IsReady, Call, execute, clear, online, verify, step, run, run-new_ledger-IsSound,
}
use vesper_platform.Ledger.Fallback.View.{Shows, outbox_run, empty_outbox, run-Shows-outbox_run}
use vesper_platform.Ledger.Fallback.Tamper.{
  IsSealed, overwritten, verify_integrity-detects, compromised-run-IsSealed,
}
use vesper_platform.Ledger.Fallback.Erasure.{IsErased, zeroize-IsErased}
use vesper_platform.Ledger.Fallback.Released.{IsOverwritten, run-IsOverwritten}
use vesper_platform.Ledger.Fallback.Telemetry.{read_events, get_telemetry_snapshot-read_events}

abbrev pub host : Host
host = record { date_now = λ n. 1_700_000_000_000 + n; elapsed_ms = λ n. 0x3F847AE147AE147B }

-- Two requests under one id while offline, one under another, and a check.
abbrev calls : List Call
calls =
    online false
    ∷ execute "pay" (1 ∷ 2 ∷ []) 60
    ∷ execute "pay" (3 ∷ []) 60
    ∷ execute "log" (4 ∷ []) 60
    ∷ verify
    ∷ []

abbrev one_call : List Call
one_call = online false ∷ execute "pay" (1 ∷ 2 ∷ []) 60 ∷ []

unfoldable pub ledger : Unit {0}
unfolding run execute_transaction append_block replaced zeroize verify_integrity dequeue_transaction
    toggle_network_sim get_queue_ids get_transaction_payload compute_block_hash rechain_ledger
    zeroize_block constant_time_equal resolve_previous_hash sha256_sync pre_image decimal u32_bytes
    get_u32
ledger = tt

kept_in_order : get_queue_ids (run host new_ledger calls) ≡ "pay" ∷ "log" ∷ []
unfolding ledger
kept_in_order = refl

newest_kept : get_transaction_payload "pay" (run host new_ledger calls) ≡ some (3 ∷ [])
unfolding ledger
newest_kept = refl

run-Shows-outbox_run_example : Shows (run host new_ledger calls) (outbox_run empty_outbox calls)
run-Shows-outbox_run_example = run-Shows-outbox_run host calls

run-new_ledger-IsSound_example :
    IsWellFormed (run host new_ledger calls) × IsReady (run host new_ledger calls)
run-new_ledger-IsSound_example = run-new_ledger-IsSound host calls

abbrev pub pay_block : LedgerBlock
pay_block = record {
  id = "pay";
  serialized_request = 1 ∷ 2 ∷ [];
  timestamp = 1_700_000_000_000;
  ttl = 60;
  previous_hash = genesis;
  current_hash = sha256_sync (pre_image (1 ∷ 2 ∷ []) genesis 1_700_000_000_000);
  is_zeroized = false;
}

one_queue : (run host new_ledger one_call).queue ≡ [] ++ pay_block ∷ []
unfolding ledger
one_queue = refl

pub pay_differs :
    hash_of (record pay_block { serialized_request = 9 ∷ 2 ∷ [] }) genesis
    ≢ hash_of pay_block genesis
unfolding ledger
pay_differs e =
    let first : ◌≡◌ {A = ℕ} 42 201 = ap (λ (digest : Bytes). get_or digest 0 0) (sym e) in
    absurd (omega (arith, first))

verify_integrity-detects_example :
    let v =
      verify_integrity host
        (overwritten (run host new_ledger one_call) [] pay_block (9 ∷ 2 ∷ []) []) in
    (v.0 ≡ false) × IsSealed host v.1
verify_integrity-detects_example =
    verify_integrity-detects host (run host new_ledger one_call) [] pay_block [] (9 ∷ 2 ∷ [])
      (run-new_ledger-IsSound host one_call).0 one_queue pay_differs

abbrev compromised : Ledger
compromised = record new_ledger { is_locked = true; is_integrity_compromised = true }

compromised-run-IsSealed_example :
    let t = run host compromised (clear ∷ verify ∷ []) in
    IsSealed host t
    × (t.is_integrity_compromised ≡ true)
    × IsSealed host (clear_queue host t)
    × ((clear_queue host t).is_integrity_compromised ≡ true)
    × ((clear_queue host t).is_locked ≡ false)
    × ((clear_queue host t).queue ≡ [])
compromised-run-IsSealed_example =
    compromised-run-IsSealed host compromised (clear ∷ verify ∷ []) refl

one_payload : get_transaction_payload "pay" (run host new_ledger one_call) ≡ some (1 ∷ 2 ∷ [])
unfolding ledger
one_payload = refl

run-IsOverwritten_example :
    let s = step host (run host new_ledger one_call) clear in
    (get_transaction_payload "pay" s ≡ some (1 ∷ 2 ∷ [])) ⊎ IsOverwritten "pay" (1 ∷ 2 ∷ []) s
run-IsOverwritten_example = run-IsOverwritten host one_call clear "pay" (1 ∷ 2 ∷ []) one_payload

zeroize_pay :
    let s = run host new_ledger one_call in
    (b : LedgerBlock) × (b.id ≡ "pay")
    × (b.serialized_request ≡ 1 ∷ 2 ∷ [])
    × IsErased (erased b)
    × ((zeroize host "pay" s).released ≡ erased b ∷ s.released)
    × (get_transaction_payload "pay" (zeroize host "pay" s) ≡ none)
zeroize_pay =
    zeroize-IsErased host "pay" (run host new_ledger one_call) (1 ∷ 2 ∷ [])
      (run-new_ledger-IsSound host one_call).0 one_payload

verify_integrity_iff_example :
    ((verify_integrity host (run host new_ledger one_call)).0 ≡ true)
    ↔ IsIntact genesis (run host new_ledger one_call).queue
verify_integrity_iff_example = verify_integrity_iff host (run host new_ledger one_call)

abbrev noted : Ledger
noted = record new_ledger {
  telemetry_events =
      record { type = 3; timestamp = 1_700_000_000_000; value = 0x3FF0000000000000 } ∷ [];
}

get_telemetry_snapshot-read_events_example :
    (length (get_telemetry_snapshot noted).0 ≡ 17)
    × (read_events 1 (get_telemetry_snapshot noted).0 ≡ noted.telemetry_events)
    × (get_telemetry_snapshot noted).1.telemetry_events ≡ []
get_telemetry_snapshot-read_events_example = get_telemetry_snapshot-read_events noted (omega arith)

constant_time_equal_iff_example :
    (constant_time_equal (1 ∷ 2 ∷ []) (1 ∷ 3 ∷ []) ≡ true)
    ↔ (◌≡◌ {A = Bytes} (1 ∷ 2 ∷ []) (1 ∷ 3 ∷ []))
constant_time_equal_iff_example = constant_time_equal_iff (1 ∷ 2 ∷ []) (1 ∷ 3 ∷ [])

pad-IsFipsPadding_example : IsFipsPadding (97 ∷ 98 ∷ 99 ∷ []) (pad (97 ∷ 98 ∷ 99 ∷ []))
pad-IsFipsPadding_example = pad-IsFipsPadding (97 ∷ 98 ∷ 99 ∷ []) (omega arith)
