-- ===== src/App/Clearing/Cleared.antt =====
-- What is left of the outbox when a clearing ends.
use vesper_platform.Base.{
  String, ◌≡◌, refl, ap, ◌∙◌, Bool, true, false, none, some, List, [], ◌∷◌, if◌then◌else◌, Bytes,
}
use vesper_platform.Ledger.Fallback.{Host, Ledger, Outcome, done, blocked, new_ledger, zeroize}
use vesper_platform.Ledger.Fallback.Invariant.{IsWellFormed, new_ledger-IsWellFormed}
use vesper_platform.Ledger.Fallback.Lifecycle.{
  IsReady, Call, erase, step, run, step-IsWellFormed, step-IsReady, run-new_ledger-IsSound,
}
use vesper_platform.Ledger.Fallback.View.{
  Outbox, view, entries_of, drop_key, outbox_run, outbox_step, empty_outbox, view-run_from,
  view-erase, dequeue-eq-zeroize,
}
use vesper_platform.App.Clearing.{Batch, send, valid_ids, begin_clearing, dequeue_all, end_clearing}
use vesper_platform.App.Clearing.Batch.{batch_of, collect_batch-ledger}

abbrev Entries : Type 0
Entries = List (String × Bytes)

-- The entries without those of the ids.
unfoldable pub drop_keys : List String → List (String × Bytes) → List (String × Bytes)
drop_keys [] es = es
drop_keys (id ∷ ids) es = drop_keys ids (drop_key id es)

module _ (host : Host) where
  dequeue_all_step :
      (id : String) (ids : List String) (s : Ledger)
      → IsReady s
      → dequeue_all host (id ∷ ids) s ≡ dequeue_all host ids (zeroize host id s)
  unfolding dequeue_all
  dequeue_all_step id ids s r =
      ap (λ (o : Outcome (Unit {0})). elim o [ blocked ↦ s | done _ t ↦ dequeue_all host ids t ])
        (dequeue-eq-zeroize host id s r)

  view-dequeue_all :
      (ids : List String) (s : Ledger)
      → IsWellFormed s
      → IsReady s
      → view (dequeue_all host ids s)
        ≡ record { entries = drop_keys ids (entries_of s.queue); is_online = s.is_online }
  unfolding dequeue_all drop_keys step outbox_step
  view-dequeue_all [] s w r = refl
  view-dequeue_all (id ∷ ids) s w r =
      let z = zeroize host id s in
      let e = view-erase host id s w in
      let rest =
        view-dequeue_all ids z (step-IsWellFormed host s (erase id) w)
          (step-IsReady host s (erase id) w r) in
      ap view (dequeue_all_step id ids s r)
      ∙ rest
      ∙ ap (λ (o : Outbox). record { entries = drop_keys ids o.entries; is_online = o.is_online }) e

  -- What a clearing leaves: after any calls on a new ledger, a batch that failed leaves the outbox as
  -- the calls made it, and one that was sent takes exactly its ids out of it, whatever was added or
  -- dropped since the batch was collected; the lock is free in either case.
  pub view-end_clearing :
      (sent : Bool) (batch : Batch) (cs : List Call) (is_processing : Bool)
      → (view
            (end_clearing host sent batch
              (record { is_processing = is_processing; ledger = run host new_ledger cs })).ledger
          ≡ (if sent
              then record (outbox_run empty_outbox cs) {
                entries = drop_keys (valid_ids batch) (outbox_run empty_outbox cs).entries;
              }
              else outbox_run empty_outbox cs))
        × ((end_clearing host sent batch (record {
          is_processing = is_processing;
          ledger = run host new_ledger cs;
        })).is_processing
            ≡ false)
  unfolding end_clearing
  view-end_clearing false batch cs is_processing =
      (view-run_from host new_ledger cs new_ledger-IsWellFormed (refl, refl), refl)
  view-end_clearing true batch cs is_processing =
      let (w, r) = run-new_ledger-IsSound host cs in
      let e = view-run_from host new_ledger cs new_ledger-IsWellFormed (refl, refl) in
      (
        view-dequeue_all (valid_ids batch) (run host new_ledger cs) w r
            ∙ ap
                (λ (o : Outbox). record {
                  entries = drop_keys (valid_ids batch) o.entries;
                  is_online = o.is_online;
                })
                e,
        refl,
      )

  -- A clearing that starts on a ledger with an outbox, after any calls on a new ledger, hands the whole
  -- outbox to `execute` as its batch: every entry, in order, with its payload in base64url. While it is
  -- under way, another call hands over nothing and changes nothing. When `execute` fails, as it does
  -- once the object that the hook passes as the body is dispatched, the ledger shows the same outbox.
  pub begin_clearing-batch_of :
      (cs : List Call) (t : String × Bytes) (es : List (String × Bytes))
      → (outbox_run empty_outbox cs).entries ≡ t ∷ es
      → let s = run host new_ledger cs in
        let batch = batch_of (t ∷ es) in
        (begin_clearing (record { is_processing = false; ledger = s })
          ≡ (some batch, record { is_processing = true; ledger = s }))
        × (begin_clearing (record { is_processing = true; ledger = s })
            ≡ (none, record { is_processing = true; ledger = s }))
        × (view (end_clearing host false batch (record { is_processing = true; ledger = s })).ledger
            ≡ outbox_run empty_outbox cs)
  unfolding begin_clearing
  begin_clearing-batch_of cs t es h =
      let s = run host new_ledger cs in
      let (w, r) = run-new_ledger-IsSound host cs in
      let e = view-run_from host new_ledger cs new_ledger-IsWellFormed (refl, refl) in
      let all = ap (λ (o : Outbox). o.entries) e ∙ h in
      (
        ap (send (record { is_processing = false; ledger = s }))
            (collect_batch-ledger s w ∙ ap batch_of all),
        refl,
        (view-end_clearing false (batch_of (t ∷ es)) cs true).0,
      )
