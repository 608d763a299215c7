-- ===== src/Ledger/Fallback/View.antt =====
-- The ledger as its clients see it: an outbox of requests in order of arrival, one for each id,
-- with no hashes, clocks or telemetry.
use vesper_platform.Base.{
  ℕ, suc, String, ◌≡◌, refl, sym, ap, ◌∙◌, Bool, true, false, Option, none, some, List, [], ◌∷◌,
  ◌++◌, arith, map, length, if◌then◌else◌, Bytes, str_eq, eq_iff, subst,
}
use vesper_platform.Ledger.Fallback.{
  LedgerBlock, Host, Ledger, Outcome, done, new_ledger, zeroize, dequeue_transaction, append_block,
  execute_transaction, verify_integrity, clear_queue, toggle_network_sim, get_telemetry_snapshot,
  get_queue_ids, get_queue_status, get_transaction_payload, compute_block_hash, payload_in,
}
use vesper_platform.Ledger.Fallback.Chain.{hash_of, relink, AreLive, IsChained-AreLive}
use vesper_platform.Ledger.Fallback.Index.{position, AreDistinct, remove_id}
use vesper_platform.Ledger.Fallback.Invariant.{
  genesis, IsWellFormed, queue-zeroize, replaced-eq-zeroize, new_ledger-IsWellFormed,
}
use vesper_platform.Ledger.Fallback.Verify.{
  verify_integrity-Verdict, verify_integrity_of_IsWellFormed,
}
use vesper_platform.Ledger.Fallback.Lifecycle.{
  IsReady, Call, execute, dequeue, erase, clear, online, verify, snapshot, after, step, run,
  step-IsWellFormed, step-IsReady, zeroize-SameMode, zeroize_all-SameMode, run-new_ledger-IsSound,
}

pub record Outbox : Type 0 where
  pub entries : List (String × Bytes)
  pub is_online : Bool

abbrev pub entries_of : List LedgerBlock → List (String × Bytes)
entries_of [] = []
entries_of (b ∷ bs) = (b.id, b.serialized_request) ∷ entries_of bs

abbrev pub view : Ledger → Outbox
view s = record { entries = entries_of s.queue; is_online = s.is_online }

unfoldable pub drop_key : String → List (String × Bytes) → List (String × Bytes)
drop_key id [] = []
drop_key id ((k, v) ∷ es) = if str_eq k id then drop_key id es else (k, v) ∷ drop_key id es

unfoldable pub find_key : String → List (String × Bytes) → Option Bytes
find_key id [] = none
find_key id ((k, v) ∷ es) = if str_eq k id then some v else find_key id es

-- What a call does to the outbox. A request is kept only while the ledger is told to be offline.
unfoldable pub outbox_step : Outbox → Call → Outbox
outbox_step o (execute id request ttl) = record o {
  entries =
      if o.is_online then drop_key id o.entries else drop_key id o.entries ++ (id, request) ∷ [];
}
outbox_step o (dequeue id) = record o { entries = drop_key id o.entries }
outbox_step o (erase id) = record o { entries = drop_key id o.entries }
outbox_step o clear = record o { entries = [] }
outbox_step o (online b) = record o { is_online = b }
outbox_step o verify = o
outbox_step o snapshot = o

unfoldable pub outbox_run : Outbox → List Call → Outbox
unfolding outbox_step
outbox_run o [] = o
outbox_run o (c ∷ cs) = outbox_run (outbox_step o c) cs

abbrev pub empty_outbox : Outbox
empty_outbox = record { entries = []; is_online = true }

entries_of-relink : (e : Bytes) (bs : List LedgerBlock) → entries_of (relink e bs) ≡ entries_of bs
unfolding relink
entries_of-relink e [] = refl
entries_of-relink e (b ∷ bs) = rw (entries_of-relink (hash_of b e) bs)

entries_of-remove_id :
    (id : String) (bs : List LedgerBlock)
    → entries_of (remove_id id bs) ≡ drop_key id (entries_of bs)
unfolding remove_id drop_key
entries_of-remove_id id [] = refl
entries_of-remove_id id (b ∷ bs) = ground (arith, entries_of-remove_id id bs)

entries_of-append :
    (bs : List LedgerBlock) (b : LedgerBlock)
    → entries_of (bs ++ b ∷ []) ≡ entries_of bs ++ (b.id, b.serialized_request) ∷ []
entries_of-append [] b = refl
entries_of-append (c ∷ bs) b = rw (entries_of-append bs b)

module _ (host : Host) where
  entries_of-zeroize :
      (id : String) (s : Ledger)
      → IsWellFormed s
      → entries_of (zeroize host id s).queue ≡ drop_key id (entries_of s.queue)
  entries_of-zeroize id s w =
      ap entries_of (queue-zeroize host id s w)
      ∙ entries_of-relink genesis (remove_id id s.queue)
      ∙ entries_of-remove_id id s.queue

  -- On a ready ledger `dequeueTransaction` erases exactly as `zeroize` does.
  pub dequeue-eq-zeroize :
      (id : String) (s : Ledger)
      → IsReady s
      → dequeue_transaction host id s ≡ done tt (zeroize host id s)
  unfolding dequeue_transaction zeroize
  dequeue-eq-zeroize id s r = ground arith

  view-append_block :
      (id : String) (request : Bytes) (ttl : ℕ) (s : Ledger)
      → view (append_block host id request ttl s)
        ≡ record { entries = entries_of s.queue ++ (id, request) ∷ []; is_online = s.is_online }
  unfolding append_block compute_block_hash
  view-append_block id request ttl s = rw (entries_of-append s.queue)

  view-execute :
      (id : String) (request : Bytes) (ttl : ℕ) (s : Ledger)
      → IsWellFormed s
      → IsReady s
      → view (step host s (execute id request ttl)) ≡ outbox_step (view s) (execute id request ttl)
  unfolding step outbox_step execute_transaction
  view-execute id request ttl s w r = rw (replaced-eq-zeroize host id s) (
      ground (
        arith,
        zeroize-SameMode host id s,
        entries_of-zeroize id s w,
        view-append_block id request ttl (zeroize host id s),
      ))

  pub view-erase :
      (id : String) (s : Ledger)
      → IsWellFormed s
      → view (zeroize host id s) ≡ outbox_step (view s) (erase id)
  unfolding outbox_step
  view-erase id s w = ground (arith, zeroize-SameMode host id s, entries_of-zeroize id s w)

  view-verify : (s : Ledger) → IsWellFormed s → view (verify_integrity host s).1 ≡ view s
  view-verify s w =
      ground (arith, verify_integrity-Verdict host s, verify_integrity_of_IsWellFormed host s w)

  -- Each call on a well-formed, ready ledger does to the outbox what the specification says.
  pub view-step :
      (s : Ledger) (c : Call)
      → IsWellFormed s
      → IsReady s
      → view (step host s c) ≡ outbox_step (view s) c
  unfolding step outbox_step toggle_network_sim get_telemetry_snapshot clear_queue
  view-step s (execute id request ttl) w r = view-execute id request ttl s w r
  view-step s (dequeue id) w r =
      ap (λ (o : Outcome (Unit {0})). view (after s o)) (dequeue-eq-zeroize id s r)
      ∙ view-erase id s w
  view-step s (erase id) w r = view-erase id s w
  view-step s clear w r = ground (arith, zeroize_all-SameMode host s.queue s)
  view-step s (online o) w r = refl
  view-step s verify w r = view-verify s w
  view-step s snapshot w r = refl

  pub view-run_from :
      (s : Ledger) (cs : List Call)
      → IsWellFormed s
      → IsReady s
      → view (run host s cs) ≡ outbox_run (view s) cs
  unfolding run outbox_run
  view-run_from s [] w r = refl
  view-run_from s (c ∷ cs) w r =
      view-run_from (step host s c) cs (step-IsWellFormed host s c w) (step-IsReady host s c w r)
      ∙ ap (λ (o : Outbox). outbox_run o cs) (view-step s c w r)

payload_in-eq-find_key :
    (id : String) (bs : List LedgerBlock)
    → AreDistinct bs
    → AreLive bs
    → payload_in bs (position id bs) ≡ find_key id (entries_of bs)
unfolding position find_key payload_in
payload_in-eq-find_key id [] d l = refl
payload_in-eq-find_key id (b ∷ bs) d l =
    ground (arith, payload_in-eq-find_key id bs d.1 l.1, eq_iff b.id id)

-- `getTransactionPayload` is the lookup of the id in the outbox.
pub payload-find_key :
    (id : String) (s : Ledger)
    → IsWellFormed s
    → get_transaction_payload id s ≡ find_key id (entries_of s.queue)
unfolding get_transaction_payload
payload-find_key id s w =
    ap (payload_in s.queue) (w.indexed id)
    ∙ payload_in-eq-find_key id s.queue w.distinct (IsChained-AreLive genesis s.queue w.chained)

unfoldable pub keys : List (String × Bytes) → List String
keys es = map (λ e. e.0) es

pub get_queue_ids-keys :
    (bs : List LedgerBlock) → map (λ (b : LedgerBlock). b.id) bs ≡ keys (entries_of bs)
unfolding keys
get_queue_ids-keys [] = refl
get_queue_ids-keys (b ∷ bs) = rw (get_queue_ids-keys bs)

length-entries_of : (bs : List LedgerBlock) → length (entries_of bs) ≡ length bs
length-entries_of [] = refl
length-entries_of (b ∷ bs) = ap suc (length-entries_of bs)

-- What a client reads off a ledger is what the outbox holds: its size, its ids in order, and the
-- payload of every id; and the ledger is neither locked nor marked compromised.
pub record Shows (s : Ledger) (o : Outbox) : Type 0 where
  pub size : (get_queue_status s).size ≡ length o.entries
  pub unlocked : (get_queue_status s).is_locked ≡ false
  pub uncompromised : (get_queue_status s).is_integrity_compromised ≡ false
  pub ids : get_queue_ids s ≡ keys o.entries
  pub payload : (id : String) → get_transaction_payload id s ≡ find_key id o.entries

Shows-view : (s : Ledger) → IsWellFormed s → IsReady s → Shows s (view s)
unfolding get_queue_status get_queue_ids
Shows-view s w r = record {
  size = sym (length-entries_of s.queue);
  unlocked = r.0;
  uncompromised = r.1;
  ids = get_queue_ids-keys s.queue;
  payload = λ id. payload-find_key id s w;
}

-- After any sequence of calls on a new ledger, what a client reads off the ledger is what the
-- outbox specification holds after the same calls.
pub run-Shows-outbox_run :
    (host : Host) (cs : List Call) → Shows (run host new_ledger cs) (outbox_run empty_outbox cs)
run-Shows-outbox_run host cs =
    let (w, r) = run-new_ledger-IsSound host cs in
    subst (Shows (run host new_ledger cs))
      (view-run_from host new_ledger cs new_ledger-IsWellFormed (refl, refl))
      (Shows-view (run host new_ledger cs) w r)
