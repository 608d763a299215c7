-- ===== src/Ledger/Fallback/Released.antt =====
-- No request leaves the ledger without being overwritten.
use vesper_platform.Base.{
  ℕ, zero, suc, String, ◌≡◌, ◌⊎◌, refl, sym, ap, ◌∙◌, subst, inl, inr, Bool, true, false, Option,
  some, List, [], ◌∷◌, ◌++◌, arith, Bytes, Option-cases, Bool-cases, str_eq, eq_iff, eq_refl,
  get_elem?, if◌then◌else◌,
}
use vesper_platform.Ledger.Fallback.{
  LedgerBlock, Host, Ledger, Outcome, new_ledger, erased, zeroize_block, zeroize,
  execute_transaction, append_block, zeroize_all, clear_queue, compute_block_hash,
  get_transaction_payload, payload_in, payload_at,
}
use vesper_platform.Ledger.Fallback.Index.{get_elem?-position}
use vesper_platform.Ledger.Fallback.Invariant.{IsWellFormed, replaced-eq-zeroize}
use vesper_platform.Ledger.Fallback.Lifecycle.{
  IsReady, Call, execute, dequeue, erase, clear, online, verify, snapshot, step, run, after,
  step-IsWellFormed, run-new_ledger-IsSound,
}
use vesper_platform.Ledger.Fallback.View.{
  entries_of, find_key, drop_key, outbox_step, view, view-step, payload-find_key,
  dequeue-eq-zeroize, Outbox,
}
use vesper_platform.Ledger.Fallback.Erasure.{IsErased, erased-IsErased, zeroize-IsErased}

-- One of the blocks.
abbrev pub IsAmong : LedgerBlock → List LedgerBlock → Type 0
IsAmong b [] = ⊥
IsAmong b (c ∷ cs) = (c ≡ b) ⊎ IsAmong b cs

-- Of a request, its block, overwritten by zeros, is among the blocks that were left.
abbrev pub IsOverwritten : String → Bytes → Ledger → Type 0
IsOverwritten id request s =
    (b : LedgerBlock) × (b.id ≡ id)
    × (b.serialized_request ≡ request)
    × IsErased (erased b)
    × IsAmong (erased b) s.released

some_block_injective : {a b : LedgerBlock} → ◌≡◌ {A = Option LedgerBlock} (some a) (some b) → a ≡ b
some_block_injective e = cc

find_key-drop_other :
    (id j : String) (es : List (String × Bytes))
    → str_eq j id ≡ false
    → find_key id (drop_key j es) ≡ find_key id es
unfolding find_key drop_key
find_key-drop_other id j [] n = refl
find_key-drop_other id j ((k, v) ∷ es) n =
    ground (arith, find_key-drop_other id j es, eq_iff k id, eq_iff k j, eq_iff j id, eq_refl id)

find_key-append_some :
    (id j : String) (w v : Bytes) (es : List (String × Bytes))
    → find_key id es ≡ some v
    → find_key id (es ++ (j, w) ∷ []) ≡ some v
unfolding find_key
find_key-append_some id j w v [] e = absurd cc
find_key-append_some id j w v ((k, u) ∷ es) e = ground (arith, find_key-append_some id j w v es)

found-execute :
    (id j : String) (q request : Bytes) (online : Bool) (es : List (String × Bytes))
    → find_key id (drop_key j es) ≡ some request
    → find_key id (if online then drop_key j es else drop_key j es ++ (j, q) ∷ []) ≡ some request
found-execute id j q request true es e = e
found-execute id j q request false es e = find_key-append_some id j q request (drop_key j es) e

module _ (host : Host) where
  released-append_block :
      (id : String) (request : Bytes) (ttl : ℕ) (s : Ledger)
      → (append_block host id request ttl s).released ≡ s.released
  unfolding append_block compute_block_hash
  released-append_block id request ttl s = refl

  released-execute :
      (id : String) (request : Bytes) (ttl : ℕ) (s : Ledger)
      → IsReady s
      → (step host s (execute id request ttl)).released ≡ (zeroize host id s).released
  unfolding step execute_transaction append_block compute_block_hash
  released-execute id request ttl s r = rw (replaced-eq-zeroize host id s) (ground (arith, r))

  IsOverwritten-zeroize :
      (id : String) (request : Bytes) (s : Ledger)
      → IsWellFormed s
      → get_transaction_payload id s ≡ some request
      → IsOverwritten id request (zeroize host id s)
  IsOverwritten-zeroize id request s w h =
      let (b, same, is_request, erased_all, left, gone) = zeroize-IsErased host id s request w h in
      (b, same, is_request, erased_all, subst (IsAmong (erased b)) (sym left) (inl refl))

  kept-zeroize_all :
      (bs : List LedgerBlock) (s : Ledger) (b : LedgerBlock)
      → IsAmong b s.released
      → IsAmong b (zeroize_all host bs s).released
  unfolding zeroize_all zeroize_block
  kept-zeroize_all [] s b h = h
  kept-zeroize_all (c ∷ bs) s b h = kept-zeroize_all bs (zeroize_block host c s) b (inr h)

  IsAmong-zeroize_all :
      (idx : ℕ) (bs : List LedgerBlock) (s : Ledger) (b : LedgerBlock)
      → get_elem? bs idx ≡ some b
      → IsAmong (erased b) (zeroize_all host bs s).released
  unfolding zeroize_all zeroize_block
  IsAmong-zeroize_all idx [] s b h = absurd cc
  IsAmong-zeroize_all zero (c ∷ bs) s b h =
      kept-zeroize_all bs (zeroize_block host c s) (erased b)
        (inl (ap erased (some_block_injective h)))
  IsAmong-zeroize_all (suc idx) (c ∷ bs) s b h =
      IsAmong-zeroize_all idx bs (zeroize_block host c s) b h

  -- Kept under its id, or overwritten.
  abbrev IsSafe : String → Bytes → Ledger → Type 0
  IsSafe id request s = (get_transaction_payload id s ≡ some request) ⊎ IsOverwritten id request s

  IsSafe-drop :
      (j id : String) (request : Bytes) (s t : Ledger)
      → IsWellFormed s
      → IsWellFormed t
      → (t.released ≡ (zeroize host j s).released)
      → (str_eq j id ≡ false
          → find_key id (entries_of s.queue) ≡ some request
          → find_key id (entries_of t.queue) ≡ some request)
      → get_transaction_payload id s ≡ some request
      → IsSafe id request t
  IsSafe-drop j id request s t w v left kept h = elim (Bool-cases (str_eq j id)) [
    | inl e ↦
        let (b, same, is_request, erased_all, among) = IsOverwritten-zeroize id request s w h in
        let moved = left ∙ ap (λ (k : String). (zeroize host k s).released) ((eq_iff j id).0 e) in
        inr (b, same, is_request, erased_all, subst (IsAmong (erased b)) (sym moved) among)
    | inr e ↦ inl (payload-find_key id t v ∙ kept e (sym (payload-find_key id s w) ∙ h))
  ]

  entries-step :
      (s : Ledger) (c : Call)
      → IsWellFormed s
      → IsReady s
      → entries_of (step host s c).queue ≡ (outbox_step (view s) c).entries
  entries-step s c w r = ap (λ (o : Outbox). o.entries) (view-step host s c w r)

  found-step :
      (id : String) (s : Ledger) (c : Call)
      → IsWellFormed s
      → IsReady s
      → entries_of (step host s c).queue ≡ entries_of s.queue
      → get_transaction_payload id (step host s c) ≡ get_transaction_payload id s
  found-step id s c w r same =
      payload-find_key id (step host s c) (step-IsWellFormed host s c w)
      ∙ ap (find_key id) same
      ∙ sym (payload-find_key id s w)

  IsOverwritten-clear :
      (id : String) (request : Bytes) (s : Ledger)
      → IsWellFormed s
      → get_transaction_payload id s ≡ some request
      → IsOverwritten id request (clear_queue host s)
  unfolding clear_queue get_transaction_payload payload_in payload_at
  IsOverwritten-clear id request s w h = elim (Option-cases (s.id_to_index id)) [
    | inl e ↦ absurd (ground arith)
    | inr (idx, e) ↦
        let (b, at, same) = get_elem?-position id s.queue idx (sym (w.indexed id) ∙ e) in
        (b, same, ground arith, erased-IsErased b, IsAmong-zeroize_all idx s.queue s b at)
  ]

  step-IsSafe :
      (id : String) (request : Bytes) (s : Ledger) (c : Call)
      → IsWellFormed s
      → IsReady s
      → get_transaction_payload id s ≡ some request
      → IsSafe id request (step host s c)
  unfolding outbox_step step
  step-IsSafe id request s (execute j q ttl) w r h =
      IsSafe-drop j id request s (step host s (execute j q ttl)) w
        (step-IsWellFormed host s (execute j q ttl) w) (released-execute j q ttl s r)
        (λ n found.
          ap (find_key id) (entries-step s (execute j q ttl) w r)
          ∙ found-execute id j q request s.is_online (entries_of s.queue)
              (find_key-drop_other id j (entries_of s.queue) n ∙ found))
        h
  step-IsSafe id request s (dequeue j) w r h =
      IsSafe-drop j id request s (step host s (dequeue j)) w
        (step-IsWellFormed host s (dequeue j) w)
        (ap (λ (o : Outcome (Unit {0})). (after s o).released) (dequeue-eq-zeroize host j s r))
        (λ n found.
          ap (find_key id) (entries-step s (dequeue j) w r)
          ∙ find_key-drop_other id j (entries_of s.queue) n
          ∙ found)
        h
  step-IsSafe id request s (erase j) w r h =
      IsSafe-drop j id request s (step host s (erase j)) w (step-IsWellFormed host s (erase j) w)
        refl
        (λ n found.
          ap (find_key id) (entries-step s (erase j) w r)
          ∙ find_key-drop_other id j (entries_of s.queue) n
          ∙ found)
        h
  step-IsSafe id request s clear w r h = inr (IsOverwritten-clear id request s w h)
  step-IsSafe id request s (online o) w r h =
      inl (found-step id s (online o) w r (entries-step s (online o) w r) ∙ h)
  step-IsSafe id request s verify w r h =
      inl (found-step id s verify w r (entries-step s verify w r) ∙ h)
  step-IsSafe id request s snapshot w r h =
      inl (found-step id s snapshot w r (entries-step s snapshot w r) ∙ h)

  -- After any sequence of calls on a new ledger, whatever the next call is (an enqueue, a dequeue, a
  -- zeroization, a clearing of the queue, a network switch, an integrity check or a telemetry
  -- snapshot), a request that the ledger holds under an id is still held under it, or the block
  -- that held it lies in memory with the request and both hashes overwritten by zeros.
  pub run-IsOverwritten :
      (cs : List Call) (c : Call) (id : String) (request : Bytes)
      → get_transaction_payload id (run host new_ledger cs) ≡ some request
      → (get_transaction_payload id (step host (run host new_ledger cs) c) ≡ some request)
        ⊎ IsOverwritten id request (step host (run host new_ledger cs) c)
  run-IsOverwritten cs c id request h =
      let (w, r) = run-new_ledger-IsSound host cs in
      step-IsSafe id request (run host new_ledger cs) c w r h
