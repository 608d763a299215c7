-- ===== src/Ledger/Fallback/Invariant.antt =====
-- The invariant of the ledger, kept by every operation: the index map gives the place of every id,
-- no id stands twice, and the queue is a hash chain from the genesis hash of 32 zero bytes.
use vesper_platform.Base.{
  ℕ, inl, inr, String, ◌≡◌, refl, sym, ap, ◌∙◌, Option, none, some, List, [], ◌∷◌, arith,
  if◌then◌else◌, length, Bytes, zeros, str_eq, Option-cases,
}
use vesper_platform.Ledger.Sha256.{sha256_sync}
use vesper_platform.Ledger.Fallback.{
  pre_image, LedgerBlock, Host, Ledger, Outcome, done, blocked, new_ledger, compute_block_hash,
  last_hash, resolve_previous_hash, rechain_ledger, zero_at, drop_at, zeroize, dequeue_transaction,
  append_block, replaced, execute_transaction, clear_queue,
}
use vesper_platform.Ledger.Fallback.Chain.{
  IsChained, AreLive, IsChained-AreLive, relink, relink-IsChained, rechain_from-eq-relink,
  tail_hash, last_hash_lem, IsChained-append, relink_chained,
}
use vesper_platform.Ledger.Fallback.Index.{
  position, AreDistinct, remove_id, remove_id-AreDistinct, erase_idx-position, position-append,
  append-AreDistinct, position-relink, relink-AreDistinct, id_to_index-rechain_from,
  position-remove_id_self, remove_id_absent, offset_or,
}

abbrev pub genesis : Bytes
genesis = zeros 32

pub record IsWellFormed (s : Ledger) : Type 0 where
  pub indexed : (id : String) → s.id_to_index id ≡ position id s.queue
  pub distinct : AreDistinct s.queue
  pub chained : IsChained genesis s.queue

pub new_ledger-IsWellFormed : IsWellFormed new_ledger
unfolding position
new_ledger-IsWellFormed = record { indexed = λ id. refl; distinct = tt; chained = tt }

pub AreLive-remove_id :
    (id : String) (bs : List LedgerBlock) → AreLive bs → AreLive (remove_id id bs)
unfolding remove_id
AreLive-remove_id id [] h = tt
AreLive-remove_id id (b ∷ bs) h = ground (arith, AreLive-remove_id id bs h.1)

-- An operation that leaves the queue and its index alone keeps the invariant.
pub IsWellFormed-same :
    {s : Ledger} (t : Ledger)
    → IsWellFormed s
    → t.queue ≡ s.queue
    → ((id : String) → t.id_to_index id ≡ s.id_to_index id)
    → IsWellFormed t
IsWellFormed-same {s} t w q m = record {
  indexed = λ id. rw q (m id ∙ w.indexed id);
  distinct = rw q w.distinct;
  chained = rw q w.chained;
}

abbrev pub Ensures {ℓ} : {A : Type ℓ} → (Ledger → Type 0) → Outcome A → Type 0
Ensures P blocked = Unit
Ensures P (done a s) = P s

offset_or_zero : (o : Option ℕ) → offset_or 0 o none ≡ o
offset_or_zero none = refl
offset_or_zero (some k) = ap some (omega arith)

module _ (host : Host) where
  pub queue-rechain_ledger :
      (s : Ledger) → AreLive s.queue → (rechain_ledger host s).queue ≡ relink genesis s.queue
  unfolding rechain_ledger
  queue-rechain_ledger s h = rechain_from-eq-relink host genesis 0 s.queue _ h

  rechain_ledger_index :
      (s : Ledger) (id : String) → (rechain_ledger host s).id_to_index id ≡ position id s.queue
  unfolding rechain_ledger
  rechain_ledger_index s id =
      id_to_index-rechain_from host id genesis 0 s.queue _ ∙ offset_or_zero (position id s.queue)

  -- Whatever the index held, rechaining distinct live blocks gives a well-formed ledger.
  pub rechain_ledger-IsWellFormed :
      (s : Ledger) → AreDistinct s.queue → AreLive s.queue → IsWellFormed (rechain_ledger host s)
  rechain_ledger-IsWellFormed s d h = record {
    indexed = λ id.
        index id
        ∙ sym (ap (position id) (queue-rechain_ledger s h) ∙ position-relink id genesis s.queue);
    distinct = rw (queue-rechain_ledger s h) (relink-AreDistinct genesis s.queue d);
    chained = rw (queue-rechain_ledger s h) (relink-IsChained genesis s.queue h);
  }
    where
      index : (id : String) → (rechain_ledger host s).id_to_index id ≡ position id s.queue
      index id = rechain_ledger_index s id

  pub queue-drop_at :
      (id : String) (idx : ℕ) (s : Ledger)
      → IsWellFormed s
      → s.id_to_index id ≡ some idx
      → (drop_at host idx s).queue ≡ relink genesis (remove_id id s.queue)
  unfolding drop_at
  queue-drop_at id idx s w e =
      let removed = erase_idx-position id s.queue idx w.distinct (sym (w.indexed id) ∙ e) in
      rw removed (
        queue-rechain_ledger (record (zero_at host idx s) { queue = remove_id id s.queue })
          (AreLive-remove_id id s.queue (IsChained-AreLive genesis s.queue w.chained)))

  drop_at-IsWellFormed :
      (id : String) (idx : ℕ) (s : Ledger)
      → IsWellFormed s
      → s.id_to_index id ≡ some idx
      → IsWellFormed (drop_at host idx s)
  unfolding drop_at
  drop_at-IsWellFormed id idx s w e =
      let removed = erase_idx-position id s.queue idx w.distinct (sym (w.indexed id) ∙ e) in
      rw removed (
        rechain_ledger-IsWellFormed (record (zero_at host idx s) { queue = remove_id id s.queue })
          (remove_id-AreDistinct id s.queue w.distinct)
          (AreLive-remove_id id s.queue (IsChained-AreLive genesis s.queue w.chained)))

  -- `zeroize` keeps the invariant, for a known id and for an unknown one.
  pub zeroize-IsWellFormed :
      (id : String) (s : Ledger) → IsWellFormed s → IsWellFormed (zeroize host id s)
  unfolding zeroize
  zeroize-IsWellFormed id s w = elim (Option-cases (s.id_to_index id)) [
    | inl e ↦ rw (e, zeroize) w
    | inr (idx, e) ↦ rw (e, zeroize) (drop_at-IsWellFormed id idx s w e)
  ]

  -- The queue after `zeroize` is the queue without the id, rechained.
  pub queue-zeroize :
      (id : String) (s : Ledger)
      → IsWellFormed s
      → (zeroize host id s).queue ≡ relink genesis (remove_id id s.queue)
  unfolding zeroize
  queue-zeroize id s w = elim (Option-cases (s.id_to_index id)) [
    | inl e ↦
        rw (e, zeroize)
          (sym (
            ap (relink genesis) (remove_id_absent id s.queue (sym (w.indexed id) ∙ e))
            ∙ relink_chained genesis s.queue w.chained))
    | inr (idx, e) ↦ rw (e, zeroize) (queue-drop_at id idx s w e)
  ]

  append_block-IsWellFormed :
      (id : String) (request : Bytes) (ttl : ℕ) (s : Ledger)
      → IsWellFormed s
      → position id s.queue ≡ none
      → IsWellFormed (append_block host id request ttl s)
  unfolding append_block compute_block_hash resolve_previous_hash
  append_block-IsWellFormed id request ttl s w fresh = record {
    indexed = λ j. sym (
        position-append j s.queue _
        ∙ ap (λ (o : Option ℕ). if str_eq id j then some (length s.queue) else o)
            (sym (w.indexed j)));
    distinct = append-AreDistinct s.queue _ w.distinct fresh;
    chained =
        IsChained-append genesis s.queue _ w.chained
          (last, ap (hash_at (host.date_now s.readings)) last, refl, tt);
  }
    where
      last : last_hash s.queue ≡ tail_hash genesis s.queue
      last = last_hash_lem s.queue

      hash_at : ℕ → Bytes → Bytes
      hash_at now previous = sha256_sync (pre_image request previous now)

  -- After `zeroize` the id is gone.
  pub position-zeroize :
      (id : String) (s : Ledger) → IsWellFormed s → position id (zeroize host id s).queue ≡ none
  position-zeroize id s w =
      ap (position id) (queue-zeroize id s w)
      ∙ position-relink id genesis (remove_id id s.queue)
      ∙ position-remove_id_self id s.queue

  pub replaced-eq-zeroize : (id : String) (s : Ledger) → replaced host id s ≡ zeroize host id s
  unfolding replaced zeroize
  replaced-eq-zeroize id s = ground arith

  pub execute_transaction-IsWellFormed :
      (id : String) (request : Bytes) (ttl : ℕ) (s : Ledger)
      → IsWellFormed s
      → Ensures IsWellFormed (execute_transaction host id request ttl s)
  unfolding execute_transaction
  execute_transaction-IsWellFormed id request ttl s w = rw (replaced-eq-zeroize id s) (
      ground (
        arith,
        zeroize-IsWellFormed id s w,
        append_block-IsWellFormed id request ttl (zeroize host id s) (zeroize-IsWellFormed id s w)
            (position-zeroize id s w),
      ))

  pub dequeue_transaction-IsWellFormed :
      (id : String) (s : Ledger)
      → IsWellFormed s
      → Ensures IsWellFormed (dequeue_transaction host id s)
  unfolding dequeue_transaction
  dequeue_transaction-IsWellFormed id s w = elim (Option-cases (s.id_to_index id)) [
    | inl e ↦ rw (e, dequeue_transaction) (ground arith)
    | inr (idx, e) ↦ rw (e, dequeue_transaction) (ground (arith, drop_at-IsWellFormed id idx s w e))
  ]

  pub clear_queue-IsWellFormed : (s : Ledger) → IsWellFormed (clear_queue host s)
  unfolding clear_queue position
  clear_queue-IsWellFormed s = record { indexed = λ id. refl; distinct = tt; chained = tt }
