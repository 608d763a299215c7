-- ===== src/Core/Client/Owned.antt =====
-- Queued requests that somebody waits for.
use vesper_platform.Base.{
  ℕ, String, ◌≡◌, refl, ap, ◌∙◌, false, none, some, List, [], ◌∷◌, arith, str_eq, eq_iff, eq_refl,
  Bytes,
}
use vesper_platform.Binary.Wire.{Received, received, deserialize_adapter_request}
use vesper_platform.Ledger.Fallback.{Host, LedgerBlock}
use vesper_platform.Ledger.Fallback.Index.{AreDistinct, position}
use vesper_platform.Ledger.Fallback.View.{entries_of, drop_key, find_key, payload-find_key}
use vesper_platform.Ledger.Queue.{MemoryQueue, get_payload}
use vesper_platform.Ledger.Fallback.Lifecycle.{step}
use vesper_platform.Ledger.Fallback.Lifecycle
use vesper_platform.Ledger.Queue.Timed.{IsTimed, dropped}
use vesper_platform.Core.Client.{Pending, Pendings, pending_of, delete_pending}

-- No key stands twice.
abbrev pub HasDistinctKeys : List (String × Bytes) → Type 0
HasDistinctKeys [] = Unit
HasDistinctKeys ((k, v) ∷ es) = (find_key k es ≡ none) × HasDistinctKeys es

find_key-position :
    (id : String) (bs : List LedgerBlock)
    → position id bs ≡ none
    → find_key id (entries_of bs) ≡ none
unfolding position find_key
find_key-position id [] e = refl
find_key-position id (b ∷ bs) e = ground (arith, find_key-position id bs)

pub entries_of-HasDistinctKeys :
    (bs : List LedgerBlock) → AreDistinct bs → HasDistinctKeys (entries_of bs)
entries_of-HasDistinctKeys [] d = tt
entries_of-HasDistinctKeys (b ∷ bs) d =
    (find_key-position b.id bs d.0, entries_of-HasDistinctKeys bs d.1)

drop_key_absent :
    (id : String) (es : List (String × Bytes)) → find_key id es ≡ none → drop_key id es ≡ es
unfolding find_key drop_key
drop_key_absent id [] e = refl
drop_key_absent id ((k, v) ∷ es) e = ground (arith, drop_key_absent id es)

pub drop_key_head :
    (id : String) (v : Bytes) (es : List (String × Bytes))
    → find_key id es ≡ none
    → drop_key id ((id, v) ∷ es) ≡ es
unfolding drop_key
drop_key_head id v es e = rw (eq_refl id) (drop_key_absent id es e)

module _ {Signer Resolver : Type 0} where
  -- Every entry can be read, and `promises` are those that wait for the entries, in order.
  abbrev pub AreOwned : Pendings Signer Resolver → List (String × Bytes) → List ℕ → Type 0
  AreOwned pending [] promises = promises ≡ []
  AreOwned pending ((id, v) ∷ es) promises =
      (p : Pending Signer Resolver) × (ns : List ℕ) × (r : Received) × (promises ≡ p.promise ∷ ns)
      × (pending_of id pending ≡ some p)
      × (deserialize_adapter_request v ≡ received r)
      × AreOwned pending es ns

  pending_of-delete_pending :
      (id j : String) (m : Pendings Signer Resolver)
      → str_eq id j ≡ false
      → pending_of j (delete_pending id m) ≡ pending_of j m
  unfolding pending_of delete_pending
  pending_of-delete_pending id j [] n = refl
  pending_of-delete_pending id j ((k, p) ∷ m) n =
      ground (arith, pending_of-delete_pending id j m n, eq_iff k id, eq_iff k j, eq_iff id j)

  pub AreOwned-delete_pending :
      (id : String) (m : Pendings Signer Resolver) (es : List (String × Bytes)) (ns : List ℕ)
      → find_key id es ≡ none
      → AreOwned m es ns
      → AreOwned (delete_pending id m) es ns
  unfolding find_key
  AreOwned-delete_pending id m [] ns e h = h
  AreOwned-delete_pending id m ((k, v) ∷ es) ns e (p, rest, r, a, b, c, d) =
      let other : str_eq id k ≡ false = ground (arith, eq_iff id k, eq_iff k id) in
      let later : find_key id es ≡ none = ground (arith, eq_iff id k, eq_iff k id) in
      (
        p,
        rest,
        r,
        a,
        pending_of-delete_pending id k m other ∙ b,
        c,
        AreOwned-delete_pending id m es rest later d,
      )

module _ (host : Host) where
  abbrev pub dequeued : String → MemoryQueue → MemoryQueue
  dequeued id q = dropped id q (step host q.client (Lifecycle.dequeue id))

  pub payload_head :
      (id : String) (v : Bytes) (es : List (String × Bytes)) (q : MemoryQueue)
      → IsTimed q
      → entries_of q.client.queue ≡ (id, v) ∷ es
      → get_payload id q ≡ some v
  unfolding get_payload find_key
  payload_head id v es q h e =
      payload-find_key id q.client h.well ∙ (ap (find_key id) e ∙ rw (eq_refl id) refl)
