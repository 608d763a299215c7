-- ===== src/App/Clearing/Batch.antt =====
-- What is sent: every entry of the outbox, in order.
use vesper_platform.Base.{
  String, ◌≡◌, refl, ap, ◌∙◌, false, Option, none, some, List, [], ◌∷◌, map, arith, All, Bytes,
  str_eq, eq_iff, eq_refl,
}
use vesper_platform.Dpop.Base64.{base64_url_encode}
use vesper_platform.Ledger.Fallback.{LedgerBlock, Ledger, get_queue_ids, get_transaction_payload}
use vesper_platform.Ledger.Fallback.Index.{position, AreDistinct}
use vesper_platform.Ledger.Fallback.Invariant.{IsWellFormed}
use vesper_platform.Ledger.Fallback.View.{
  entries_of, find_key, keys, payload-find_key, get_queue_ids-keys,
}
use vesper_platform.App.Clearing.{Batch, collect_batch}

abbrev Entries : Type 0
Entries = List (String × Bytes)

-- The batch for an outbox.
abbrev pub batch_of : List (String × Bytes) → Batch
batch_of es = map (λ e. (e.0, base64_url_encode e.1)) es

collect_batch-entries :
    (payload_of : String → Option Bytes) (es : Entries)
    → All (λ e. payload_of e.0 ≡ some e.1) es
    → collect_batch payload_of (keys es) ≡ batch_of es
unfolding collect_batch keys
collect_batch-entries payload_of [] h = refl
collect_batch-entries payload_of ((k, v) ∷ es) h =
    rw (h.0, collect_batch-entries payload_of es h.1) refl

absent-position :
    (id : String) (bs : List LedgerBlock)
    → position id bs ≡ none
    → All (λ e. str_eq id e.0 ≡ false) (entries_of bs)
unfolding position
absent-position id [] h = tt
absent-position id (b ∷ bs) h =
    ground (arith, absent-position id bs, eq_iff id b.id, eq_iff b.id id, eq_refl id)

found_behind :
    (k : String) (v : Bytes) (es fs : Entries)
    → All (λ e. str_eq k e.0 ≡ false) fs
    → All (λ e. find_key e.0 es ≡ some e.1) fs
    → All (λ e. find_key e.0 ((k, v) ∷ es) ≡ some e.1) fs
unfolding find_key
found_behind k v es [] n h = tt
found_behind k v es (f ∷ fs) n h = (rw (n.0) h.0, found_behind k v es fs n.1 h.1)

found :
    (bs : List LedgerBlock)
    → AreDistinct bs
    → All (λ e. find_key e.0 (entries_of bs) ≡ some e.1) (entries_of bs)
found [] d = tt
found (b ∷ bs) d = (
  unfold find_key in rw (eq_refl b.id) refl,
  found_behind b.id b.serialized_request (entries_of bs) (entries_of bs)
      (absent-position b.id bs d.0) (found bs d.1),
)

All-rewrite :
    (f g : String → Option Bytes) (es : Entries)
    → ((id : String) → f id ≡ g id)
    → All (λ e. g e.0 ≡ some e.1) es
    → All (λ e. f e.0 ≡ some e.1) es
All-rewrite f g [] h a = tt
All-rewrite f g (e ∷ es) h a = (h e.0 ∙ a.0, All-rewrite f g es h a.1)

pub collect_batch-ledger :
    (s : Ledger)
    → IsWellFormed s
    → collect_batch (λ id. get_transaction_payload id s) (get_queue_ids s)
      ≡ batch_of (entries_of s.queue)
unfolding get_queue_ids
collect_batch-ledger s w =
    let es = entries_of s.queue in
    let payloads = λ (id : String). get_transaction_payload id s in
    ap (collect_batch payloads) (get_queue_ids-keys s.queue)
    ∙ collect_batch-entries payloads es (
        All-rewrite payloads (λ id. find_key id es) es (λ id. payload-find_key id s w)
          (found s.queue w.distinct))
