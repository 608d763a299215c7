-- ===== src/App/Clearing.antt =====
-- examples/demo-mobile/src/features/payment/hooks/usePaymentClearing.ts: `processQueue`, cut at its
-- await. The native client is the ledger of ledger/fallback.ts. Whether `execute` succeeded is an
-- argument of the second half: the hook passes it an object as the body, which no request of App/Auth.antt
-- can hold and which the adapters refuse with a TypeError, so that as the code stands it fails when it is dispatched.
pub mod Batch
pub mod Cleared
use vesper_platform.Base.{
  ℕ, String, Bool, true, false, Option, none, some, List, [], ◌∷◌, map, if◌then◌else◌, Bytes,
}
use vesper_platform.Binary.Utf8.{Text}
use vesper_platform.Dpop.Base64.{base64_url_encode}
use vesper_platform.Ledger.Fallback.{
  Host, Ledger, Outcome, done, blocked, get_queue_ids, get_transaction_payload, dequeue_transaction,
}

-- A transaction of the batch: its id and its payload in base64url.
abbrev pub Batch : Type 0
Batch = List (String × Text)

pub record Clearing : Type 0 where
  pub is_processing : Bool
  pub ledger : Ledger

-- The loop over the ids; an id without a payload is skipped.
unfoldable pub collect_batch : (String → Option Bytes) → List String → Batch
collect_batch payload_of [] = []
collect_batch payload_of (id ∷ ids) =
    let rest = collect_batch payload_of ids in
    elim (payload_of id) [ none ↦ rest | some payload ↦ (id, base64_url_encode payload) ∷ rest ]

-- validIds
unfoldable pub valid_ids : Batch → List String
valid_ids batch = map (λ t. t.0) batch

-- The batch that is sent, if there is one. An empty batch sends nothing and frees the lock.
abbrev pub send : Clearing → Batch → Option Batch × Clearing
send c [] = (none, record c { is_processing = false })
send c (t ∷ batch) = (some (t ∷ batch), record c { is_processing = true })

unfoldable pub begin_clearing : Clearing → Option Batch × Clearing
begin_clearing c =
    if c.is_processing
    then (none, c)
    else send c (collect_batch (λ id. get_transaction_payload id c.ledger) (get_queue_ids c.ledger))

-- The loop that dequeues; an exception ends it, and is caught.
unfoldable pub dequeue_all : Host → List String → Ledger → Ledger
dequeue_all host [] s = s
dequeue_all host (id ∷ ids) s = elim (dequeue_transaction host id s) [
  | blocked ↦ s
  | done _ t ↦ dequeue_all host ids t
]

-- From the end of `execute`, which succeeded or failed, to the `finally` block.
unfoldable pub end_clearing : Host → Bool → Batch → Clearing → Clearing
unfolding dequeue_all valid_ids
end_clearing host sent batch c = record {
  is_processing = false;
  ledger = if sent then dequeue_all host (valid_ids batch) c.ledger else c.ledger;
}
