-- ===== src/Ledger/Fallback/State.antt =====
-- packages/ghost-ledger/src/ledger/fallback.ts: the state of `GhostSecureClientFallback`, and its
-- methods and helpers that read the state or set one field.
use Prim.Native.Nat.{bit_or, bit_xor}
use vesper_platform.Base.{
  ℕ, zero, suc, ◌+◌, ◌/◌, ◌%◌, String, Bool, true, false, ◌||◌, not, Option, none, some, List, [],
  ◌∷◌, ◌++◌, map, ltb, ◌==◌, if◌then◌else◌, length, get_elem?, StringMap, empty_map, Bytes, zeros,
  fill_zero,
}

pub record LedgerBlock : Type 0 where
  pub id : String
  pub serialized_request : Bytes
  pub timestamp : ℕ
  pub ttl : ℕ
  pub previous_hash : Bytes
  pub current_hash : Bytes
  pub is_zeroized : Bool

-- `value` is the bit pattern of the float64.
pub record TelemetryRecord : Type 0 where
  pub type : ℕ
  pub timestamp : ℕ
  pub value : ℕ

-- The readings of the host's clocks, numbered in the order in which they are taken: `Date.now()`,
-- and the bit pattern of `Math.max(0.01, end - start)` around a hash.
pub record Host : Type 0 where
  pub date_now : ℕ → ℕ
  pub elapsed_ms : ℕ → ℕ

-- `readings` counts the clock readings; `released` holds the blocks that left the queue, in the
-- state in which their memory was left.
pub record Ledger : Type 0 where
  pub queue : List LedgerBlock
  pub id_to_index : StringMap ℕ
  pub is_locked : Bool
  pub is_integrity_compromised : Bool
  pub is_online : Bool
  pub telemetry_events : List TelemetryRecord
  pub readings : ℕ
  pub released : List LedgerBlock

pub data Outcome {ℓ} (A : Type ℓ) : Type ℓ where
  done : A → Ledger → Outcome A
  blocked : Outcome A

pub record QueueStatus : Type 0 where
  pub size : ℕ
  pub is_locked : Bool
  pub is_integrity_compromised : Bool

abbrev pub new_ledger : Ledger
new_ledger = record {
  queue = [];
  id_to_index = empty_map;
  is_locked = false;
  is_integrity_compromised = false;
  is_online = true;
  telemetry_events = [];
  readings = 0;
  released = [];
}

-- What `zeroizeBlock` leaves of a block in memory.
abbrev pub erased : LedgerBlock → LedgerBlock
erased b = record b {
  serialized_request = fill_zero b.serialized_request;
  previous_hash = fill_zero b.previous_hash;
  current_hash = fill_zero b.current_hash;
  is_zeroized = true;
}

-- timestamp.toString(), in UTF-8.
unfoldable pub digits_from : ℕ → ℕ → Bytes → Bytes
digits_from zero n acc = acc
digits_from (suc fuel) n acc =
    let longer = digits_from fuel (n / 10) ((b'0' + n % 10) ∷ acc) in
    if ltb n 10 then (b'0' + n) ∷ acc else longer

unfoldable pub decimal : ℕ → Bytes
unfolding digits_from
decimal n = digits_from (suc n) n []

unfoldable pub pre_image : Bytes → Bytes → ℕ → Bytes
pre_image request previous timestamp = request ++ (previous ++ decimal timestamp)

unfoldable pub diff_bits : ℕ → Bytes → Bytes → ℕ
diff_bits diff (x ∷ xs) (y ∷ ys) = diff_bits (bit_or diff (bit_xor x y)) xs ys
diff_bits diff _ _ = diff

unfoldable pub constant_time_equal : Bytes → Bytes → Bool
unfolding diff_bits
constant_time_equal a b = if not (length a == length b) then false else diff_bits 0 a b == 0

unfoldable pub get_queue_status : Ledger → QueueStatus
get_queue_status s = record {
  size = length s.queue;
  is_locked = s.is_locked;
  is_integrity_compromised = s.is_integrity_compromised;
}

unfoldable pub toggle_network_sim : Bool → Ledger → Ledger
toggle_network_sim online s = record s { is_online = online }

unfoldable pub get_queue_ids : Ledger → List String
get_queue_ids s = map (λ b. b.id) s.queue

unfoldable pub payload_at : Option LedgerBlock → Option Bytes
payload_at none = none
payload_at (some b) = if b.is_zeroized then none else some b.serialized_request

unfoldable pub payload_in : List LedgerBlock → Option ℕ → Option Bytes
unfolding payload_at
payload_in queue none = none
payload_in queue (some idx) = payload_at (get_elem? queue idx)

unfoldable pub get_transaction_payload : String → Ledger → Option Bytes
unfolding payload_in
get_transaction_payload id s = payload_in s.queue (s.id_to_index id)

unfoldable pub last_hash : List LedgerBlock → Bytes
last_hash [] = zeros 32
last_hash (b ∷ []) = b.current_hash
last_hash (b ∷ c ∷ bs) = last_hash (c ∷ bs)

unfoldable pub resolve_previous_hash : Ledger → Bytes
unfolding last_hash
resolve_previous_hash s = last_hash s.queue

abbrev pub is_blocked : Ledger → Bool
is_blocked s = s.is_locked || s.is_integrity_compromised

-- DataView.setBigUint64(_, n, true) keeps the low 64 bits, least significant byte first.
unfoldable pub little_endian : ℕ → ℕ → Bytes
little_endian zero n = []
little_endian (suc width) n = n % 256 ∷ little_endian width (n / 256)

-- One event in 17 bytes: the type, the time, and the float64 by its bit pattern.
unfoldable pub event_bytes : TelemetryRecord → Bytes
unfolding little_endian
event_bytes ev = ev.type % 256 ∷ (little_endian 8 ev.timestamp ++ little_endian 8 ev.value)

unfoldable pub encode_events : List TelemetryRecord → Bytes
encode_events [] = []
encode_events (ev ∷ evs) = event_bytes ev ++ encode_events evs

unfoldable pub get_telemetry_snapshot : Ledger → Bytes × Ledger
unfolding encode_events
get_telemetry_snapshot s = (encode_events s.telemetry_events, record s { telemetry_events = [] })
