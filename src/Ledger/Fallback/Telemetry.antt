-- ===== src/Ledger/Fallback/Telemetry.antt =====
-- The telemetry snapshot: 17 bytes for each event, which a reader can take apart again.
use vesper_platform.Base.{
  ℕ, zero, suc, ◌+◌, ◌*◌, ◌%◌, ◌<◌, ◌≡◌, refl, ap, List, [], ◌∷◌, ◌++◌, arith, length,
  length-append, Bytes, All, drop,
}
use vesper_platform.Ledger.Fallback.{
  TelemetryRecord, Ledger, little_endian, event_bytes, encode_events, get_telemetry_snapshot,
}

-- The format's reader: little-endian numbers, and records of 17 bytes.
read_little_endian : ℕ → Bytes → ℕ
read_little_endian zero bs = 0
read_little_endian (suc width) [] = 0
read_little_endian (suc width) (b ∷ bs) = b + 256 * read_little_endian width bs

read_event : Bytes → TelemetryRecord
read_event bs = record {
  type = read_little_endian 1 bs;
  timestamp = read_little_endian 8 (drop 1 bs);
  value = read_little_endian 8 (drop 9 bs);
}

pub read_events : ℕ → Bytes → List TelemetryRecord
read_events zero bs = []
read_events (suc n) bs = read_event bs ∷ read_events n (drop 17 bs)

-- The values that fit the fields of the format: a byte, and two 64-bit words.
pub record Fits (ev : TelemetryRecord) : Type 0 where
  pub type : ev.type < 256
  pub timestamp : ev.timestamp < 18446744073709551616
  pub value : ev.value < 18446744073709551616

read-little_endian :
    (n : ℕ) (rest : Bytes)
    → n < 18446744073709551616
    → read_little_endian 8 (little_endian 8 n ++ rest) ≡ n
unfolding read_little_endian little_endian
read-little_endian n rest h = omega arith

read-event_bytes :
    (ev : TelemetryRecord) (rest : Bytes) → Fits ev → read_event (event_bytes ev ++ rest) ≡ ev
unfolding read_event event_bytes read_little_endian little_endian
read-event_bytes ev rest h =
    let type : read_little_endian 1 (ev.type % 256 ∷ []) ≡ ev.type = omega arith in
    let timestamp =
      read-little_endian ev.timestamp (little_endian 8 ev.value ++ rest) h.timestamp in
    let value = read-little_endian ev.value rest h.value in
    λ i. record { type = type i; timestamp = timestamp i; value = value i }

length-event_bytes : (ev : TelemetryRecord) → length (event_bytes ev) ≡ 17
unfolding event_bytes
length-event_bytes ev = refl

drop-event_bytes : (ev : TelemetryRecord) (rest : Bytes) → drop 17 (event_bytes ev ++ rest) ≡ rest
unfolding event_bytes
drop-event_bytes ev rest = refl

read-encode_events :
    (evs : List TelemetryRecord) → All Fits evs → read_events (length evs) (encode_events evs) ≡ evs
unfolding read_events encode_events
read-encode_events [] h = refl
read-encode_events (ev ∷ evs) h =
    rw (read-event_bytes ev (encode_events evs) h.0, drop-event_bytes ev (encode_events evs))
      (ap (◌∷◌ ev) (read-encode_events evs h.1))

length-encode_events : (evs : List TelemetryRecord) → length (encode_events evs) ≡ 17 * length evs
unfolding encode_events
length-encode_events [] = refl
length-encode_events (ev ∷ evs) = omega (
  arith,
  length-append {0} (event_bytes ev) (encode_events evs),
  length-event_bytes ev,
  length-encode_events evs,
)

-- A snapshot is 17 bytes for each buffered event, reads back as the events in order when their
-- fields fit the format, and leaves the buffer empty.
pub get_telemetry_snapshot-read_events :
    (s : Ledger)
    → All Fits s.telemetry_events
    → (length (get_telemetry_snapshot s).0 ≡ 17 * length s.telemetry_events)
      × (read_events (length s.telemetry_events) (get_telemetry_snapshot s).0 ≡ s.telemetry_events)
      × (get_telemetry_snapshot s).1.telemetry_events ≡ []
unfolding get_telemetry_snapshot
get_telemetry_snapshot-read_events s h =
    (length-encode_events s.telemetry_events, read-encode_events s.telemetry_events h, refl)
