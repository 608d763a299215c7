-- ===== src/Core/ErrorMatrix.antt =====
-- packages/ghost-ledger/src/core/error-matrix.ts and core/config.ts: which errors freeze the session.
-- An error is what the code reads of it; HTTP statuses are natural numbers.
pub mod Decision
use vesper_platform.Base.{
  ℕ, String, Bool, true, false, ◌&&◌, ◌||◌, Option, none, some, List, [], ◌∷◌, ◌==◌, if◌then◌else◌,
  str_eq, is_some,
}

-- The `response` of an Axios error, and the `networkError` of an Apollo error: the status where it is
-- a number.
pub record Carrier : Type 0 where
  pub status : Option ℕ

pub record ErrorObject : Type 0 where
  -- the status, of an instance of GhostHttpError
  pub ghost_http_status : Option ℕ
  pub is_axios_error : Bool
  -- `none` where the property is falsy
  pub response : Option Carrier
  -- `none` where the property is not a number
  pub status : Option ℕ
  pub network_error : Option Carrier
  -- the message, of an instance of TypeError
  pub type_error_message : Option String

pub data ErrorValue : Type 0 where
  -- not an object, or null
  primitive : ErrorValue
  object : ErrorObject → ErrorValue

pub record ErrorTrappingConfig : Type 0 where
  pub freeze_on_503_504 : Option Bool
  pub freeze_on_401 : Option Bool
  pub additional_freezable_statuses : Option (List ℕ)

pub record ResolvedTrappingConfig : Type 0 where
  pub freeze_on_503_504 : Bool
  pub freeze_on_401 : Bool
  pub additional_freezable_statuses : List ℕ

abbrev pub http_unauthorized : ℕ
http_unauthorized = 401

abbrev pub http_service_unavailable : ℕ
http_service_unavailable = 503

abbrev pub http_gateway_timeout : ℕ
http_gateway_timeout = 504

-- `value ?? default`
abbrev pub value_or {ℓ} : {A : Type ℓ} → Option A → A → A
value_or none d = d
value_or (some a) d = a

-- raw?.freezeOn503_504, raw?.freezeOn401, raw?.additionalFreezableStatuses
unfoldable pub resolve_trapping_config : Option ErrorTrappingConfig → ResolvedTrappingConfig
resolve_trapping_config none = record {
  freeze_on_503_504 = true;
  freeze_on_401 = false;
  additional_freezable_statuses = [];
}
resolve_trapping_config (some raw) = record {
  freeze_on_503_504 = value_or raw.freeze_on_503_504 true;
  freeze_on_401 = value_or raw.freeze_on_401 false;
  additional_freezable_statuses = value_or raw.additional_freezable_statuses [];
}

-- Set.has
unfoldable pub has : ℕ → List ℕ → Bool
has n [] = false
has n (m ∷ ms) = m == n || has n ms

abbrev carried_status : Option Carrier → Option ℕ
carried_status none = none
carried_status (some c) = c.status

-- The first of two statuses that is a number.
abbrev or_else : Option ℕ → Option ℕ → Option ℕ
or_else none b = b
or_else (some a) b = some a

unfoldable pub extract_http_status : ErrorValue → Option ℕ
extract_http_status primitive = none
extract_http_status (object e) = or_else e.ghost_http_status (
    or_else (if e.is_axios_error then carried_status e.response else none)
      (or_else e.status (carried_status e.network_error)))

abbrev pub is_network_request_failed : Option String → Bool
is_network_request_failed none = false
is_network_request_failed (some message) = str_eq message "Network request failed"

unfoldable pub is_transport_error : ErrorValue → Bool
is_transport_error primitive = false
is_transport_error (object e) =
    (if e.is_axios_error then (elim e.response [ none ↦ true | some _ ↦ false ]) else false)
    || is_network_request_failed e.type_error_message
    || is_some e.network_error

unfoldable pub freezes_on : ResolvedTrappingConfig → ℕ → Bool
unfolding has
freezes_on trapping status =
    if (status == http_service_unavailable || status == http_gateway_timeout)
      && trapping.freeze_on_503_504
    then true
    else if status == http_unauthorized && trapping.freeze_on_401
    then true
    else if has status trapping.additional_freezable_statuses
    then true
    else false

unfoldable pub is_freezable_http_status : ErrorValue → ResolvedTrappingConfig → Bool
unfolding freezes_on
is_freezable_http_status error trapping = elim (extract_http_status error) [
  | none ↦ false
  | some status ↦ freezes_on trapping status
]

unfoldable pub should_freeze_session : ErrorValue → ResolvedTrappingConfig → Bool
should_freeze_session error trapping =
    is_transport_error error || is_freezable_http_status error trapping
