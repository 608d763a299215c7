-- ===== src/App/Tests.antt =====
-- Runs of the app's store, and its theorems at concrete inputs.
use vesper_platform.Base.{
  ◌≡◌, ◌+◌, ℕ, zero, suc, refl, map, length, list_eq, true, false, none, some, List, [], ◌∷◌,
}
use vesper_platform.App.Store.{
  OnlineCartItem, toggle_network, initial_state, find_item, count_again, add_item,
  add_to_online_cart, online_total_from, get_online_total, clear_online_cart,
}
use vesper_platform.Ledger.Tests.{host}
use vesper_platform.Core.Client.{new_client}
use vesper_platform.Core.Client.Tests.{config}
use vesper_platform.App.Network.{NetInfoState, AppNetwork, baseline, is_online_now}
use vesper_platform.App.Network.Transitions.{HasListened, listen, rises, listen-baseline}
use vesper_platform.App.Store.Lines.{AreDistinctLines, quantity_of}
use vesper_platform.App.Store.Carts.{
  Action, add_online, clear_online, network, act_all, online_count, act_all-online_count,
}
use vesper_platform.Binary.Utf8.{Text, encode_text}
use vesper_platform.Binary.Json.{
  Json, string, number, object, empty, member, stringify, decimal, quote,
}
use vesper_platform.Dpop.Keys.{CryptoProvider}
use vesper_platform.Binary.Wire.{AdapterRequest}
use vesper_platform.Core.ErrorMatrix.{ErrorValue, object}
use vesper_platform.Core.Context.{non_empty}
use vesper_platform.Core.Client.{Reply, answer, failure}
use vesper_platform.Adapters.Outcome.{is_ok}
use vesper_platform.Ledger.Fallback.{new_ledger}
use vesper_platform.Ledger.Fallback.Lifecycle.{Call, online, execute, run}
use vesper_platform.Ledger.Fallback.View.{view, outbox_run, outbox_step, drop_key, empty_outbox}
use vesper_platform.App.Clearing.{begin_clearing, end_clearing, valid_ids}
use vesper_platform.App.Clearing.Batch.{batch_of}
use vesper_platform.App.Clearing.Cleared.{drop_keys, begin_clearing-batch_of, view-end_clearing}
use vesper_platform.App.Auth.{
  Keychain, get_refresh_token, after_read, after_save, try_save_tokens, saved_with, Session,
  ExecuteRequestConfig, RefreshReply, answered, request_of, is_unauthorized, after_retry, retry,
  after_refresh, refresh_session, after_attempt, execute as execute_request,
}
use vesper_platform.App.Auth.Handshake.{
  validate_handshake, get_challenge, verify_challenge, raw_challenge, property_of, is_truthy,
  text_verified,
}
use vesper_platform.App.Integrity.{Globals}
use vesper_platform.App.Initializer.{Initializer}
use vesper_platform.App.Transactions.{
  build_transaction_ledger, build_from, next_block, data_to_hash, hex,
}
use vesper_platform.App.Auth.Refresh.{IsWithin, execute-IsWithin}

abbrev tea : OnlineCartItem
tea = record { id = "tea"; name = "Tea"; price = 40; quantity = 0 }

abbrev mug : OnlineCartItem
mug = record { id = "mug"; name = "Mug"; price = 90; quantity = 0 }

abbrev actions : List Action
actions =
    add_online mug ∷ clear_online ∷ add_online tea ∷ network ∷ add_online mug ∷ add_online tea ∷ []

store : Unit {0}
unfolding act_all toggle_network add_to_online_cart clear_online_cart add_item find_item count_again
    quantity_of get_online_total online_total_from
store = tt

total_run : get_online_total (act_all initial_state actions) ≡ 170
unfolding store
total_run = refl

act_all-online_count_example :
    AreDistinctLines (act_all initial_state actions).online_cart
    × (quantity_of "tea" (act_all initial_state actions).online_cart ≡ online_count "tea" 0 actions)
act_all-online_count_example = act_all-online_count "tea" actions

abbrev wifi : NetInfoState
wifi = record { type = "wifi"; is_connected = some true }

abbrev lost : NetInfoState
lost = record { type = "none"; is_connected = some false }

abbrev app : AppNetwork ℕ ℕ ℕ
app = record {
  is_currently_online = false;
  is_subscribed = true;
  store = initial_state;
  client = new_client;
}

one_rise : rises false (wifi ∷ wifi ∷ lost ∷ []) ≡ 1
unfolding rises is_online_now
one_rise = refl

listen-baseline_example :
    HasListened host config app
      (is_online_now lost)
      (wifi ∷ wifi ∷ lost ∷ [])
      (listen host config (baseline lost app) (wifi ∷ wifi ∷ lost ∷ []))
listen-baseline_example = listen-baseline host config lost (wifi ∷ wifi ∷ lost ∷ []) app

-- Two payments that wait offline, under way to the backend.
abbrev payments : List Call
payments = online false ∷ execute "pay" (1 ∷ 2 ∷ []) 60 ∷ execute "tip" (3 ∷ []) 60 ∷ []

payments_entries :
    (outbox_run empty_outbox payments).entries ≡ ("pay", 1 ∷ 2 ∷ []) ∷ ("tip", 3 ∷ []) ∷ []
unfolding outbox_run outbox_step drop_key
payments_entries = refl

begin_clearing-batch_of_example :
    let s = run host new_ledger payments in
    let batch = batch_of (("pay", 1 ∷ 2 ∷ []) ∷ ("tip", 3 ∷ []) ∷ []) in
    (begin_clearing (record { is_processing = false; ledger = s })
      ≡ (some batch, record { is_processing = true; ledger = s }))
    × (begin_clearing (record { is_processing = true; ledger = s })
        ≡ (none, record { is_processing = true; ledger = s }))
    × (view (end_clearing host false batch (record { is_processing = true; ledger = s })).ledger
        ≡ outbox_run empty_outbox payments)
begin_clearing-batch_of_example =
    begin_clearing-batch_of host payments ("pay", 1 ∷ 2 ∷ []) (("tip", 3 ∷ []) ∷ [])
      payments_entries

view-end_clearing_example :
    (view
        (end_clearing host true
          (("pay", []) ∷ [])
          (record { is_processing = true; ledger = run host new_ledger payments })).ledger
      ≡ record (outbox_run empty_outbox payments) {
        entries =
            drop_keys (valid_ids (("pay", []) ∷ [])) (outbox_run empty_outbox payments).entries;
      })
    × ((end_clearing host true
          (("pay", []) ∷ [])
          (record { is_processing = true; ledger = run host new_ledger payments })).is_processing
        ≡ false)
view-end_clearing_example = view-end_clearing host true (("pay", []) ∷ []) payments true

abbrev profile : ExecuteRequestConfig
profile = record {
  method = b'G' ∷ [];
  path = some (b'/' ∷ b'p' ∷ []);
  url = none;
  headers = none;
  encoded_headers = none;
  body = none;
}

abbrev session : Session
session = record {
  tokens = record { access = some (b'a' ∷ []); refresh = some (b'r' ∷ []) };
  app = initial_state;
  executed = [];
  refreshes = [];
}

abbrev unauthorized : ErrorValue
unauthorized = object (record {
  ghost_http_status = some 401;
  is_axios_error = false;
  response = none;
  status = some 401;
  network_error = none;
  type_error_message = none;
})

-- The first attempt is refused, the retry is answered.
abbrev backend : ℕ → AdapterRequest → Reply ℕ
backend zero r = failure unauthorized
backend (suc n) r = answer 7

abbrev renewed : Text → RefreshReply
renewed token = answered 200 (answer (some (b'b' ∷ []), some (b's' ∷ [])))

-- A secure store that does not fail.
abbrev sound : Keychain
sound = record { read_error = none; access_error = none; refresh_error = none }

execute_run : (execute_request sound backend renewed [] profile session).0 ≡ answer 7
unfolding execute_request after_attempt after_read is_unauthorized get_refresh_token refresh_session
    after_refresh retry after_save try_save_tokens saved_with after_retry is_ok non_empty request_of
execute_run = refl

execute-IsWithin_example :
    IsWithin 2 1 session (execute_request sound backend renewed [] profile session).1
execute-IsWithin_example = execute-IsWithin sound backend renewed [] profile session

-- A device on which Frida runs.
abbrev instrumented : Globals
instrumented = record { frida = true; is_present = λ name. false }

abbrev provider : CryptoProvider ℕ
provider = record {
  get_random_bytes = λ n. [];
  sha256 = λ bytes. none;
  subtle = record {
    generate_key = λ params. some (1, 2);
    export_key = λ key. some empty;
    sign = λ params key message. none;
  };
}

abbrev started : Initializer ℕ
started = record {
  app = initial_state;
  is_bootstrapped = false;
  dpop_public_key = none;
  signer = none;
}

-- { "a": 1 } and 2, with a digest of the length.
abbrev items : List Json
items = object (member (b'a' ∷ []) (number 1) empty) ∷ number 2 ∷ []

second_block_run :
    map {B = ℕ × Text × Text}
      (λ b. (b.index, b.preceding_hash, b.hash))
      (elim (build_transaction_ledger (λ bytes. some (length bytes ∷ [])) (λ n. 100 + n) items) [
        | none ↦ []
        | some ledger ↦ ledger
      ])
    ≡ (0, b'0' ∷ [], b'0' ∷ b'b' ∷ []) ∷ (1, b'0' ∷ b'b' ∷ [], b'0' ∷ b'6' ∷ []) ∷ []
unfolding build_transaction_ledger build_from next_block data_to_hash hex encode_text stringify
    decimal quote
second_block_run = refl

-- The handshake with the challenge "c" and the status "channel_verified".
handshake_run :
    validate_handshake
      (some (record { status = 200; body = some (string (b'c' ∷ [])) }))
      (λ raw. some (record { status = 200; body = some (string text_verified) }))
    ≡ true
unfolding validate_handshake get_challenge verify_challenge raw_challenge property_of is_truthy
    is_ok list_eq
handshake_run = refl

handshake_refused_run :
    validate_handshake (some (record { status = 503; body = none })) (λ raw. none) ≡ false
unfolding validate_handshake get_challenge is_ok
handshake_refused_run = refl
