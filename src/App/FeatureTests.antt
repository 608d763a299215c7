-- ===== src/App/FeatureTests.antt =====
-- Runs of the forms and of the developer menu, and their theorems at concrete inputs.
use vesper_platform.Base.{List, map, ◌≡◌, ℕ, refl, true, false, Option, none, some, [], ◌∷◌}
use vesper_platform.Binary.Utf8.{Text}
use vesper_platform.Binary.Wire.{AdapterRequest, serialize_adapter_request}
use vesper_platform.Core.Client.{Reply, answer}
use vesper_platform.App.Store.{
  OnlineCartItem, InStoreCartItem, clear_online_cart, get_online_total, get_in_store_total,
  online_total_from,
}
use vesper_platform.App.Auth.{Session, Keychain, RefreshReply, answered}
use vesper_platform.App.Checkout.{
  VesperCheckoutResponse, online_item_json, in_store_item_json, online_checkout, in_store_checkout,
}
use vesper_platform.App.Transactions.{build_transaction_ledger}
use vesper_platform.App.Checkout.Settled.{IsSettled, IsPriced, unless_queued, checkouts-IsSettled}
use vesper_platform.Ledger.Tests.{host}
use vesper_platform.Ledger.Queue.{get_payload}
use vesper_platform.Core.Client.Tests.{new_client-IsTimed}
use vesper_platform.Core.Context.{is_space}
use vesper_platform.Core.Client.{new_client}
use vesper_platform.App.Store.{initial_state}
use vesper_platform.App.Credentials.{Form, is_email, is_address}
use vesper_platform.App.DevMenu.{
  DevMenu, build_simulated_request, enqueue_test_payload, dequeue_test_payload,
}
use vesper_platform.App.DevMenu.Resident.{test_payload-resident}

abbrev address : Text
address = b'a' ∷ b'@' ∷ b'b' ∷ b'.' ∷ b'c' ∷ []

address_accepted : is_email address ≡ true
unfolding is_email is_address is_space
address_accepted = refl

dot_at_end_refused : is_email (b'a' ∷ b'@' ∷ b'b' ∷ b'.' ∷ []) ≡ false
unfolding is_email is_address is_space
dot_at_end_refused = refl

abbrev blank : Form
blank = record {
  error = none;
  is_pending = false;
  tokens = record { access = none; refresh = none };
  app = initial_state;
  sent = [];
  went_back = false;
}

abbrev menu : DevMenu ℕ ℕ ℕ
menu = record {
  client = new_client;
  status = record { queue_size = 0; is_locked = false; is_integrity_compromised = false };
  is_simulated_offline = false;
  is_busy = false;
  last_flush_result = none;
  last_enqueued_id = none;
  custom_api_key = [];
  custom_bundle_id = [];
}

abbrev simulated : AdapterRequest
simulated = build_simulated_request [] address 7

test_payload-resident_example :
    let t = enqueue_test_payload host "test" simulated menu in
    let u = dequeue_test_payload host t in
    (get_payload "test" t.client.queue ≡ some (serialize_adapter_request simulated))
    × (t.last_enqueued_id ≡ some "test")
    × (get_payload "test" u.client.queue ≡ none)
    × (u.last_enqueued_id ≡ none)
    × (u.is_busy ≡ false)
test_payload-resident_example = test_payload-resident host "test" simulated menu new_client-IsTimed

abbrev two_teas : OnlineCartItem
two_teas = record { id = "tea"; name = "Tea"; price = 3; quantity = 2 }

abbrev a_mug : InStoreCartItem
a_mug = record { id = "mug"; barcode = "75"; name = "Mug"; price = 9; quantity = 1 }

abbrev shopper : Session
shopper = record {
  tokens = record { access = some (b'a' ∷ []); refresh = none };
  app = record initial_state { online_cart = two_teas ∷ []; in_store_cart = a_mug ∷ [] };
  executed = [];
  refreshes = [];
}

-- A backend that queues every order.
abbrev queueing : ℕ → AdapterRequest → Reply VesperCheckoutResponse
queueing n r =
    answer (record { transaction_id = some (b't' ∷ []); status = none; is_frozen = true })

abbrev no_refresh : Text → RefreshReply
no_refresh token = answered 401 (answer (none, none))

abbrev first_bytes : List ℕ → Option (List ℕ)
first_bytes bytes = some (7 ∷ 8 ∷ [])

abbrev sound : Keychain
sound = record { read_error = none; access_error = none; refresh_error = none }

checkouts-IsSettled_example :
    let online =
      online_checkout
        (λ t. b's' ∷ [])
        first_bytes
        (λ n. n)
        sound
        queueing
        no_refresh
        []
        (b'4' ∷ [])
        (b'k' ∷ [])
        shopper in
    let in_store =
      in_store_checkout
        (λ t. b's' ∷ [])
        first_bytes
        (λ n. n)
        sound
        queueing
        no_refresh
        []
        (b'k' ∷ [])
        shopper in
    IsSettled (λ r app. clear_online_cart app) shopper online.0 online.1
    × IsPriced sound
        (build_transaction_ledger first_bytes
          (λ n. n)
          (map (online_item_json (λ t. b's' ∷ [])) shopper.app.online_cart))
        (get_online_total shopper.app)
        shopper
        online
    × IsSettled unless_queued shopper in_store.0 in_store.1
    × IsPriced sound
        (build_transaction_ledger first_bytes
          (λ n. n)
          (map (in_store_item_json (λ t. b's' ∷ [])) shopper.app.in_store_cart))
        (get_in_store_total shopper.app)
        shopper
        in_store
checkouts-IsSettled_example =
    checkouts-IsSettled (λ t. b's' ∷ []) first_bytes (λ n. n) sound queueing no_refresh []
      (b'4' ∷ []) (b'k' ∷ []) shopper

teas_total : get_online_total shopper.app ≡ 6
unfolding get_online_total online_total_from
teas_total = refl
