-- ===== src/App/Checkout.antt =====
-- The checkouts of examples/demo-mobile/src/features: payment/hooks/useGhostCheckout.ts,
-- online-shopping/hooks/useOnlineCheckoutMutation.ts and scan-and-go/hooks/useInStoreCheckoutMutation.ts,
-- with the calls of the two cart hooks. The code points of a store's string are given by `chars`, the
-- identifiers by arguments; an absent member of a response is `none`.
pub mod Ghost
pub mod Settled
use vesper_platform.Base.{
  ℕ, suc, ◌+◌, ◌*◌, String, Bool, true, false, ◌||◌, Option, none, some, List, [], ◌∷◌, ◌++◌, map,
  list_eq, if◌then◌else◌, Bytes,
}
use vesper_platform.App.Words.{
  text_post, text_content_type, text_json, text_idempotency_key, text_null, text_bearer,
  text_dpop_scheme, text_id, text_name, text_price, text_quantity, text_barcode, text_total,
  text_items, text_card, text_number, text_exp_month, text_exp_year, text_cvc, text_cvc_value,
  text_test_card, text_ledger, text_index, text_timestamp, text_payload, text_preceding_hash,
  text_hash, text_success, text_pay_path, text_online_path, text_in_store_path,
}
use vesper_platform.Binary.Utf8.{Text}
use vesper_platform.Binary.Json.{
  Json, string, number, array, object, Items, end, item, Members, empty, member, encode_json_body,
}
use vesper_platform.Binary.Headers.{encode_headers}
use vesper_platform.Binary.Wire.{AdapterRequest}
use vesper_platform.Core.ErrorMatrix.{ErrorValue}
use vesper_platform.Core.Context.{text_authorization, non_empty}
use vesper_platform.Core.Client.{Reply, answer, failure}
use vesper_platform.App.Store.{
  AppState, OnlineCartItem, InStoreCartItem, clear_online_cart, clear_in_store_cart,
}
use vesper_platform.App.Auth.{
  Keychain, Session, ExecuteRequestConfig, RefreshReply, get_access_token, execute,
}
use vesper_platform.App.Transactions.{TransactionBlock, build_transaction_ledger}

-- `${token}` of a string or null
abbrev pub or_null : Option Text → Text
or_null none = text_null
or_null (some t) = t

items_of : List Json → Items
items_of [] = end
items_of (j ∷ js) = item j (items_of js)

unfoldable pub array_of : List Json → Json
unfolding items_of
array_of js = array (items_of js)

unfoldable pub block_json : TransactionBlock → Json
block_json b = object (
    member text_index (number b.index) (
      member text_timestamp (number b.timestamp) (
        member text_payload (string b.payload) (
          member text_preceding_hash (string b.preceding_hash)
            (member text_hash (string b.hash) empty)))))

-- payload.items.reduce((sum, item) => sum + item.price * item.quantity, sum)
unfoldable pub total_from : {Item : Type 0} → (Item → ℕ) → (Item → ℕ) → ℕ → List Item → ℕ
total_from price quantity sum [] = sum
total_from price quantity sum (i ∷ rest) =
    total_from price quantity (sum + price i * quantity i) rest

unfoldable pub card_json : Text → Json
card_json card_number = object (
    member text_number (string card_number) (
      member text_exp_month (number 12)
        (member text_exp_year (number 2028) (member text_cvc (string text_cvc_value) empty))))

-- What the two backends answer.
pub record VesperCheckoutResponse : Type 0 where
  pub transaction_id : Option Text
  pub status : Option Text
  pub is_frozen : Bool

pub record CheckoutResponse : Type 0 where
  pub success : Bool
  pub order_id : Option Text
  pub is_queued : Bool

-- What a mutation comes to: the ledger was not built, the request failed, or the order is placed.
pub data Mutation : Type 0 where
  no_ledger : Mutation
  request_failed : ErrorValue → Mutation
  placed : CheckoutResponse → Mutation

-- response.status === 'success' || !!response.transactionId
unfoldable pub is_success : VesperCheckoutResponse → Bool
is_success r =
    (elim r.status [ none ↦ false | some s ↦ list_eq s text_success ])
    || (elim (non_empty r.transaction_id) [ none ↦ false | some _ ↦ true ])

abbrev pub checkout_config : Text → Option Text → Text → Json → ExecuteRequestConfig
checkout_config url token key body = record {
  method = text_post;
  path = none;
  url = some url;
  headers = none;
  encoded_headers = some (
      encode_headers (
        (text_authorization, text_bearer ++ or_null token)
        ∷ (text_content_type, text_json)
        ∷ (text_idempotency_key, key)
        ∷ []));
  body = some (encode_json_body body);
}

-- The two mutations, from the reply of `execute` on.
unfoldable pub after_online : Reply VesperCheckoutResponse → Session → Mutation × Session
unfolding is_success
after_online (failure e) s = (request_failed e, s)
after_online (answer r) s = (
  placed (record { success = is_success r; order_id = r.transaction_id; is_queued = false }),
  record s { app = clear_online_cart s.app },
)

unfoldable pub after_in_store : Reply VesperCheckoutResponse → Session → Mutation × Session
unfolding is_success
after_in_store (failure e) s = (request_failed e, s)
after_in_store (answer r) s = (
  placed (record { success = is_success r; order_id = r.transaction_id; is_queued = r.is_frozen }),
  if r.is_frozen then s else record s { app = clear_in_store_cart s.app },
)

module _ (chars : String → Text) where
  unfoldable pub online_item_json : OnlineCartItem → Json
  online_item_json i = object (
      member text_id (string (chars i.id)) (
        member text_name (string (chars i.name))
          (member text_price (number i.price) (member text_quantity (number i.quantity) empty))))

  unfoldable pub in_store_item_json : InStoreCartItem → Json
  in_store_item_json i = object (
      member text_id (string (chars i.id)) (
        member text_barcode (string (chars i.barcode)) (
          member text_name (string (chars i.name))
            (member text_price (number i.price) (member text_quantity (number i.quantity) empty)))))

  unfoldable pub online_body : Text → List OnlineCartItem → List TransactionBlock → Json
  unfolding total_from array_of online_item_json card_json block_json
  online_body card_number items ledger = object (
      member text_total
        (number (
          total_from (λ (i : OnlineCartItem). i.price) (λ (i : OnlineCartItem). i.quantity) 0
            items))
        (member text_items (array_of (map online_item_json items)) (
          member text_card (card_json card_number)
            (member text_ledger (array_of (map block_json ledger)) empty))))

  unfoldable pub in_store_body : List InStoreCartItem → List TransactionBlock → Json
  unfolding total_from array_of card_json block_json
  in_store_body items ledger = object (
      member text_total
        (number (
          total_from (λ (i : InStoreCartItem). i.price) (λ (i : InStoreCartItem). i.quantity) 0
            items))
        (member text_card (card_json text_test_card)
          (member text_ledger (array_of (map block_json ledger)) empty)))

  module _ (digest : Bytes → Option Bytes) (date_now : ℕ → ℕ) where
    module _ (keychain : Keychain) (client : ℕ → AdapterRequest → Reply VesperCheckoutResponse)
        (refresh : Text → RefreshReply) (api_url : Text) where
      -- The rest of the online mutation, from what building the ledger comes to.
      unfoldable pub online_order :
          Text → Text → Option Text → Session → Option (List TransactionBlock) → Mutation × Session
      unfolding online_body after_online
      online_order card_number key token s none = (no_ledger, s)
      online_order card_number key token s (some ledger) =
          let r =
            execute keychain client refresh api_url
              (checkout_config (api_url ++ text_online_path) token key
                (online_body card_number s.app.online_cart ledger))
              s in
          after_online r.0 r.1

      -- From what reading the access token comes to, with the items of the cart as `handleCheckout` passes
      -- them.
      unfoldable pub online_with_token :
          Text → Text → Reply (Option Text) → Session → Mutation × Session
      unfolding online_order online_item_json
      online_with_token card_number key (failure e) s = (request_failed e, s)
      online_with_token card_number key (answer token) s =
          online_order card_number key token s
            (build_transaction_ledger digest date_now (map online_item_json s.app.online_cart))

      -- mutationFn and onSuccess
      unfoldable pub online_checkout : Text → Text → Session → Mutation × Session
      unfolding online_with_token
      online_checkout card_number key s =
          online_with_token card_number key (get_access_token keychain s.tokens) s

      unfoldable pub in_store_order :
          Text → Option Text → Session → Option (List TransactionBlock) → Mutation × Session
      unfolding in_store_body after_in_store
      in_store_order key token s none = (no_ledger, s)
      in_store_order key token s (some ledger) =
          let r =
            execute keychain client refresh api_url
              (checkout_config (api_url ++ text_in_store_path) token key
                (in_store_body s.app.in_store_cart ledger))
              s in
          after_in_store r.0 r.1

      unfoldable pub in_store_with_token : Text → Reply (Option Text) → Session → Mutation × Session
      unfolding in_store_order in_store_item_json
      in_store_with_token key (failure e) s = (request_failed e, s)
      in_store_with_token key (answer token) s =
          in_store_order key token s
            (build_transaction_ledger digest date_now (map in_store_item_json s.app.in_store_cart))

      unfoldable pub in_store_checkout : Text → Session → Mutation × Session
      unfolding in_store_with_token
      in_store_checkout key s = in_store_with_token key (get_access_token keychain s.tokens) s
