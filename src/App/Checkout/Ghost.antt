-- ===== src/App/Checkout/Ghost.antt =====
-- examples/demo-mobile/src/features/payment/hooks/useGhostCheckout.ts. A rethrown error is `none`, and
-- stands in the state.
use vesper_platform.Base.{ℕ, Bool, true, false, Option, none, some, List, [], ◌∷◌, ◌++◌, map, Bytes}
use vesper_platform.App.Words.{
  text_post, text_content_type, text_json, text_idempotency_key, text_dpop_scheme, text_ledger,
  text_pay_path,
}
use vesper_platform.Binary.Utf8.{Text}
use vesper_platform.Binary.Json.{Json, object, empty, member, encode_json_body}
use vesper_platform.Binary.Wire.{AdapterRequest}
use vesper_platform.Core.ErrorMatrix.{ErrorValue}
use vesper_platform.Core.Context.{text_authorization}
use vesper_platform.Core.Client.{Reply, answer, failure}
use vesper_platform.App.Transactions.{TransactionBlock, build_transaction_ledger}
use vesper_platform.App.Checkout.{or_null, array_of, block_json}

-- The state of useGhostCheckout; `sent` logs the requests with their ids.
pub data CheckoutError : Type 0 where
  ledger_error : CheckoutError
  client_error : ErrorValue → CheckoutError

pub record GhostCheckout : Type 0 where
  pub is_processing : Bool
  pub error : Option CheckoutError
  pub sent : List (Text × AdapterRequest)

abbrev text_checkout : Text
text_checkout = b'c' ∷ b'h' ∷ b'e' ∷ b'c' ∷ b'k' ∷ b'o' ∷ b'u' ∷ b't' ∷ b'-' ∷ []

unfoldable pub ghost_request : Text → Option Text → Text → List TransactionBlock → AdapterRequest
unfolding array_of block_json
ghost_request api_url token key ledger = record {
  method = text_post;
  url = api_url ++ text_pay_path;
  encoded_headers = none;
  headers = some (
      (text_content_type, text_json)
      ∷ (text_authorization, text_dpop_scheme ++ or_null token)
      ∷ (text_idempotency_key, key)
      ∷ []);
  body =
      some
        (encode_json_body (object (member text_ledger (array_of (map block_json ledger)) empty)));
  timeout_ms = none;
}

-- A rethrown error is `none`, and stands in the state.
unfoldable pub after_ghost :
    {Answer : Type 0} → Reply Answer → GhostCheckout → Option Answer × GhostCheckout
after_ghost (answer a) g = (some a, record g { is_processing = false })
after_ghost (failure e) g =
    (none, record g { is_processing = false; error = some (client_error e) })

module _ {Answer : Type 0} (digest : Bytes → Option Bytes) (date_now : ℕ → ℕ)
    (client : Text → AdapterRequest → Reply Answer) where
  unfoldable pub execute_checkout :
      Text → Option Text → Text → List Json → GhostCheckout → Option Answer × GhostCheckout
  unfolding after_ghost ghost_request
  execute_checkout api_url token key items g =
      let started = record g { is_processing = true; error = none } in
      elim (build_transaction_ledger digest date_now items) [
        | none ↦ (none, record started { is_processing = false; error = some ledger_error })
        | some ledger ↦
            let request = ghost_request api_url token key ledger in
            let id = text_checkout ++ key in
            after_ghost (client id request)
              (record started { sent = started.sent ++ (id, request) ∷ [] })
      ]
