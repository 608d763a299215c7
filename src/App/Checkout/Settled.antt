-- ===== src/App/Checkout/Settled.antt =====
-- What a checkout leaves of the session, and the total that it sends.
use vesper_platform.Base.{
  ◌++◌, ◌∙◌, map, ℕ, ◌+◌, ◌*◌, String, ◌≡◌, ◌⊎◌, inl, inr, refl, ap, Option, none, some, List, [],
  ◌∷◌, if◌then◌else◌, Bytes, Bool-cases,
}
use vesper_platform.Binary.Utf8.{Text}
use vesper_platform.Binary.Json.{encode_json_body, Json, number, object, Members, member}
use vesper_platform.Binary.Wire.{AdapterRequest}
use vesper_platform.Core.ErrorMatrix.{ErrorValue}
use vesper_platform.Core.Client.{Reply, answer, failure}
use vesper_platform.App.Words.{text_total, text_online_path, text_in_store_path}
use vesper_platform.App.Store.{
  AppState, OnlineCartItem, InStoreCartItem, logout, clear_online_cart, clear_in_store_cart,
  get_online_total, get_in_store_total, online_total_from, in_store_total_from,
}
use vesper_platform.App.Auth.Sent.{executed-execute}
use vesper_platform.App.Auth.{
  Session, Keychain, ExecuteRequestConfig, RefreshReply, request_of, get_access_token, execute,
}
use vesper_platform.App.Auth.Outcomes.{execute-IsExecuted}
use vesper_platform.App.Transactions.{TransactionBlock, build_transaction_ledger}
use vesper_platform.App.Checkout.{
  online_item_json, in_store_item_json, checkout_config, online_with_token, in_store_with_token,
  VesperCheckoutResponse, CheckoutResponse, Mutation, no_ledger, request_failed, placed, total_from,
  online_body, in_store_body, online_order, in_store_order, after_online, after_in_store,
  online_checkout, in_store_checkout,
}

-- A checkout that fails before its request changes nothing, one whose request fails leaves the app as
-- it was or logged out, and a placed order leaves what `clear` makes of the app.
abbrev pub IsSettled :
    (CheckoutResponse → AppState → AppState) → Session → Mutation → Session → Type 0
IsSettled clear s no_ledger t = t ≡ s
IsSettled clear s (request_failed e) t = (t.app ≡ s.app) ⊎ (t.app ≡ logout s.app)
IsSettled clear s (placed r) t = t.app ≡ clear r s.app

abbrev pub unless_queued : CheckoutResponse → AppState → AppState
unless_queued r app = if r.is_queued then app else clear_in_store_cart app

-- The session of `execute` is that of the call, unless it failed and logged out.
abbrev IsLeft : {Answer : Type 0} → Session → Reply Answer → Session → Type 0
IsLeft s r t = (t.app ≡ s.app) ⊎ ((e : ErrorValue) × (r ≡ failure e) × (t.app ≡ logout s.app))

execute-IsLeft :
    {Answer : Type 0}
    → (keychain : Keychain) → (client : ℕ → AdapterRequest → Reply Answer)
    → (refresh : Text → RefreshReply)
    → (api_url : Text) (config : ExecuteRequestConfig) (s : Session)
    → let o = execute keychain client refresh api_url config s in IsLeft s o.0 o.1
execute-IsLeft keychain client refresh api_url config s =
    elim (execute-IsExecuted keychain client refresh api_url config s) [
      | inl (other, (answered, tokens, app)) ↦ inl app
      | inr (e, h, k, inl (f, unread, (failed, tokens, app))) ↦ inl app
      | inr (e, h, k, inr (readable, inl (f, failed, lost, out))) ↦ inr (f, failed, out)
      | inr (e, h, k, inr (readable, inr (token, stored, done))) ↦
          let (status, access, refreshed, a, reply, ok, again, given, app, saved, tokens) = done in
          inl app
    ]

after_online-IsSettled :
    (r : Reply VesperCheckoutResponse) (s t : Session)
    → IsLeft s r t
    → IsSettled (λ r app. clear_online_cart app) s (after_online r t).0 (after_online r t).1
unfolding after_online
after_online-IsSettled (failure e) s t (inl h) = inl h
after_online-IsSettled (failure e) s t (inr h) = inr h.2
after_online-IsSettled (answer r) s t (inl h) = ap clear_online_cart h
after_online-IsSettled (answer r) s t (inr h) = absurd (let (e, f, g) = h in cc)

after_in_store-IsSettled :
    (r : Reply VesperCheckoutResponse) (s t : Session)
    → IsLeft s r t
    → IsSettled unless_queued s (after_in_store r t).0 (after_in_store r t).1
unfolding after_in_store
after_in_store-IsSettled (failure e) s t (inl h) = inl h
after_in_store-IsSettled (failure e) s t (inr h) = inr h.2
after_in_store-IsSettled (answer r) s t (inl h) = elim (Bool-cases r.is_frozen) [
  | inl e ↦ rw e h
  | inr e ↦ rw e (ap clear_in_store_cart h)
]
after_in_store-IsSettled (answer r) s t (inr h) = absurd (let (e, f, g) = h in cc)

total_from-online :
    (sum : ℕ) (cart : List OnlineCartItem)
    → total_from (λ (i : OnlineCartItem). i.price) (λ (i : OnlineCartItem). i.quantity) sum cart
      ≡ online_total_from sum cart
unfolding total_from online_total_from
total_from-online sum [] = refl
total_from-online sum (i ∷ rest) = total_from-online (sum + i.price * i.quantity) rest

total_from-in_store :
    (sum : ℕ) (cart : List InStoreCartItem)
    → total_from (λ (i : InStoreCartItem). i.price) (λ (i : InStoreCartItem). i.quantity) sum cart
      ≡ in_store_total_from sum cart
unfolding total_from in_store_total_from
total_from-in_store sum [] = refl
total_from-in_store sum (i ∷ rest) = total_from-in_store (sum + i.price * i.quantity) rest

-- The body of an order starts with its total.
abbrev pub HasTotal : ℕ → Json → Type 0
HasTotal n body = (rest : Members) × (body ≡ object (member text_total (number n) rest))

same-HasTotal :
    (m n : ℕ) (rest : Members) → m ≡ n → HasTotal n (object (member text_total (number m) rest))
same-HasTotal m n rest e = (rest, ap (λ k. object (member text_total (number k) rest)) e)

-- A checkout sent nothing and left the session, because the access token could not be read or the ledger
-- not be built; or the first request that it sent is an order with the total.
abbrev pub IsPriced :
    Keychain → Option (List TransactionBlock) → ℕ → Session → Mutation × Session → Type 0
IsPriced keychain ledger total s o =
    ((o.1 ≡ s)
      × (((ledger ≡ none) × (o.0 ≡ no_ledger))
          ⊎ ((e : ErrorValue) × (keychain.read_error ≡ some e) × (o.0 ≡ request_failed e))))
    ⊎ ((request : AdapterRequest) × (more : List AdapterRequest) × (body : Json) × (o.1.executed
          ≡ s.executed ++ request ∷ more)
        × (request.body ≡ some (encode_json_body body))
        × HasTotal total body)

-- What a checkout does, by what its placed orders make of the app.
abbrev IsDone :
    Keychain
    → Option (List TransactionBlock)
    → ℕ
    → (CheckoutResponse → AppState → AppState)
    → Session
    → Mutation × Session
    → Type 0
IsDone keychain ledger total clear s o =
    IsSettled clear s o.0 o.1 × IsPriced keychain ledger total s o

executed-after_online :
    (r : Reply VesperCheckoutResponse) (t : Session) → (after_online r t).1.executed ≡ t.executed
unfolding after_online
executed-after_online (failure e) t = refl
executed-after_online (answer r) t = refl

executed-after_in_store :
    (r : Reply VesperCheckoutResponse) (t : Session) → (after_in_store r t).1.executed ≡ t.executed
unfolding after_in_store
executed-after_in_store (failure e) t = refl
executed-after_in_store (answer r) t = elim (Bool-cases r.is_frozen) [
  | inl e ↦ rw e refl
  | inr e ↦ rw e refl
]

module _ (chars : String → Text) (digest : Bytes → Option Bytes) (date_now : ℕ → ℕ)
    (keychain : Keychain) (client : ℕ → AdapterRequest → Reply VesperCheckoutResponse)
    (refresh : Text → RefreshReply) (api_url : Text) where
  online_order-IsDone :
      (card_number key : Text) (token : Option Text) (s : Session)
      (l : Option (List TransactionBlock))
      → IsDone keychain l
          (get_online_total s.app)
          (λ r app. clear_online_cart app)
          s
          (online_order chars digest date_now keychain client refresh api_url card_number key token
            s l)
  unfolding online_order request_of online_body get_online_total
  online_order-IsDone card_number key token s none = (refl, inl (refl, inl (refl, refl)))
  online_order-IsDone card_number key token s (some ledger) =
      let body = online_body chars card_number s.app.online_cart ledger in
      let config = checkout_config (api_url ++ text_online_path) token key body in
      let (more, e) = executed-execute keychain client refresh api_url config s in
      (
        after_online-IsSettled _ s _ (execute-IsLeft keychain client refresh api_url config s),
        inr (
          request_of api_url config,
          more,
          body,
          executed-after_online _ _ ∙ e,
          refl,
          same-HasTotal _ _ _ (total_from-online 0 s.app.online_cart),
        ),
      )

  in_store_order-IsDone :
      (key : Text) (token : Option Text) (s : Session) (l : Option (List TransactionBlock))
      → IsDone keychain l
          (get_in_store_total s.app)
          unless_queued
          s
          (in_store_order chars digest date_now keychain client refresh api_url key token s l)
  unfolding in_store_order request_of in_store_body get_in_store_total
  in_store_order-IsDone key token s none = (refl, inl (refl, inl (refl, refl)))
  in_store_order-IsDone key token s (some ledger) =
      let body = in_store_body chars s.app.in_store_cart ledger in
      let config = checkout_config (api_url ++ text_in_store_path) token key body in
      let (more, e) = executed-execute keychain client refresh api_url config s in
      (
        after_in_store-IsSettled _ s _ (execute-IsLeft keychain client refresh api_url config s),
        inr (
          request_of api_url config,
          more,
          body,
          executed-after_in_store _ _ ∙ e,
          refl,
          same-HasTotal _ _ _ (total_from-in_store 0 s.app.in_store_cart),
        ),
      )

  -- By what reading the access token comes to.
  access-cases :
      (o : Option ErrorValue) (access : Option Text)
      → ((e : ErrorValue) × (o ≡ some e)
          × ((elim o [ none ↦ answer access | some f ↦ failure f ]) ≡ failure e))
        ⊎ ((o ≡ none) × ((elim o [ none ↦ answer access | some f ↦ failure f ]) ≡ answer access))
  access-cases none access = inr (refl, refl)
  access-cases (some e) access = inl (e, refl, refl)

  -- A checkout sends the total that its cart shows, in the first request that it hands to the client; it
  -- hands over none only where the access token cannot be read or the ledger not be built, and then it
  -- changes nothing. An order that is placed empties its cart and changes nothing else of the app, except
  -- that the in-store cart is kept when the answer says that the order is queued. A checkout whose
  -- request fails leaves the app as it was or logged out.
  pub checkouts-IsSettled :
      (card_number key : Text) (s : Session)
      → let online =
          online_checkout chars digest date_now keychain client refresh api_url card_number key s in
        let in_store =
          in_store_checkout chars digest date_now keychain client refresh api_url key s in
        IsSettled (λ r app. clear_online_cart app) s online.0 online.1
        × IsPriced keychain
            (build_transaction_ledger digest date_now
              (map (online_item_json chars) s.app.online_cart))
            (get_online_total s.app)
            s
            online
        × IsSettled unless_queued s in_store.0 in_store.1
        × IsPriced keychain
            (build_transaction_ledger digest date_now
              (map (in_store_item_json chars) s.app.in_store_cart))
            (get_in_store_total s.app)
            s
            in_store
  unfolding online_checkout in_store_checkout online_with_token in_store_with_token get_access_token
  checkouts-IsSettled card_number key s = elim (access-cases keychain.read_error s.tokens.access) [
    | inl (e, unread, h) ↦
        rw h
          (inl refl, inl (refl, inr (e, unread, refl)), inl refl, inl (refl, inr (e, unread, refl)))
    | inr (readable, h) ↦
        let online = online_order-IsDone card_number key s.tokens.access s _ in
        let in_store = in_store_order-IsDone key s.tokens.access s _ in
        rw h (online.0, online.1, in_store.0, in_store.1)
  ]
