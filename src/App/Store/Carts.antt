-- ===== src/App/Store/Carts.antt =====
-- Sequences of the store's actions, and what is in the online cart after them.
use vesper_platform.Base.{
  ℕ, ◌+◌, ◌*◌, String, ◌≡◌, refl, ap, ◌∙◌, Bool, Option, none, some, List, [], ◌∷◌, ◌++◌, arith,
  if◌then◌else◌, str_eq, eq_iff, Option-cases, Bool-cases, subst, inl, inr,
}
use vesper_platform.App.Store.{
  OnlineCartItem, InStoreCartItem, ThemeMode, Language, AppState, initial_state, find_item,
  count_again, add_item, one_more_online, add_to_online_cart, add_to_in_store_cart,
  clear_online_cart, clear_in_store_cart, online_total_from, get_online_total, logout, init_auth,
  set_is_authenticated, toggle_network, set_frozen, set_language, set_theme_mode,
  set_delivery_address,
}
use vesper_platform.App.Store.Lines.{
  quantity_of, online_id, AreDistinctLines, count_again_absent, add_item-AreDistinctLines,
  quantity_of-add_item,
}

pub data Action : Type 0 where
  add_online : OnlineCartItem → Action
  add_in_store : InStoreCartItem → Action
  clear_online : Action
  clear_in_store : Action
  log_out : Action
  log_in : Bool → Option String → Action
  restore : Option String → Action
  network : Action
  freeze : Bool → Action
  language : Language → Action
  theme : ThemeMode → Action
  address : String → Action

unfoldable pub act : AppState → Action → AppState
act s (add_online i) = add_to_online_cart i s
act s (add_in_store i) = add_to_in_store_cart i s
act s clear_online = clear_online_cart s
act s clear_in_store = clear_in_store_cart s
act s log_out = logout s
act s (log_in auth name) = set_is_authenticated auth name s
act s (restore token) = init_auth token s
act s network = toggle_network s
act s (freeze b) = set_frozen b s
act s (language l) = set_language l s
act s (theme t) = set_theme_mode t s
act s (address a) = set_delivery_address a s

unfoldable pub act_all : AppState → List Action → AppState
unfolding act
act_all s [] = s
act_all s (a ∷ rest) = act_all (act s a) rest

-- How often a product was added since its cart was last emptied.
unfoldable pub online_count : String → ℕ → List Action → ℕ
online_count id n [] = n
online_count id n (add_online i ∷ rest) = online_count id (if str_eq i.id id then n + 1 else n) rest
online_count id n (clear_online ∷ rest) = online_count id 0 rest
online_count id n (log_out ∷ rest) = online_count id 0 rest
online_count id n (add_in_store i ∷ rest) = online_count id n rest
online_count id n (clear_in_store ∷ rest) = online_count id n rest
online_count id n (log_in auth name ∷ rest) = online_count id n rest
online_count id n (restore token ∷ rest) = online_count id n rest
online_count id n (network ∷ rest) = online_count id n rest
online_count id n (freeze b ∷ rest) = online_count id n rest
online_count id n (language l ∷ rest) = online_count id n rest
online_count id n (theme t ∷ rest) = online_count id n rest
online_count id n (address a ∷ rest) = online_count id n rest

-- What the online cart holds after some actions, counted from a cart that holds `n`.
act_all-count :
    (id : String) (s : AppState) (actions : List Action)
    → AreDistinctLines s.online_cart
    → AreDistinctLines (act_all s actions).online_cart
      × (quantity_of id (act_all s actions).online_cart
          ≡ online_count id (quantity_of id s.online_cart) actions)
unfolding act_all online_count add_to_online_cart add_to_in_store_cart clear_online_cart
    clear_in_store_cart logout set_is_authenticated init_auth toggle_network set_frozen set_language
    set_theme_mode set_delivery_address quantity_of
act_all-count id s [] d = (d, refl)
act_all-count id s (add_online i ∷ rest) d =
    let one : OnlineCartItem = record i { quantity = 1 } in
    let r =
      act_all-count id (act s (add_online i)) rest
        (add_item-AreDistinctLines one s.online_cart d) in
    (r.0, r.1 ∙ ap (λ n. online_count id n rest) (quantity_of-add_item id one s.online_cart d refl))
act_all-count id s (clear_online ∷ rest) d = act_all-count id (act s clear_online) rest tt
act_all-count id s (log_out ∷ rest) d = act_all-count id (act s log_out) rest tt
act_all-count id s (add_in_store i ∷ rest) d = act_all-count id (act s (add_in_store i)) rest d
act_all-count id s (clear_in_store ∷ rest) d = act_all-count id (act s clear_in_store) rest d
act_all-count id s (log_in auth none ∷ rest) d = act_all-count id (act s (log_in auth none)) rest d
act_all-count id s (log_in auth (some n) ∷ rest) d =
    act_all-count id (act s (log_in auth (some n))) rest d
act_all-count id s (restore none ∷ rest) d = act_all-count id (act s (restore none)) rest d
act_all-count id s (restore (some t) ∷ rest) d = act_all-count id (act s (restore (some t))) rest d
act_all-count id s (network ∷ rest) d = act_all-count id (act s network) rest d
act_all-count id s (freeze b ∷ rest) d = act_all-count id (act s (freeze b)) rest d
act_all-count id s (language l ∷ rest) d = act_all-count id (act s (language l)) rest d
act_all-count id s (theme t ∷ rest) d = act_all-count id (act s (theme t)) rest d
act_all-count id s (address a ∷ rest) d = act_all-count id (act s (address a)) rest d

-- After any sequence of the store's actions from its initial state no product stands on two lines of
-- the online cart, and the cart's quantity of a product is the number of times it was added since the
-- cart was last emptied, by `clearOnlineCart` or `logout`.
pub act_all-online_count :
    (id : String) (actions : List Action)
    → AreDistinctLines (act_all initial_state actions).online_cart
      × (quantity_of id (act_all initial_state actions).online_cart ≡ online_count id 0 actions)
unfolding quantity_of
act_all-online_count id actions = act_all-count id initial_state actions tt

total_from-split :
    (t : ℕ) (cart : List OnlineCartItem) → online_total_from t cart ≡ t + online_total_from 0 cart
unfolding online_total_from
total_from-split t [] = omega arith
total_from-split t (i ∷ rest) =
    let p = i.price * i.quantity in
    omega (arith, total_from-split (t + p) rest, total_from-split (0 + p) rest)

total-append :
    (cart : List OnlineCartItem) (i : OnlineCartItem)
    → online_total_from 0 (cart ++ i ∷ []) ≡ online_total_from 0 cart + i.price * i.quantity
unfolding online_total_from
total-append [] i = omega arith
total-append (j ∷ rest) i =
    let p = j.price * j.quantity in
    omega (
      arith,
      total-append rest i,
      total_from-split (0 + p) rest,
      total_from-split (0 + p) (rest ++ i ∷ []),
    )

times_one_more : (p q : ℕ) → p * (q + 1) ≡ p * q + p
times_one_more p q = omega arith

total-count_again :
    (id : String) (cart : List OnlineCartItem) (line : OnlineCartItem)
    → AreDistinctLines cart
    → find_item online_id one_more_online id cart ≡ some line
    → online_total_from 0 (count_again online_id one_more_online id cart)
      ≡ online_total_from 0 cart + line.price
unfolding online_total_from count_again find_item
total-count_again id [] line d e = ground arith
total-count_again id (i ∷ rest) line d e = elim (Bool-cases (str_eq i.id id)) [
  | inl y ↦
      let same : i ≡ line = ground (arith) in
      let price : i.price ≡ line.price = ap (λ (l : OnlineCartItem). l.price) same in
      let absent : find_item online_id one_more_online id rest ≡ none =
        subst (λ k. find_item online_id one_more_online k rest ≡ none) ((eq_iff i.id id).0 y) d.0 in
      rw (y, count_again_absent id rest absent)
        (omega (
          arith,
          price,
          times_one_more i.price i.quantity,
          total_from-split (0 + i.price * (i.quantity + 1)) rest,
          total_from-split (0 + i.price * i.quantity) rest,
        ))
  | inr n ↦
      let later : find_item online_id one_more_online id rest ≡ some line = ground (arith) in
      let p = i.price * i.quantity in
      rw n (
        omega (
          arith,
          total-count_again id rest line d.1 later,
          total_from-split (0 + p) rest,
          total_from-split (0 + p) (count_again online_id one_more_online id rest),
        ))
]

-- What one more of a product costs: the price of the cart's line for it, where there is one.
pub charged : OnlineCartItem → List OnlineCartItem → ℕ
charged item cart = elim (find_item online_id one_more_online item.id cart) [
  | some line ↦ line.price
  | none ↦ item.price
]

-- Adding a product to an online cart without double lines raises the total by the price at which the
-- product already stands in the cart, or by its own price where it is new.
pub get_online_total-add_to_online_cart :
    (item : OnlineCartItem) (s : AppState)
    → AreDistinctLines s.online_cart
    → get_online_total (add_to_online_cart item s) ≡ get_online_total s + charged item s.online_cart
unfolding get_online_total add_to_online_cart add_item charged
get_online_total-add_to_online_cart item s d =
    elim (Option-cases (find_item online_id one_more_online item.id s.online_cart)) [
      | inl e ↦
          rw (e, add_item, charged)
            (omega (arith, total-append s.online_cart (record item { quantity = 1 })))
      | inr (line, e) ↦ rw (e, add_item, charged) (total-count_again item.id s.online_cart line d e)
    ]
