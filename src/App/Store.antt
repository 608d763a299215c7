-- ===== src/App/Store.antt =====
-- examples/demo-mobile/src/store/useAppStore.ts: the app's store. Prices are whole amounts, on which
-- the source's float64 sums are exact below 2^53. `isAuthenticated` is set from what the token store
-- answers; the token store and the translations are other components.
pub mod Lines
pub mod Carts
use vesper_platform.Base.{
  ℕ, suc, ◌+◌, ◌*◌, String, Bool, true, false, not, Option, none, some, List, [], ◌∷◌, ◌++◌, map,
  if◌then◌else◌, str_eq,
}

pub record OnlineCartItem : Type 0 where
  pub id : String
  pub name : String
  pub price : ℕ
  pub quantity : ℕ

pub record InStoreCartItem : Type 0 where
  pub id : String
  pub barcode : String
  pub name : String
  pub price : ℕ
  pub quantity : ℕ

pub data ThemeMode : Type 0 where
  light : ThemeMode
  dark : ThemeMode
  system : ThemeMode

pub data Language : Type 0 where
  en : Language
  es : Language

pub record AppState : Type 0 where
  pub is_authenticated : Bool
  pub user_name : Option String
  pub is_online : Bool
  pub is_frozen : Bool
  pub language : Language
  pub theme_mode : ThemeMode
  pub online_cart : List OnlineCartItem
  pub in_store_cart : List InStoreCartItem
  pub delivery_address : String

abbrev pub initial_state : AppState
initial_state = record {
  is_authenticated = false;
  user_name = none;
  is_online = true;
  is_frozen = false;
  language = en;
  theme_mode = system;
  online_cart = [];
  in_store_cart = [];
  delivery_address = "";
}

-- What both carts share: their items' ids, and how a repeated item is counted.
module _ {Item : Type 0} (id_of : Item → String) (one_more : Item → Item) where
  -- cart.find((i) => i.id === id)
  unfoldable pub find_item : String → List Item → Option Item
  find_item id [] = none
  find_item id (i ∷ rest) = if str_eq (id_of i) id then some i else find_item id rest

  unfoldable pub count_again : String → List Item → List Item
  count_again id [] = []
  count_again id (i ∷ rest) = (if str_eq (id_of i) id then one_more i else i) ∷ count_again id rest

  -- The item, with a quantity of 1, is added where its id is not in the cart.
  unfoldable pub add_item : Item → List Item → List Item
  unfolding find_item count_again
  add_item item cart = elim (find_item (id_of item) cart) [
    | some _ ↦ count_again (id_of item) cart
    | none ↦ cart ++ item ∷ []
  ]

abbrev pub one_more_online : OnlineCartItem → OnlineCartItem
one_more_online i = record i { quantity = i.quantity + 1 }

abbrev pub one_more_in_store : InStoreCartItem → InStoreCartItem
one_more_in_store i = record i { quantity = i.quantity + 1 }

-- The quantity of the argument is not looked at.
unfoldable pub add_to_online_cart : OnlineCartItem → AppState → AppState
add_to_online_cart item s = record s {
  online_cart =
      add_item (λ (i : OnlineCartItem). i.id) one_more_online (record item { quantity = 1 })
        s.online_cart;
}

unfoldable pub add_to_in_store_cart : InStoreCartItem → AppState → AppState
add_to_in_store_cart item s = record s {
  in_store_cart =
      add_item (λ (i : InStoreCartItem). i.id) one_more_in_store (record item { quantity = 1 })
        s.in_store_cart;
}

unfoldable pub clear_online_cart : AppState → AppState
clear_online_cart s = record s { online_cart = [] }

unfoldable pub clear_in_store_cart : AppState → AppState
clear_in_store_cart s = record s { in_store_cart = [] }

-- reduce((total, item) => total + item.price * item.quantity, total)
unfoldable pub online_total_from : ℕ → List OnlineCartItem → ℕ
online_total_from total [] = total
online_total_from total (i ∷ rest) = online_total_from (total + i.price * i.quantity) rest

unfoldable pub get_online_total : AppState → ℕ
get_online_total s = online_total_from 0 s.online_cart

unfoldable pub in_store_total_from : ℕ → List InStoreCartItem → ℕ
in_store_total_from total [] = total
in_store_total_from total (i ∷ rest) = in_store_total_from (total + i.price * i.quantity) rest

unfoldable pub get_in_store_total : AppState → ℕ
get_in_store_total s = in_store_total_from 0 s.in_store_cart

unfoldable pub logout : AppState → AppState
logout s = record s {
  is_authenticated = false;
  user_name = none;
  online_cart = [];
  in_store_cart = [];
}

-- An empty token or name counts as none.
unfoldable pub init_auth : Option String → AppState → AppState
init_auth none s = record s { is_authenticated = false }
init_auth (some token) s = record s { is_authenticated = not (str_eq token "") }

unfoldable pub set_is_authenticated : Bool → Option String → AppState → AppState
set_is_authenticated auth none s = record s { is_authenticated = auth; user_name = none }
set_is_authenticated auth (some name) s = record s {
  is_authenticated = auth;
  user_name = if str_eq name "" then none else some name;
}

unfoldable pub toggle_network : AppState → AppState
toggle_network s = record s { is_online = not s.is_online }

unfoldable pub set_frozen : Bool → AppState → AppState
set_frozen frozen s = record s { is_frozen = frozen }

unfoldable pub set_language : Language → AppState → AppState
set_language lang s = record s { language = lang }

unfoldable pub set_theme_mode : ThemeMode → AppState → AppState
set_theme_mode mode s = record s { theme_mode = mode }

unfoldable pub set_delivery_address : String → AppState → AppState
set_delivery_address address s = record s { delivery_address = address }
