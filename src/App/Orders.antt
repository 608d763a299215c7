-- ===== src/App/Orders.antt =====
-- examples/demo-mobile/src/features: orders/hooks/useOrders.ts and catalog/hooks/useVesperCatalog.ts, the
-- state of each hook and what its fetch does to it. Prices and totals are whole amounts.
pub mod Shown
use vesper_platform.Base.{
  ℕ, String, Bool, true, false, ◌||◌, ◌&&◌, not, Option, none, some, List, [], ◌∷◌, map,
  if◌then◌else◌, str_eq, length, ◌==◌,
}
use vesper_platform.Binary.Utf8.{Text}
use vesper_platform.Binary.Json.{decimal}
use vesper_platform.Core.ErrorMatrix.{ErrorValue}
use vesper_platform.Core.Client.{Reply, answer, failure}
use vesper_platform.Adapters.Outcome.{is_ok}

pub data OrderStatus : Type 0 where
  processing : OrderStatus
  shipped : OrderStatus
  delivered : OrderStatus
  cancelled : OrderStatus
  succeeded : OrderStatus
  failed : OrderStatus
  synced : OrderStatus

pub record OrderItem : Type 0 where
  pub id : String
  pub title : Text
  pub price : ℕ
  pub quantity : ℕ
  pub image : Option Text

pub record OrderTimelineEvent : Type 0 where
  pub status : OrderStatus
  pub timestamp : Text
  pub description : Text

pub record Order : Type 0 where
  pub id : String
  pub status : OrderStatus
  pub created_at : ℕ
  pub total : ℕ
  pub items : List OrderItem
  pub timeline : List OrderTimelineEvent
  pub type : Option Text

pub record Orders : Type 0 where
  pub orders : List Order
  pub is_loading : Bool
  pub error : Option ErrorValue

-- An answer of null is `none`.
unfoldable pub after_orders : Reply (Option (List Order)) → Orders → Orders
after_orders (answer none) s = record s { orders = []; is_loading = false }
after_orders (answer (some found)) s = record s { orders = found; is_loading = false }
after_orders (failure e) s = record s { error = some e; is_loading = false }

unfoldable pub fetch_orders : Bool → Reply (Option (List Order)) → Orders → Orders
unfolding after_orders
fetch_orders is_authenticated reply s =
    if is_authenticated
    then after_orders reply (record s { is_loading = true; error = none })
    else s

unfoldable pub is_active : OrderStatus → Bool
is_active processing = true
is_active shipped = true
is_active _ = false

unfoldable pub is_past : OrderStatus → Bool
is_past delivered = true
is_past cancelled = true
is_past succeeded = true
is_past failed = true
is_past synced = true
is_past _ = false

-- orders.filter((o) => test(o.status))
unfoldable pub with_status : (OrderStatus → Bool) → List Order → List Order
with_status test [] = []
with_status test (o ∷ os) =
    let rest = with_status test os in if test o.status then o ∷ rest else rest

unfoldable pub active_orders : Orders → List Order
unfolding with_status is_active
active_orders s = with_status is_active s.orders

unfoldable pub past_orders : Orders → List Order
unfolding with_status is_past
past_orders s = with_status is_past s.orders

-- orders.find((o) => o.id === id)
unfoldable pub find_order : String → List Order → Option Order
find_order id [] = none
find_order id (o ∷ os) = if str_eq o.id id then some o else find_order id os

unfoldable pub get_order_by_id : String → Orders → Option Order
unfolding find_order
get_order_by_id id s = find_order id s.orders

-- What the catalog service sends of a product, and what the views show of it.
pub record BackendProduct : Type 0 where
  pub id : ℕ
  pub title : Text
  pub price : ℕ
  pub description : Text
  pub category : Text
  pub image : Text
  pub barcode : Text

pub record Product : Type 0 where
  pub id : Text
  pub name : Text
  pub price : ℕ
  pub barcode : Text
  pub image : Text

unfoldable pub product_of : BackendProduct → Product
product_of p = record {
  id = decimal p.id;
  name = p.title;
  price = p.price;
  barcode = p.barcode;
  image = p.image;
}

-- What a fetch of the catalog raises, or the status and the products of the answer.
pub data CatalogError : Type 0 where
  -- an AbortError, or an error whose message is "Canceled"
  canceled : CatalogError
  other_error : Text → CatalogError
  -- what is thrown is no Error
  no_error : CatalogError

pub data CatalogReply : Type 0 where
  products_with : ℕ → List BackendProduct → CatalogReply
  raised : CatalogError → CatalogReply

pub record Catalog : Type 0 where
  pub products : List Product
  pub loading : Bool
  pub error : Option CatalogError

abbrev pub new_catalog : Catalog
new_catalog = record { products = []; loading = true; error = none }

abbrev pub failed_to_fetch : CatalogError
failed_to_fetch = other_error (
    b'F' ∷ b'a' ∷ b'i' ∷ b'l' ∷ b'e' ∷ b'd' ∷ b' ' ∷ b't' ∷ b'o' ∷ b' ' ∷ b'f' ∷ b'e' ∷ b't' ∷ b'c'
    ∷ b'h' ∷ b' ' ∷ b'c' ∷ b'a' ∷ b't' ∷ b'a' ∷ b'l' ∷ b'o' ∷ b'g' ∷ [])

-- Up to the await of the fetch.
unfoldable pub begin_catalog : Catalog → Catalog
begin_catalog s = record s { loading = true; error = none }

-- The catch block, where the signal is aborted or not.
unfoldable pub catch_catalog : Bool → CatalogError → Catalog → Catalog
catch_catalog aborted canceled s = s
catch_catalog aborted (other_error m) s =
    if aborted then s else record s { error = some (other_error m) }
catch_catalog aborted no_error s = record s { error = some failed_to_fetch }

unfoldable pub settle_catalog : Bool → CatalogReply → Catalog → Catalog
unfolding catch_catalog product_of
settle_catalog aborted (raised e) s = catch_catalog aborted e s
settle_catalog aborted (products_with status ps) s =
    if is_ok status
    then (if aborted then s else record s { products = map product_of ps })
    else catch_catalog aborted failed_to_fetch s

-- From the answer on, with the finally block.
unfoldable pub end_catalog : Bool → CatalogReply → Catalog → Catalog
unfolding settle_catalog
end_catalog aborted reply s =
    let t = settle_catalog aborted reply s in if aborted then t else record t { loading = false }

unfoldable pub is_empty : Catalog → Bool
is_empty s = not s.loading && length s.products == 0
