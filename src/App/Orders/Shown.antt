-- ===== src/App/Orders/Shown.antt =====
-- What the two hooks show.
use vesper_platform.Base.{
  ◌≡◌, ◌≢◌, Bool-cases, inl, inr, refl, true, false, List, [], ◌∷◌, if◌then◌else◌,
}
use vesper_platform.Adapters.Outcome.{is_ok}
use vesper_platform.App.Orders.{
  OrderStatus, processing, shipped, delivered, cancelled, succeeded, failed, synced, Order, Orders,
  is_active, is_past, with_status, active_orders, past_orders, canceled, other_error, no_error,
  CatalogReply, products_with, raised, Catalog, end_catalog, settle_catalog, catch_catalog,
}

-- One list is an interleaving of the two others, in their order.
pub data Merge {A : Type 0} : List A → List A → List A → Type 0 where
  none_left : Merge [] [] []
  left : (x : A) {l r m : List A} → Merge l r m → Merge (x ∷ l) r (x ∷ m)
  right : (x : A) {l r m : List A} → Merge l r m → Merge l (x ∷ r) (x ∷ m)

status-is_past : (s : OrderStatus) → is_past s ≡ (if is_active s then false else true)
unfolding is_active is_past
status-is_past processing = refl
status-is_past shipped = refl
status-is_past delivered = refl
status-is_past cancelled = refl
status-is_past succeeded = refl
status-is_past failed = refl
status-is_past synced = refl

with_status-Merge : (os : List Order) → Merge (with_status is_active os) (with_status is_past os) os
unfolding with_status
with_status-Merge [] = none_left
with_status-Merge (o ∷ os) = elim (Bool-cases (is_active o.status)) [
  | inl e ↦ rw (status-is_past o.status, e) (left o (with_status-Merge os))
  | inr e ↦ rw (status-is_past o.status, e) (right o (with_status-Merge os))
]

-- Every order is shown once, either as active or as past, in the order of the answer.
pub active_orders-Merge : (s : Orders) → Merge (active_orders s) (past_orders s) s.orders
unfolding active_orders past_orders
active_orders-Merge s = with_status-Merge s.orders

-- An answer after the view is gone changes nothing, unless what was thrown is no Error.
pub end_catalog-aborted :
    (reply : CatalogReply) (s : Catalog) → reply ≢ raised no_error → end_catalog true reply s ≡ s
unfolding end_catalog settle_catalog catch_catalog
end_catalog-aborted (raised canceled) s h = refl
end_catalog-aborted (raised (other_error m)) s h = refl
end_catalog-aborted (raised no_error) s h = absurd (h refl)
end_catalog-aborted (products_with status ps) s h = elim (Bool-cases (is_ok status)) [
  | inl e ↦ rw e refl
  | inr e ↦ rw e refl
]
