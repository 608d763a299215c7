-- ===== src/App/Store/Lines.antt =====
-- The online cart of the store: its lines, and the quantity of a product.
use vesper_platform.Base.{
  ℕ, ◌+◌, String, ◌≡◌, refl, false, none, some, List, [], ◌∷◌, ◌++◌, arith, if◌then◌else◌, str_eq,
  eq_iff, Option-cases, inl, inr,
}
use vesper_platform.App.Store.{OnlineCartItem, find_item, count_again, add_item, one_more_online}

-- The quantity that the cart shows for a product: of all its lines.
unfoldable pub quantity_of : String → List OnlineCartItem → ℕ
quantity_of id [] = 0
quantity_of id (i ∷ rest) =
    if str_eq i.id id then i.quantity + quantity_of id rest else quantity_of id rest

abbrev pub online_id : OnlineCartItem → String
online_id i = i.id

-- No product stands on two lines of the online cart.
abbrev pub AreDistinctLines : List OnlineCartItem → Type 0
AreDistinctLines [] = Unit
AreDistinctLines (i ∷ rest) =
    (find_item online_id one_more_online i.id rest ≡ none) × AreDistinctLines rest

pub quantity_of_absent :
    (id : String) (cart : List OnlineCartItem)
    → find_item online_id one_more_online id cart ≡ none
    → quantity_of id cart ≡ 0
unfolding quantity_of find_item
quantity_of_absent id [] e = refl
quantity_of_absent id (i ∷ rest) e = ground (arith, quantity_of_absent id rest)

pub quantity_of-append :
    (id : String) (cart : List OnlineCartItem) (i : OnlineCartItem)
    → quantity_of id (cart ++ i ∷ [])
      ≡ quantity_of id cart + (if str_eq i.id id then i.quantity else 0)
unfolding quantity_of
quantity_of-append id [] i = ground arith
quantity_of-append id (j ∷ rest) i = ground (arith, quantity_of-append id rest i)

pub quantity_of-count_again_other :
    (id j : String) (cart : List OnlineCartItem)
    → str_eq j id ≡ false
    → quantity_of id (count_again online_id one_more_online j cart) ≡ quantity_of id cart
unfolding quantity_of count_again
quantity_of-count_again_other id j [] n = refl
quantity_of-count_again_other id j (i ∷ rest) n =
    ground
      (arith, quantity_of-count_again_other id j rest n, eq_iff i.id j, eq_iff i.id id, eq_iff j id)

pub count_again_absent :
    (j : String) (cart : List OnlineCartItem)
    → find_item online_id one_more_online j cart ≡ none
    → count_again online_id one_more_online j cart ≡ cart
unfolding count_again find_item
count_again_absent j [] e = refl
count_again_absent j (i ∷ rest) e = ground (arith, count_again_absent j rest)

pub quantity_of-count_again :
    (id : String) (cart : List OnlineCartItem) (line : OnlineCartItem)
    → AreDistinctLines cart
    → find_item online_id one_more_online id cart ≡ some line
    → quantity_of id (count_again online_id one_more_online id cart) ≡ quantity_of id cart + 1
unfolding quantity_of count_again find_item
quantity_of-count_again id [] line d e = ground arith
quantity_of-count_again id (i ∷ rest) line d e =
    ground
      (arith, quantity_of-count_again id rest line d.1, count_again_absent id rest, eq_iff i.id id)

pub find_item-count_again :
    (k j : String) (cart : List OnlineCartItem)
    → find_item online_id one_more_online k cart ≡ none
    → find_item online_id one_more_online k (count_again online_id one_more_online j cart) ≡ none
unfolding find_item count_again
find_item-count_again k j [] e = refl
find_item-count_again k j (i ∷ rest) e = ground (arith, find_item-count_again k j rest)

pub find_item-append :
    (k : String) (cart : List OnlineCartItem) (i : OnlineCartItem)
    → find_item online_id one_more_online k cart ≡ none
    → str_eq i.id k ≡ false
    → find_item online_id one_more_online k (cart ++ i ∷ []) ≡ none
unfolding find_item
find_item-append k [] i e n = ground arith
find_item-append k (j ∷ rest) i e n = ground (arith, find_item-append k rest i)

pub count_again-AreDistinctLines :
    (j : String) (cart : List OnlineCartItem)
    → AreDistinctLines cart
    → AreDistinctLines (count_again online_id one_more_online j cart)
unfolding count_again
count_again-AreDistinctLines j [] d = tt
count_again-AreDistinctLines j (i ∷ rest) d =
    ground (arith, count_again-AreDistinctLines j rest d.1, find_item-count_again i.id j rest)

pub append-AreDistinctLines :
    (cart : List OnlineCartItem) (i : OnlineCartItem)
    → AreDistinctLines cart
    → find_item online_id one_more_online i.id cart ≡ none
    → AreDistinctLines (cart ++ i ∷ [])
unfolding find_item
append-AreDistinctLines [] i d e = (refl, tt)
append-AreDistinctLines (j ∷ rest) i d e = ground (
  arith,
  append-AreDistinctLines rest i d.1,
  find_item-append j.id rest i,
  eq_iff i.id j.id,
  eq_iff j.id i.id,
)

pub add_item-AreDistinctLines :
    (i : OnlineCartItem) (cart : List OnlineCartItem)
    → AreDistinctLines cart
    → AreDistinctLines (add_item online_id one_more_online i cart)
unfolding add_item
add_item-AreDistinctLines i cart d =
    elim (Option-cases (find_item online_id one_more_online i.id cart)) [
      | inl e ↦ rw (e, add_item) (append-AreDistinctLines cart i d e)
      | inr (line, e) ↦ rw (e, add_item) (count_again-AreDistinctLines i.id cart d)
    ]

pub quantity_of-add_item :
    (id : String) (i : OnlineCartItem) (cart : List OnlineCartItem)
    → AreDistinctLines cart
    → i.quantity ≡ 1
    → quantity_of id (add_item online_id one_more_online i cart)
      ≡ (if str_eq i.id id then quantity_of id cart + 1 else quantity_of id cart)
unfolding add_item
quantity_of-add_item id i cart d q =
    elim (Option-cases (find_item online_id one_more_online i.id cart)) [
      | inl e ↦ rw (e, add_item) (ground (arith, quantity_of-append id cart i))
      | inr (line, e) ↦
          rw (e, add_item)
            (ground (
              arith,
              quantity_of-count_again_other id i.id cart,
              quantity_of-count_again i.id cart line d e,
              eq_iff i.id id,
            ))
    ]
