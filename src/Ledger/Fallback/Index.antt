-- ===== src/Ledger/Fallback/Index.antt =====
-- The map `idToIndex` of the ledger: the place of each id in the queue.
use vesper_platform.Base.{
  ℕ, zero, suc, ◌+◌, String, ◌≡◌, refl, ◌∙◌, Option, none, some, List, [], ◌∷◌, ◌++◌, arith,
  if◌then◌else◌, length, get_elem?, erase_idx, Bytes, str_eq, eq_iff,
}
use vesper_platform.Ledger.Fallback.{
  LedgerBlock, Host, Ledger, compute_block_hash, rechain_at, rechain_from,
}
use vesper_platform.Ledger.Fallback.Chain.{hash_of, relink}

-- The last place of an id; ids are distinct, so it is the only one.
unfoldable pub position : String → List LedgerBlock → Option ℕ
position id [] = none
position id (b ∷ bs) = elim (position id bs) [
  | some k ↦ some (suc k)
  | none ↦ if str_eq b.id id then some 0 else none
]

abbrev pub AreDistinct : List LedgerBlock → Type 0
AreDistinct [] = Unit
AreDistinct (b ∷ bs) = (position b.id bs ≡ none) × AreDistinct bs

-- The queue without the blocks of one id.
unfoldable pub remove_id : String → List LedgerBlock → List LedgerBlock
remove_id id [] = []
remove_id id (b ∷ bs) = if str_eq b.id id then remove_id id bs else b ∷ remove_id id bs

pub position-remove_id :
    (id j : String) (bs : List LedgerBlock)
    → position id bs ≡ none
    → position id (remove_id j bs) ≡ none
unfolding position remove_id
position-remove_id id j [] h = refl
position-remove_id id j (b ∷ bs) h = ground (arith, position-remove_id id j bs)

pub remove_id-AreDistinct :
    (id : String) (bs : List LedgerBlock) → AreDistinct bs → AreDistinct (remove_id id bs)
unfolding remove_id
remove_id-AreDistinct id [] h = tt
remove_id-AreDistinct id (b ∷ bs) h =
    ground (arith, remove_id-AreDistinct id bs h.1, position-remove_id b.id id bs h.0)

pub remove_id_absent :
    (id : String) (bs : List LedgerBlock) → position id bs ≡ none → remove_id id bs ≡ bs
unfolding position remove_id
remove_id_absent id [] h = refl
remove_id_absent id (b ∷ bs) h = ground (arith, remove_id_absent id bs)

pub position-remove_id_self :
    (id : String) (bs : List LedgerBlock) → position id (remove_id id bs) ≡ none
unfolding position remove_id
position-remove_id_self id [] = refl
position-remove_id_self id (b ∷ bs) = ground (arith, position-remove_id_self id bs)

-- Splicing the queue at the place of an id removes that id.
pub erase_idx-position :
    (id : String) (bs : List LedgerBlock) (k : ℕ)
    → AreDistinct bs
    → position id bs ≡ some k
    → erase_idx bs k ≡ remove_id id bs
unfolding position remove_id
erase_idx-position id [] k d h = cc
erase_idx-position id (b ∷ bs) zero d h = ground (arith, remove_id_absent id bs, eq_iff b.id id)
erase_idx-position id (b ∷ bs) (suc k) d h =
    ground (arith, erase_idx-position id bs k d.1, eq_iff b.id id)

pub get_elem?-position :
    (id : String) (bs : List LedgerBlock) (k : ℕ)
    → position id bs ≡ some k
    → (b : LedgerBlock) × (get_elem? bs k ≡ some b) × (b.id ≡ id)
unfolding position
get_elem?-position id [] k h = cc
get_elem?-position id (b ∷ bs) zero h = (b, refl, ground (arith, eq_iff b.id id))
get_elem?-position id (b ∷ bs) (suc k) h = get_elem?-position id bs k (ground arith)

pub position-append :
    (j : String) (bs : List LedgerBlock) (b : LedgerBlock)
    → position j (bs ++ b ∷ []) ≡ (if str_eq b.id j then some (length bs) else position j bs)
unfolding position
position-append j [] b = refl
position-append j (c ∷ bs) b = ground (arith, position-append j bs b)

pub append-AreDistinct :
    (bs : List LedgerBlock) (b : LedgerBlock)
    → AreDistinct bs
    → position b.id bs ≡ none
    → AreDistinct (bs ++ b ∷ [])
unfolding position
append-AreDistinct [] b d h = (refl, tt)
append-AreDistinct (c ∷ bs) b d h = ground (
  arith,
  append-AreDistinct bs b d.1,
  position-append c.id bs b,
  eq_iff b.id c.id,
  eq_iff c.id b.id,
)

pub position-relink :
    (j : String) (previous : Bytes) (bs : List LedgerBlock)
    → position j (relink previous bs) ≡ position j bs
unfolding position relink
position-relink j previous [] = refl
position-relink j previous (b ∷ bs) = ground (arith, position-relink j (hash_of b previous) bs)

pub relink-AreDistinct :
    (previous : Bytes) (bs : List LedgerBlock) → AreDistinct bs → AreDistinct (relink previous bs)
unfolding relink
relink-AreDistinct previous [] d = tt
relink-AreDistinct previous (b ∷ bs) d = (
  position-relink b.id (hash_of b previous) bs ∙ d.0,
  relink-AreDistinct (hash_of b previous) bs d.1,
)

abbrev pub offset_or : ℕ → Option ℕ → Option ℕ → Option ℕ
offset_or i none other = other
offset_or i (some k) other = some (i + k)

module _ (host : Host) where
  -- The loop of `rechainLedger` records the place of every id that it meets.
  pub id_to_index-rechain_from :
      (j : String) (previous : Bytes) (i : ℕ) (bs : List LedgerBlock) (s : Ledger)
      → (rechain_from host previous i bs s).1.id_to_index j
        ≡ offset_or i (position j bs) (s.id_to_index j)
  unfolding rechain_from rechain_at compute_block_hash position
  id_to_index-rechain_from j previous i [] s = refl
  id_to_index-rechain_from j previous i (b ∷ bs) s =
      let r = rechain_at host previous i b s in
      ground (arith, id_to_index-rechain_from j r.0.current_hash (suc i) bs r.1)
