-- ===== src/App/Transactions/Chain.antt =====
-- What a verifier of a transaction ledger can check.
use vesper_platform.Base.{
  ℕ, suc, ◌≡◌, refl, subst, Option, some, List, [], ◌∷◌, map, Bytes, >>=-eq-some,
}
use vesper_platform.Binary.Utf8.{Text, encode_text}
use vesper_platform.Binary.Json.{Json, stringify}
use vesper_platform.App.Transactions.{
  TransactionBlock, hex, data_to_hash, genesis_hash, next_block, build_from,
  build_transaction_ledger,
}

module _ (digest : Bytes → Option Bytes) where
  -- The block's hash is the digest of its payload, the preceding hash and its time.
  abbrev pub IsSigned : TransactionBlock → Type 0
  IsSigned b =
      (bytes : Bytes) × (digest (encode_text (data_to_hash b.payload b.preceding_hash b.timestamp))
        ≡ some bytes)
      × (b.hash ≡ hex bytes)

  -- From an index and a preceding hash on: the indices count up, and each block names the hash of
  -- the block before it.
  abbrev pub IsLinked : ℕ → Text → List TransactionBlock → Type 0
  IsLinked i preceding [] = Unit
  IsLinked i preceding (b ∷ bs) =
      (b.index ≡ i) × (b.preceding_hash ≡ preceding) × IsSigned b × IsLinked (suc i) b.hash bs

  module _ (date_now : ℕ → ℕ) where
    next_block_lem :
        (i : ℕ) (preceding : Text) (item : Json) (b : TransactionBlock)
        → next_block digest date_now i preceding item ≡ some b
        → (b.index ≡ i) × (b.preceding_hash ≡ preceding) × IsSigned b × (b.payload ≡ stringify item)
    unfolding next_block
    next_block_lem i preceding item b e =
        let data_bytes = encode_text (data_to_hash (stringify item) preceding (date_now i)) in
        let (bytes, digested, e₁) = >>=-eq-some (digest data_bytes) _ b e in
        let made : TransactionBlock = record {
          index = i;
          timestamp = date_now i;
          payload = stringify item;
          preceding_hash = preceding;
          hash = hex bytes;
        } in
        let same : made ≡ b = cc in
        subst
          (λ (c : TransactionBlock).
            (c.index ≡ i)
            × (c.preceding_hash ≡ preceding)
            × IsSigned c
            × (c.payload ≡ stringify item))
          same (refl, refl, (bytes, digested, refl), refl)

    build_from-IsLinked :
        (items : List Json) (i : ℕ) (preceding : Text) (ledger : List TransactionBlock)
        → build_from digest date_now i preceding items ≡ some ledger
        → IsLinked i preceding ledger × (map (λ b. b.payload) ledger ≡ map stringify items)
    unfolding build_from
    build_from-IsLinked [] i preceding ledger e =
        let same : [] ≡ ledger = cc in
        subst
          (λ (l : List TransactionBlock). IsLinked i preceding l × (map (λ b. b.payload) l ≡ []))
          same (tt, refl)
    build_from-IsLinked (item ∷ items) i preceding ledger e =
        let (b, made, e₁) = >>=-eq-some (next_block digest date_now i preceding item) _ ledger e in
        let (rest, built, e₂) =
          >>=-eq-some (build_from digest date_now (suc i) b.hash items) _ ledger e₁ in
        let same : b ∷ rest ≡ ledger = cc in
        let (index, linked, signed, payload) = next_block_lem i preceding item b made in
        let (links, payloads) = build_from-IsLinked items (suc i) b.hash rest built in
        subst
          (λ (l : List TransactionBlock).
            IsLinked i preceding l × (map (λ b. b.payload) l ≡ map stringify (item ∷ items)))
          same ((index, linked, signed, links), cc)

    -- A ledger that is built holds the items in order as JSON, with indices from 0, and it is a chain:
    -- the first block names "0" and each other the hash of the block before it, and each block's hash
    -- is the digest of its payload, the hash it names and its time.
    pub build_transaction_ledger-IsLinked :
        (items : List Json) (ledger : List TransactionBlock)
        → build_transaction_ledger digest date_now items ≡ some ledger
        → IsLinked 0 genesis_hash ledger × (map (λ b. b.payload) ledger ≡ map stringify items)
    unfolding build_transaction_ledger
    build_transaction_ledger-IsLinked items ledger e =
        build_from-IsLinked items 0 genesis_hash ledger e
