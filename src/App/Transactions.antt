-- ===== src/App/Transactions.antt =====
-- examples/demo-mobile/src/features/payment/ledger/buildTransactionLedger.ts. The digest of
-- core/crypto/NativeCryptoProvider.ts is react-native-quick-crypto's, a parameter, which answers `none`
-- where its promise is rejected; `date_now` gives the reading of the clock at each item.
pub mod Chain
use vesper_platform.Base.{
  ℕ, suc, ◌+◌, ◌/◌, ◌%◌, Option, none, some, List, [], ◌∷◌, ◌++◌, ltb, if◌then◌else◌, Bytes, ◌>>=◌,
}
use vesper_platform.Binary.Utf8.{Text, encode_text}
use vesper_platform.Binary.Json.{Json, stringify, decimal}

pub record TransactionBlock : Type 0 where
  pub index : ℕ
  pub timestamp : ℕ
  pub payload : Text
  pub preceding_hash : Text
  pub hash : Text

abbrev hex_char : ℕ → ℕ
hex_char d = if ltb d 10 then b'0' + d else 87 + d

-- Array.from(bytes).map((b) => b.toString(16).padStart(2, '0')).join('')
unfoldable pub hex : Bytes → Text
hex [] = []
hex (b ∷ bs) = hex_char (b / 16) ∷ hex_char (b % 16) ∷ hex bs

-- `${payload}${precedingHash}${timestamp}`
unfoldable pub data_to_hash : Text → Text → ℕ → Text
data_to_hash payload preceding_hash timestamp = payload ++ (preceding_hash ++ decimal timestamp)

abbrev pub genesis_hash : Text
genesis_hash = b'0' ∷ []

module _ (digest : Bytes → Option Bytes) (date_now : ℕ → ℕ) where
  -- one round of the loop
  unfoldable pub next_block : ℕ → Text → Json → Option TransactionBlock
  unfolding data_to_hash hex
  next_block index preceding_hash item = do
    bytes ← digest (encode_text (data_to_hash (stringify item) preceding_hash (date_now index)))
    some (record {
      index = index;
      timestamp = date_now index;
      payload = stringify item;
      preceding_hash = preceding_hash;
      hash = hex bytes;
    })

  -- the loop, from index `i` on
  unfoldable pub build_from : ℕ → Text → List Json → Option (List TransactionBlock)
  unfolding next_block
  build_from i preceding_hash [] = some []
  build_from i preceding_hash (item ∷ items) = do
    block ← next_block i preceding_hash item
    rest ← build_from (suc i) block.hash items
    some (block ∷ rest)

  unfoldable pub build_transaction_ledger : List Json → Option (List TransactionBlock)
  unfolding build_from
  build_transaction_ledger items = build_from 0 genesis_hash items
