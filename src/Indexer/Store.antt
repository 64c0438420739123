-- ===== src/Indexer/Store.antt =====
-- src/indexer/storage/memory.rs. A hash map is a list of keys and values; the loops that pop the front of an
-- order recurse on it.
pub mod Table
pub mod Layout
pub mod Removed
pub mod Inserted
pub mod Restore
pub mod Restored
pub mod Removal
pub mod Preserved
use kaspa_portal.Base.{
  ℕ, ◌-◌, ◌+◌, Bool, true, false, not, Option, none, some, List, [], ◌∷◌, ◌++◌, map, length, leb,
  ltb, ◌==◌, if◌then◌else◌,
}
use kaspa_portal.Base.Dict.{retain, lookup, contains_key, insert, remove, keys, values}
use kaspa_portal.Base.Dict.Aligned.{contains}
use kaspa_portal.Base.Equality.{Str, same_str, str_eq, digits}
use kaspa_portal.Indexer.Config.{IndexerConfig}
use kaspa_portal.Indexer.Event.{
  IndexedTransaction, IndexedBlock, IndexedMatch, EvictionKind, transaction_size, block_size,
  match_size, IndexerSnapshot,
}

pub record StoreEviction : Type 0 where
  pub kind : EvictionKind
  pub id : Str

pub record MemoryStore (Value : Type 0) : Type 0 where
  pub config : IndexerConfig
  pub tx : List (Str × IndexedTransaction Value)
  pub tx_order : List Str
  pub blocks : List (Str × IndexedBlock Value)
  pub block_order : List Str
  pub matches : List IndexedMatch
  pub pending_evictions : List StoreEviction

-- `format!("{}:{}", value.matcher_id, value.txid)`; a u64 has at most 20 digits.
unfoldable pub match_name : IndexedMatch → Str
match_name value = digits 20 value.matcher_id ++ (b':' ∷ value.txid)

unfoldable pub found_first : {V : Type 0} → Option V → List V → List V
found_first none values = values
found_first (some value) values = value ∷ values

-- the values of an order of keys, `order.iter().filter_map(|id| map.get(id).cloned())`
unfoldable pub in_order : {V : Type 0} → List Str → List (Str × V) → List V
in_order [] d = []
in_order (id ∷ order) d = found_first (lookup id d) (in_order order d)

unfoldable pub remove_matches_for_transactions : List IndexedMatch → List Str → List IndexedMatch
remove_matches_for_transactions items [] = items
remove_matches_for_transactions items (id ∷ ids) =
    retain (λ value. not (contains value.txid (id ∷ ids))) items

-- the ids that expired, the order and the map that are left
abbrev pub Expired : Type 0 → Type 0
Expired Value = List Str × List Str × List (Str × IndexedTransaction Value)

module _ {Value : Type 0} where
  unfoldable pub new : IndexerConfig → MemoryStore Value
  new config = record {
    config = config;
    tx = [];
    tx_order = [];
    blocks = [];
    block_order = [];
    matches = [];
    pending_evictions = [];
  }

  unfoldable pub transaction : MemoryStore Value → Str → Option (IndexedTransaction Value)
  transaction store txid = lookup txid store.tx

  unfoldable pub transactions : MemoryStore Value → List (IndexedTransaction Value)
  transactions store = in_order store.tx_order store.tx

  unfoldable pub blocks : MemoryStore Value → List (IndexedBlock Value)
  blocks store = in_order store.block_order store.blocks

  unfoldable pub matches : MemoryStore Value → List IndexedMatch
  matches store = store.matches

  abbrev pub counts : MemoryStore Value → ℕ × ℕ × ℕ
  counts store = (length store.tx, length store.blocks, length store.matches)

  unfoldable pub snapshot : MemoryStore Value → IndexerSnapshot Value
  snapshot store = record {
    transactions = transactions store;
    blocks = blocks store;
    matches = matches store;
  }

  unfoldable pub take_evictions : MemoryStore Value → List StoreEviction × MemoryStore Value
  take_evictions store = (store.pending_evictions, record store { pending_evictions = [] })

  -- the body of the loop of `trim_transactions`, behind the pop of the front
  abbrev pub evict_transaction : Str → MemoryStore Value → MemoryStore Value
  evict_transaction id store = record store {
    tx = remove id store.tx;
    matches = retain (λ value. not (same_str value.txid id)) store.matches;
    pending_evictions =
        store.pending_evictions ++ (record { kind = transaction_size; id = id } ∷ []);
  }

  unfoldable pub trim_transactions_on : List Str → MemoryStore Value → MemoryStore Value
  trim_transactions_on [] store = record store { tx_order = [] }
  trim_transactions_on (id ∷ order) store =
      let rest = trim_transactions_on order (evict_transaction id store) in
      if ltb store.config.max_transactions (length store.tx)
      then rest
      else record store { tx_order = id ∷ order }

  unfoldable pub trim_transactions : MemoryStore Value → MemoryStore Value
  trim_transactions store = trim_transactions_on store.tx_order store

  abbrev pub evict_block : Str → MemoryStore Value → MemoryStore Value
  evict_block id store = record store {
    blocks = remove id store.blocks;
    pending_evictions = store.pending_evictions ++ (record { kind = block_size; id = id } ∷ []);
  }

  unfoldable pub trim_blocks_on : List Str → MemoryStore Value → MemoryStore Value
  trim_blocks_on [] store = record store { block_order = [] }
  trim_blocks_on (id ∷ order) store =
      let rest = trim_blocks_on order (evict_block id store) in
      if ltb store.config.max_blocks (length store.blocks)
      then rest
      else record store { block_order = id ∷ order }

  unfoldable pub trim_blocks : MemoryStore Value → MemoryStore Value
  trim_blocks store = trim_blocks_on store.block_order store

  unfoldable pub trim_matches_on : List IndexedMatch → MemoryStore Value → MemoryStore Value
  trim_matches_on [] store = record store { matches = [] }
  trim_matches_on (value ∷ rest) store =
      let store' = record store {
        pending_evictions =
            store.pending_evictions ++ (record { kind = match_size; id = match_name value } ∷ []);
      } in
      let trimmed = trim_matches_on rest store' in
      if ltb store.config.max_matches (length (value ∷ rest))
      then trimmed
      else record store { matches = value ∷ rest }

  unfoldable pub trim_matches : MemoryStore Value → MemoryStore Value
  trim_matches store = trim_matches_on store.matches store

  unfoldable pub insert_transaction :
      MemoryStore Value → IndexedTransaction Value → Bool × MemoryStore Value
  insert_transaction store value = if contains_key value.txid store.tx then (false, store) else (
    true,
    trim_transactions (record store {
      tx = insert value.txid value store.tx;
      tx_order = store.tx_order ++ (value.txid ∷ []);
    }),
  )

  unfoldable pub insert_block : MemoryStore Value → IndexedBlock Value → Bool × MemoryStore Value
  insert_block store value = if contains_key value.hash store.blocks then (false, store) else (
    true,
    trim_blocks (record store {
      block_order = store.block_order ++ (value.hash ∷ []);
      blocks = insert value.hash value store.blocks;
    }),
  )

  unfoldable pub insert_match : MemoryStore Value → IndexedMatch → MemoryStore Value
  insert_match store value = trim_matches (record store { matches = store.matches ++ (value ∷ []) })

  -- `for value in values { store.insert(value); }`
  unfoldable pub insert_each :
      {A : Type 0}
      → (MemoryStore Value → A → MemoryStore Value)
      → List A
      → MemoryStore Value
      → MemoryStore Value
  insert_each put [] store = store
  insert_each put (value ∷ values) store = insert_each put values (put store value)

  unfoldable pub restore : IndexerConfig → IndexerSnapshot Value → MemoryStore Value
  unfolding new
  restore config snapshot =
      let with_tx =
        insert_each (λ s v. (insert_transaction s v).1) snapshot.transactions (new config) in
      let with_blocks = insert_each (λ s v. (insert_block s v).1) snapshot.blocks with_tx in
      let with_matches = insert_each insert_match snapshot.matches with_blocks in
      record with_matches { pending_evictions = [] }

  -- the body of the loop of `purge_expired`: `skipped` and `rest` are the loop on the rest of the order
  unfoldable pub expire_front :
      ℕ
      → ℕ
      → Str
      → Expired Value
      → Expired Value
      → Expired Value
      → Option (IndexedTransaction Value)
      → Expired Value
  expire_front now_ms ttl id stay skipped rest none = skipped
  expire_front now_ms ttl id stay skipped rest (some value) =
      if leb (now_ms - value.observed_at_ms) ttl then stay else (id ∷ rest.0, rest.1, rest.2)

  unfoldable pub expire_on :
      ℕ → ℕ → List Str → List (Str × IndexedTransaction Value) → Expired Value
  unfolding expire_front
  expire_on now_ms ttl [] tx = ([], [], tx)
  expire_on now_ms ttl (id ∷ order) tx =
      expire_front now_ms ttl id ([], id ∷ order, tx) (expire_on now_ms ttl order tx)
        (expire_on now_ms ttl order (remove id tx)) (lookup id tx)

  unfoldable pub purge_expired : MemoryStore Value → ℕ → List Str × MemoryStore Value
  unfolding expire_on remove_matches_for_transactions
  purge_expired store now_ms =
      let ttl = store.config.transaction_ttl_ms in
      let (expired, order, tx) = expire_on now_ms ttl store.tx_order store.tx in
      if ttl == 0 then ([], store) else (
        expired,
        record store {
          tx_order = order;
          tx = tx;
          matches = remove_matches_for_transactions store.matches expired;
        },
      )

  -- `tx.block_hash.as_ref().filter(|hash| removed_hashes.contains(*hash))`
  abbrev pub in_blocks : List Str → IndexedTransaction Value → Bool
  in_blocks removed value = elim value.block_hash [
    | none ↦ false
    | some hash ↦ contains hash removed
  ]

  unfoldable pub removed_txids : List Str → List (Str × IndexedTransaction Value) → List Str
  removed_txids removed tx =
      keys (retain (λ (entry : Str × IndexedTransaction Value). in_blocks removed entry.1) tx)

  -- the store, and the numbers of removed blocks, transactions and matches
  unfoldable pub remove_chain_blocks :
      MemoryStore Value → List Str → (ℕ × ℕ × ℕ) × MemoryStore Value
  unfolding removed_txids
  remove_chain_blocks store [] = ((0, 0, 0), store)
  remove_chain_blocks store (hash ∷ hashes) =
      let removed = hash ∷ hashes in
      let txids = removed_txids removed store.tx in
      let store' = record store {
        blocks =
            retain (λ (entry : Str × IndexedBlock Value). not (contains entry.0 removed))
              store.blocks;
        block_order = retain (λ id. not (contains id removed)) store.block_order;
        tx =
            retain (λ (entry : Str × IndexedTransaction Value). not (contains entry.0 txids))
              store.tx;
        tx_order = retain (λ id. not (contains id txids)) store.tx_order;
        matches = retain (λ value. not (contains value.txid txids)) store.matches;
      } in
      (
        (
          length store.blocks - length store'.blocks,
          length store.tx - length store'.tx,
          length store.matches - length store'.matches,
        ),
        store',
      )

  unfoldable pub clear : MemoryStore Value → MemoryStore Value
  clear store = record store {
    tx = [];
    tx_order = [];
    blocks = [];
    block_order = [];
    matches = [];
    pending_evictions = [];
  }
