-- ===== src/Indexer/Store/Preserved.antt =====
-- The operations of the store keep it well formed.
use kaspa_portal.Base.{
  ℕ, zero, suc, drop, ◌≤◌, ◌≡◌, refl, ◌∙◌, inl, inr, true, false, List, [], ◌∷◌, ◌++◌, arith, All,
  All-append, Bool-cases,
}
use kaspa_portal.Base.Dict.{contains_key, insert}
use kaspa_portal.Base.Dict.Aligned.{contains, contains-append}
use kaspa_portal.Base.Equality.{Str, str_eq}
use kaspa_portal.Base.Window.{last_of, length-last_of, contains-last_of}
use kaspa_portal.Indexer.Config.{IndexerConfig}
use kaspa_portal.Indexer.Event.{IndexedTransaction, IndexedBlock, IndexedMatch}
use kaspa_portal.Indexer.Store.{
  MemoryStore, new, insert_transaction, insert_block, insert_match, trim_transactions, trim_blocks,
  trim_matches, take_evictions, clear,
}
use kaspa_portal.Indexer.Store.Layout.{
  Linked, tx_name, block_name, WellFormed, TrimsTransactions, TrimsMatches,
  trim_transactions_on-TrimsTransactions, trim_blocks_on-TrimsBlocks, trim_matches_on-TrimsMatches,
}
use kaspa_portal.Indexer.Store.Table.{Table-empty, Table-push, contains-Table}

-- A list that is longer has the same members.
Linked-append :
    (order : List Str) (k : Str) (matches : List IndexedMatch)
    → Linked order matches
    → Linked (order ++ (k ∷ [])) matches
Linked-append order k [] l = tt
Linked-append order k (m ∷ ms) (l, ls) =
    (rw (contains-append m.txid order (k ∷ []), l) refl, Linked-append order k ms ls)

All-drop_on :
    (P : IndexedMatch → Type 0) (n : ℕ) (xs : List IndexedMatch) → All P xs → All P (drop n xs)
All-drop_on P zero xs h = h
All-drop_on P (suc n) [] h = tt
All-drop_on P (suc n) (x ∷ xs) (_, h) = All-drop_on P n xs h

Linked-last_of :
    (c : ℕ) (order : List Str) (matches : List IndexedMatch)
    → Linked order matches
    → Linked order (last_of c matches)
unfolding last_of
Linked-last_of c order matches l = All-drop_on _ _ matches l

module _ {Value : Type 0} where
  pub new-WellFormed : (config : IndexerConfig) → WellFormed {Value = Value} (new config)
  unfolding new
  new-WellFormed config = record {
    tx_table = Table-empty tx_name;
    block_table = Table-empty block_name;
    tx_bound = omega arith;
    block_bound = omega arith;
    match_bound = omega arith;
    linked = tt;
  }

  abbrev with_transaction : MemoryStore Value → IndexedTransaction Value → MemoryStore Value
  with_transaction store value = record store {
    tx = insert value.txid value store.tx;
    tx_order = store.tx_order ++ (value.txid ∷ []);
  }

  -- A new transaction is pushed, and the oldest ones are trimmed.
  insert_transaction-TrimsTransactions :
      (store : MemoryStore Value) (value : IndexedTransaction Value)
      → WellFormed store
      → contains_key value.txid store.tx ≡ false
      → TrimsTransactions
          (store.tx_order ++ (value.txid ∷ []))
          (with_transaction store value)
          (insert_transaction store value).1
  unfolding insert_transaction trim_transactions
  insert_transaction-TrimsTransactions store value w h = rw h (
      trim_transactions_on-TrimsTransactions (store.tx_order ++ (value.txid ∷ []))
        (with_transaction store value)
        (Table-push tx_name value store.tx store.tx_order w.tx_table h)
        (Linked-append store.tx_order value.txid store.matches w.linked))

  pub insert_transaction_known :
      (store : MemoryStore Value) (value : IndexedTransaction Value)
      → contains_key value.txid store.tx ≡ true
      → insert_transaction store value ≡ (false, store)
  unfolding insert_transaction
  insert_transaction_known store value h = rw h refl

  pub insert_transaction-WellFormed :
      (store : MemoryStore Value) (value : IndexedTransaction Value)
      → WellFormed store
      → WellFormed (insert_transaction store value).1
  insert_transaction-WellFormed store value w =
      elim (Bool-cases (contains_key value.txid store.tx)) [
        | inl h ↦ rw (insert_transaction_known store value h) w
        | inr h ↦
            let t = insert_transaction-TrimsTransactions store value w h in
            record {
              tx_table = t.table;
              block_table = rw (t.blocks, t.block_order) w.block_table;
              tx_bound =
                  rw (t.kept, t.config)
                    (length-last_of store.config.max_transactions
                      (store.tx_order ++ (value.txid ∷ [])));
              block_bound = rw (t.block_order, t.config) w.block_bound;
              match_bound = rw t.config (omega (arith, t.fewer, w.match_bound));
              linked = t.linked;
            }
      ]

  pub insert_transaction-config :
      (store : MemoryStore Value) (value : IndexedTransaction Value)
      → WellFormed store
      → (insert_transaction store value).1.config ≡ store.config
  insert_transaction-config store value w = elim (Bool-cases (contains_key value.txid store.tx)) [
    | inl h ↦ rw (insert_transaction_known store value h) refl
    | inr h ↦ (insert_transaction-TrimsTransactions store value w h).config
  ]

  -- A transaction that is inserted is there, in a store that keeps any.
  pub insert_transaction-contains :
      (store : MemoryStore Value) (value : IndexedTransaction Value)
      → WellFormed store
      → 1 ≤ store.config.max_transactions
      → contains value.txid (insert_transaction store value).1.tx_order ≡ true
  insert_transaction-contains store value w one =
      elim (Bool-cases (contains_key value.txid store.tx)) [
        | inl h ↦
            rw (insert_transaction_known store value h)
              (contains-Table tx_name value.txid store.tx store.tx_order w.tx_table ∙ h)
        | inr h ↦
            rw (insert_transaction-TrimsTransactions store value w h).kept
              (contains-last_of store.config.max_transactions store.tx_order value.txid one)
      ]

  abbrev with_block : MemoryStore Value → IndexedBlock Value → MemoryStore Value
  with_block store value = record store {
    block_order = store.block_order ++ (value.hash ∷ []);
    blocks = insert value.hash value store.blocks;
  }

  pub insert_block-WellFormed :
      (store : MemoryStore Value) (value : IndexedBlock Value)
      → WellFormed store
      → WellFormed (insert_block store value).1
        × ((insert_block store value).1.config ≡ store.config)
  unfolding insert_block trim_blocks
  insert_block-WellFormed store value w = elim (Bool-cases (contains_key value.hash store.blocks)) [
    | inl h ↦ rw h (w, refl)
    | inr h ↦
        let order = store.block_order ++ (value.hash ∷ []) in
        let t =
          trim_blocks_on-TrimsBlocks order (with_block store value)
            (Table-push block_name value store.blocks store.block_order w.block_table h) in
        rw h (
          record {
            tx_table = rw (t.tx, t.tx_order) w.tx_table;
            block_table = t.table;
            tx_bound = rw (t.tx_order, t.config) w.tx_bound;
            block_bound = rw (t.kept, t.config) (length-last_of store.config.max_blocks order);
            match_bound = rw (t.matches, t.config) w.match_bound;
            linked = rw (t.matches, t.tx_order) w.linked;
          },
          t.config,
        )
  ]

  insert_match-TrimsMatches :
      (store : MemoryStore Value) (value : IndexedMatch)
      → TrimsMatches
          (store.matches ++ (value ∷ []))
          (record store { matches = store.matches ++ (value ∷ []) })
          (insert_match store value)
  unfolding insert_match trim_matches
  insert_match-TrimsMatches store value =
      trim_matches_on-TrimsMatches (store.matches ++ (value ∷ []))
        (record store { matches = store.matches ++ (value ∷ []) })

  pub insert_match-config :
      (store : MemoryStore Value) (value : IndexedMatch)
      → (insert_match store value).config ≡ store.config
  insert_match-config store value = (insert_match-TrimsMatches store value).config

  pub insert_match-tx_order :
      (store : MemoryStore Value) (value : IndexedMatch)
      → (insert_match store value).tx_order ≡ store.tx_order
  insert_match-tx_order store value = (insert_match-TrimsMatches store value).tx_order

  pub insert_match-tx :
      (store : MemoryStore Value) (value : IndexedMatch) → (insert_match store value).tx ≡ store.tx
  insert_match-tx store value = (insert_match-TrimsMatches store value).tx

  pub insert_match-WellFormed :
      (store : MemoryStore Value) (value : IndexedMatch)
      → WellFormed store
      → contains value.txid store.tx_order ≡ true
      → WellFormed (insert_match store value)
  insert_match-WellFormed store value w there =
      let t = insert_match-TrimsMatches store value in
      let all_linked =
        All-append (λ (m : IndexedMatch). contains m.txid store.tx_order ≡ true) store.matches
          (value ∷ []) w.linked (there, tt) in
      record {
        tx_table = rw (t.tx, t.tx_order) w.tx_table;
        block_table = rw (t.blocks, t.block_order) w.block_table;
        tx_bound = rw (t.tx_order, t.config) w.tx_bound;
        block_bound = rw (t.block_order, t.config) w.block_bound;
        match_bound =
            rw (t.kept, t.config)
              (length-last_of store.config.max_matches (store.matches ++ (value ∷ [])));
        linked =
            rw (t.kept, t.tx_order)
              (Linked-last_of store.config.max_matches store.tx_order
                (store.matches ++ (value ∷ [])) all_linked);
      }

  pub take_evictions-WellFormed :
      (store : MemoryStore Value) → WellFormed store → WellFormed (take_evictions store).1
  unfolding take_evictions
  take_evictions-WellFormed store w = record {
    tx_table = w.tx_table;
    block_table = w.block_table;
    tx_bound = w.tx_bound;
    block_bound = w.block_bound;
    match_bound = w.match_bound;
    linked = w.linked;
  }

  pub clear-WellFormed : (store : MemoryStore Value) → WellFormed (clear store)
  unfolding clear
  clear-WellFormed store = record {
    tx_table = Table-empty tx_name;
    block_table = Table-empty block_name;
    tx_bound = omega arith;
    block_bound = omega arith;
    match_bound = omega arith;
    linked = tt;
  }
