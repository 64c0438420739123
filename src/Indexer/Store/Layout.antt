-- ===== src/Indexer/Store/Layout.antt =====
-- What holds of a store between its operations, and the loops that trim it.
use kaspa_portal.Base.{
  ◌≤◌, ◌≡◌, refl, sym, ◌∙◌, inl, inr, true, not, List, [], ◌∷◌, length, arith, All, Bool-cases, ltb,
  ltb→lt,
}
use kaspa_portal.Base.Dict.{retain, All-retain, length-retain}
use kaspa_portal.Base.Dict.Aligned.{contains}
use kaspa_portal.Base.Equality.{Str, same_str, str_eq}
use kaspa_portal.Base.Window.{last_of, last_of_long, last_of_short}
use kaspa_portal.Indexer.Event.{IndexedTransaction, IndexedBlock, IndexedMatch}
use kaspa_portal.Indexer.Store.{
  MemoryStore, evict_transaction, trim_transactions_on, evict_block, trim_blocks_on,
  trim_matches_on,
}
use kaspa_portal.Indexer.Store.Table.{Table, length-Table, Table-pop}

-- every match is one of a transaction of the order
abbrev pub Linked : List Str → List IndexedMatch → Type 0
Linked order matches = All (λ value. contains value.txid order ≡ true) matches

-- A match of the front goes with it.
Linked-pop :
    (id : Str) (order : List Str) (matches : List IndexedMatch)
    → Linked (id ∷ order) matches
    → Linked order (retain (λ value. not (same_str value.txid id)) matches)
unfolding contains
Linked-pop id order matches h =
    All-retain _ _ (λ (value : IndexedMatch). not (same_str value.txid id)) matches
      (λ value e f. ground arith) h

module _ {Value : Type 0} where
  abbrev pub tx_name : IndexedTransaction Value → Str
  tx_name value = value.txid

  abbrev pub block_name : IndexedBlock Value → Str
  block_name value = value.hash

  pub record WellFormed (store : MemoryStore Value) : Type 0 where
    pub tx_table : Table tx_name store.tx store.tx_order
    pub block_table : Table block_name store.blocks store.block_order
    pub tx_bound : length store.tx_order ≤ store.config.max_transactions
    pub block_bound : length store.block_order ≤ store.config.max_blocks
    pub match_bound : length store.matches ≤ store.config.max_matches
    pub linked : Linked store.tx_order store.matches

  pub record TrimsTransactions (order : List Str) (store store' : MemoryStore Value) : Type 0 where
    pub config : store'.config ≡ store.config
    pub blocks : store'.blocks ≡ store.blocks
    pub block_order : store'.block_order ≡ store.block_order
    pub fewer : length store'.matches ≤ length store.matches
    pub table : Table tx_name store'.tx store'.tx_order
    pub kept : store'.tx_order ≡ last_of store.config.max_transactions order
    pub linked : Linked store'.tx_order store'.matches

  pub trim_transactions_on-TrimsTransactions :
      (order : List Str) (store : MemoryStore Value)
      → Table tx_name store.tx order
      → Linked order store.matches
      → TrimsTransactions order store (trim_transactions_on order store)
  unfolding trim_transactions_on
  trim_transactions_on-TrimsTransactions [] store t l = record {
    config = refl;
    blocks = refl;
    block_order = refl;
    fewer = omega arith;
    table = t;
    kept = sym (last_of_short {A = Str} store.config.max_transactions [] (omega arith));
    linked = l;
  }
  trim_transactions_on-TrimsTransactions (id ∷ order) store t l =
      let size = length-Table tx_name store.tx (id ∷ order) t in
      elim (Bool-cases (ltb store.config.max_transactions (length store.tx))) [
        | inl h ↦
            let (popped, one) = Table-pop tx_name id store.tx order t in
            let rest =
              trim_transactions_on-TrimsTransactions order (evict_transaction id store) popped
                (Linked-pop id order store.matches l) in
            let over = ltb→lt store.config.max_transactions (length store.tx) h in
            rw h (record {
              config = rest.config;
              blocks = rest.blocks;
              block_order = rest.block_order;
              fewer = omega (
                arith,
                rest.fewer,
                length-retain (λ (value : IndexedMatch). not (same_str value.txid id))
                    store.matches,
              );
              table = rest.table;
              kept =
                  rest.kept
                  ∙ sym (last_of_long store.config.max_transactions id order (omega arith));
              linked = rest.linked;
            })
        | inr h ↦
            let fits : length (id ∷ order) ≤ store.config.max_transactions = ground arith in
            rw h (record {
              config = refl;
              blocks = refl;
              block_order = refl;
              fewer = omega arith;
              table = t;
              kept = sym (last_of_short store.config.max_transactions (id ∷ order) fits);
              linked = l;
            })
      ]

  pub record TrimsBlocks (order : List Str) (store store' : MemoryStore Value) : Type 0 where
    pub config : store'.config ≡ store.config
    pub tx : store'.tx ≡ store.tx
    pub tx_order : store'.tx_order ≡ store.tx_order
    pub matches : store'.matches ≡ store.matches
    pub table : Table block_name store'.blocks store'.block_order
    pub kept : store'.block_order ≡ last_of store.config.max_blocks order

  pub trim_blocks_on-TrimsBlocks :
      (order : List Str) (store : MemoryStore Value)
      → Table block_name store.blocks order
      → TrimsBlocks order store (trim_blocks_on order store)
  unfolding trim_blocks_on
  trim_blocks_on-TrimsBlocks [] store t = record {
    config = refl;
    tx = refl;
    tx_order = refl;
    matches = refl;
    table = t;
    kept = sym (last_of_short {A = Str} store.config.max_blocks [] (omega arith));
  }
  trim_blocks_on-TrimsBlocks (id ∷ order) store t =
      let size = length-Table block_name store.blocks (id ∷ order) t in
      elim (Bool-cases (ltb store.config.max_blocks (length store.blocks))) [
        | inl h ↦
            let (popped, one) = Table-pop block_name id store.blocks order t in
            let rest = trim_blocks_on-TrimsBlocks order (evict_block id store) popped in
            let over = ltb→lt store.config.max_blocks (length store.blocks) h in
            rw h (record {
              config = rest.config;
              tx = rest.tx;
              tx_order = rest.tx_order;
              matches = rest.matches;
              table = rest.table;
              kept = rest.kept ∙ sym (last_of_long store.config.max_blocks id order (omega arith));
            })
        | inr h ↦
            let fits : length (id ∷ order) ≤ store.config.max_blocks = ground arith in
            rw h (record {
              config = refl;
              tx = refl;
              tx_order = refl;
              matches = refl;
              table = t;
              kept = sym (last_of_short store.config.max_blocks (id ∷ order) fits);
            })
      ]

  pub record TrimsMatches (items : List IndexedMatch) (store store' : MemoryStore Value)
      : Type 0 where
    pub config : store'.config ≡ store.config
    pub tx : store'.tx ≡ store.tx
    pub tx_order : store'.tx_order ≡ store.tx_order
    pub blocks : store'.blocks ≡ store.blocks
    pub block_order : store'.block_order ≡ store.block_order
    pub kept : store'.matches ≡ last_of store.config.max_matches items

  pub trim_matches_on-TrimsMatches :
      (items : List IndexedMatch) (store : MemoryStore Value)
      → TrimsMatches items store (trim_matches_on items store)
  unfolding trim_matches_on
  trim_matches_on-TrimsMatches [] store = record {
    config = refl;
    tx = refl;
    tx_order = refl;
    blocks = refl;
    block_order = refl;
    kept = sym (last_of_short {A = IndexedMatch} store.config.max_matches [] (omega arith));
  }
  trim_matches_on-TrimsMatches (value ∷ items) store =
      elim (Bool-cases (ltb store.config.max_matches (length (value ∷ items)))) [
        | inl h ↦
            let rest = trim_matches_on-TrimsMatches items _ in
            let over = ltb→lt store.config.max_matches (length (value ∷ items)) h in
            rw h (record {
              config = rest.config;
              tx = rest.tx;
              tx_order = rest.tx_order;
              blocks = rest.blocks;
              block_order = rest.block_order;
              kept =
                  rest.kept ∙ sym (last_of_long store.config.max_matches value items (omega arith));
            })
        | inr h ↦
            let fits : length (value ∷ items) ≤ store.config.max_matches = ground arith in
            rw h (record {
              config = refl;
              tx = refl;
              tx_order = refl;
              blocks = refl;
              block_order = refl;
              kept = sym (last_of_short store.config.max_matches (value ∷ items) fits);
            })
      ]
