-- ===== src/Indexer/Store/Restore.antt =====
-- A store that is restored from its own snapshot.
use kaspa_portal.Base.{
  ℕ, suc, ◌+◌, ◌≤◌, ◌≡◌, refl, sym, ap, subst, ◌∙◌, false, List, [], ◌∷◌, ◌++◌, append-nil,
  append_assoc, length, length-append, arith, ltb, All,
}
use kaspa_portal.Base.Dict.{contains_key, keys, values}
use kaspa_portal.Base.Dict.Aligned.{
  contains, beq_false, contains-append, contains-keys, insert_new, keys-append, Unique,
}
use kaspa_portal.Base.Equality.{Str, same_str, str_eq}
use kaspa_portal.Indexer.Event.{IndexedTransaction, IndexedBlock, IndexedMatch}
use kaspa_portal.Indexer.Store.{
  MemoryStore, new, insert_each, insert_transaction, insert_block, insert_match, trim_transactions,
  trim_transactions_on, trim_blocks, trim_blocks_on, trim_matches, trim_matches_on, restore,
  snapshot, transactions, blocks, matches,
}
use kaspa_portal.Indexer.Store.Layout.{tx_name, block_name, WellFormed}
use kaspa_portal.Indexer.Store.Table.{length-Table, in_order-Table}

not_over : (a b : ℕ) → b ≤ a → ltb a b ≡ false
not_over a b h = ground arith

-- A key of a list without repetition is not among those before it.
Unique-before :
    (xs : List Str) (k : Str) (ys : List Str) → Unique (xs ++ (k ∷ ys)) → contains k xs ≡ false
unfolding Unique contains
Unique-before [] k ys u = refl
Unique-before (x ∷ xs) k ys (fresh, u) =
    let apart : same_str x k ≡ false = ground (arith, contains-append x xs (k ∷ ys)) in
    ground (arith, beq_false x k apart, Unique-before xs k ys u)

module _ {Value : Type 0} where
  idle_transactions :
      (order : List Str) (store : MemoryStore Value)
      → length store.tx ≤ store.config.max_transactions
      → trim_transactions_on order store ≡ record store { tx_order = order }
  unfolding trim_transactions_on
  idle_transactions [] store h = refl
  idle_transactions (id ∷ order) store h =
      rw (not_over store.config.max_transactions (length store.tx) h) refl

  idle_blocks :
      (order : List Str) (store : MemoryStore Value)
      → length store.blocks ≤ store.config.max_blocks
      → trim_blocks_on order store ≡ record store { block_order = order }
  unfolding trim_blocks_on
  idle_blocks [] store h = refl
  idle_blocks (id ∷ order) store h =
      rw (not_over store.config.max_blocks (length store.blocks) h) refl

  idle_matches :
      (items : List IndexedMatch) (store : MemoryStore Value)
      → length items ≤ store.config.max_matches
      → trim_matches_on items store ≡ record store { matches = items }
  unfolding trim_matches_on
  idle_matches [] store h = refl
  idle_matches (value ∷ items) store h =
      rw (not_over store.config.max_matches (length (value ∷ items)) h) refl

  abbrev more_tx : MemoryStore Value → List (Str × IndexedTransaction Value) → MemoryStore Value
  more_tx store d = record store { tx = store.tx ++ d; tx_order = store.tx_order ++ keys d }

  -- With room for it, a new transaction goes to the end.
  insert_transaction_room :
      (store : MemoryStore Value) (value : IndexedTransaction Value)
      → contains_key value.txid store.tx ≡ false
      → suc (length store.tx) ≤ store.config.max_transactions
      → (insert_transaction store value).1 ≡ more_tx store ((value.txid, value) ∷ [])
  unfolding insert_transaction trim_transactions keys
  insert_transaction_room store value fresh room =
      rw (fresh, insert_new value.txid value store.tx fresh)
        (idle_transactions (store.tx_order ++ (value.txid ∷ []))
          (more_tx store ((value.txid, value) ∷ []))
          (omega (arith, length-append store.tx ((value.txid, value) ∷ []))))

  -- Entries that are named by their keys are all kept, in their order, where there is room for them.
  insert_each_transactions :
      (d : List (Str × IndexedTransaction Value)) (store : MemoryStore Value)
      → keys store.tx ≡ store.tx_order
      → Unique (store.tx_order ++ keys d)
      → All (λ (entry : Str × IndexedTransaction Value). entry.1.txid ≡ entry.0) d
      → length store.tx + length d ≤ store.config.max_transactions
      → insert_each (λ s v. (insert_transaction s v).1) (values d) store ≡ more_tx store d
  unfolding insert_each keys values
  insert_each_transactions [] store listed once named room =
      rw (append-nil store.tx, append-nil store.tx_order) refl
  insert_each_transactions ((k, v) ∷ d) store listed once (name, named) room =
      let fresh : contains_key v.txid store.tx ≡ false =
        sym (contains-keys v.txid store.tx)
        ∙ ap (contains v.txid) listed
        ∙ ap (λ i. contains i store.tx_order) name
        ∙ Unique-before store.tx_order k (keys d) once in
      let one = insert_transaction_room store v fresh (omega arith) in
      let next = more_tx store ((v.txid, v) ∷ []) in
      let rest =
        insert_each_transactions d next
          (keys-append store.tx ((v.txid, v) ∷ []) ∙ ap (λ l. l ++ (v.txid ∷ [])) listed)
          (subst Unique
            (ap (λ i. store.tx_order ++ (i ∷ keys d)) (sym name)
              ∙ sym (append_assoc store.tx_order (v.txid ∷ []) (keys d)))
            once)
          named (omega (arith, length-append store.tx ((v.txid, v) ∷ []))) in
      ap (insert_each (λ s v. (insert_transaction s v).1) (values d)) one
      ∙ rest
      ∙ rw
          (
            append_assoc store.tx ((v.txid, v) ∷ []) d,
            append_assoc store.tx_order (v.txid ∷ []) (keys d),
            name,
          )
          refl

  abbrev more_blocks : MemoryStore Value → List (Str × IndexedBlock Value) → MemoryStore Value
  more_blocks store d = record store {
    blocks = store.blocks ++ d;
    block_order = store.block_order ++ keys d;
  }

  insert_block_room :
      (store : MemoryStore Value) (value : IndexedBlock Value)
      → contains_key value.hash store.blocks ≡ false
      → suc (length store.blocks) ≤ store.config.max_blocks
      → (insert_block store value).1 ≡ more_blocks store ((value.hash, value) ∷ [])
  unfolding insert_block trim_blocks keys
  insert_block_room store value fresh room =
      rw (fresh, insert_new value.hash value store.blocks fresh)
        (idle_blocks (store.block_order ++ (value.hash ∷ []))
          (more_blocks store ((value.hash, value) ∷ []))
          (omega (arith, length-append store.blocks ((value.hash, value) ∷ []))))

  insert_each_blocks :
      (d : List (Str × IndexedBlock Value)) (store : MemoryStore Value)
      → keys store.blocks ≡ store.block_order
      → Unique (store.block_order ++ keys d)
      → All (λ (entry : Str × IndexedBlock Value). entry.1.hash ≡ entry.0) d
      → length store.blocks + length d ≤ store.config.max_blocks
      → insert_each (λ s v. (insert_block s v).1) (values d) store ≡ more_blocks store d
  unfolding insert_each keys values
  insert_each_blocks [] store listed once named room =
      rw (append-nil store.blocks, append-nil store.block_order) refl
  insert_each_blocks ((k, v) ∷ d) store listed once (name, named) room =
      let fresh : contains_key v.hash store.blocks ≡ false =
        sym (contains-keys v.hash store.blocks)
        ∙ ap (contains v.hash) listed
        ∙ ap (λ i. contains i store.block_order) name
        ∙ Unique-before store.block_order k (keys d) once in
      let one = insert_block_room store v fresh (omega arith) in
      let next = more_blocks store ((v.hash, v) ∷ []) in
      let rest =
        insert_each_blocks d next
          (keys-append store.blocks ((v.hash, v) ∷ []) ∙ ap (λ l. l ++ (v.hash ∷ [])) listed)
          (subst Unique
            (ap (λ i. store.block_order ++ (i ∷ keys d)) (sym name)
              ∙ sym (append_assoc store.block_order (v.hash ∷ []) (keys d)))
            once)
          named (omega (arith, length-append store.blocks ((v.hash, v) ∷ []))) in
      ap (insert_each (λ s v. (insert_block s v).1) (values d)) one
      ∙ rest
      ∙ rw
          (
            append_assoc store.blocks ((v.hash, v) ∷ []) d,
            append_assoc store.block_order (v.hash ∷ []) (keys d),
            name,
          )
          refl

  insert_each_matches :
      (items : List IndexedMatch) (store : MemoryStore Value)
      → length store.matches + length items ≤ store.config.max_matches
      → insert_each insert_match items store ≡ record store { matches = store.matches ++ items }
  unfolding insert_each insert_match trim_matches
  insert_each_matches [] store room = rw (append-nil store.matches) refl
  insert_each_matches (value ∷ items) store room =
      let next : MemoryStore Value = record store { matches = store.matches ++ (value ∷ []) } in
      ap (insert_each insert_match items)
        (idle_matches next.matches next (omega (arith, length-append store.matches (value ∷ []))))
      ∙ insert_each_matches items next (omega (arith, length-append store.matches (value ∷ [])))
      ∙ rw (append_assoc store.matches (value ∷ []) items) refl

  -- A well-formed store that is restored from its own snapshot is the same, less the evictions that
  -- wait to be taken.
  pub restore-snapshot :
      (store : MemoryStore Value)
      → WellFormed store
      → restore store.config (snapshot store) ≡ record store { pending_evictions = [] }
  unfolding restore snapshot new keys transactions blocks matches
  restore-snapshot store w =
      let tx_size = length-Table tx_name store.tx store.tx_order w.tx_table in
      let block_size = length-Table block_name store.blocks store.block_order w.block_table in
      let empty : MemoryStore Value = new store.config in
      let with_tx = more_tx empty store.tx in
      let with_blocks = more_blocks with_tx store.blocks in
      let txs =
        insert_each_transactions store.tx empty refl
          (subst Unique (sym w.tx_table.listed) w.tx_table.once) w.tx_table.named
          (omega (arith, w.tx_bound)) in
      let bs =
        insert_each_blocks store.blocks with_tx refl
          (subst Unique (sym w.block_table.listed) w.block_table.once) w.block_table.named
          (omega (arith, w.block_bound)) in
      let ms = insert_each_matches store.matches with_blocks (omega (arith, w.match_bound)) in
      rw
        (
          in_order-Table tx_name store.tx store.tx_order w.tx_table,
          in_order-Table block_name store.blocks store.block_order w.block_table,
          txs,
          bs,
          ms,
          w.tx_table.listed,
          w.block_table.listed,
        )
        refl
