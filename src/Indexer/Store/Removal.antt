-- ===== src/Indexer/Store/Removal.antt =====
-- What the removals take out of the store: the expired transactions, and those of blocks that left the chain.
use kaspa_portal.Base.{
  ℕ, ◌-◌, ◌==◌, ◌≤◌, ◌<◌, ◌≡◌, refl, sym, ap, subst, ◌∙◌, inl, inr, Bool, true, false, not, List,
  [], ◌∷◌, ◌++◌, length, length-append, arith, All, Bool-cases, leb, leb→le,
}
use kaspa_portal.Base.Dict.{remove, keys, All-retain, length-retain, retain}
use kaspa_portal.Base.Dict.Aligned.{contains, contains-append, contains-retain, keys-append}
use kaspa_portal.Base.Equality.{Str, str_eq}
use kaspa_portal.Indexer.Event.{IndexedTransaction, IndexedMatch}
use kaspa_portal.Indexer.Store.{
  MemoryStore, purge_expired, expire_on, expire_front, remove_matches_for_transactions,
  remove_chain_blocks, removed_txids,
}
use kaspa_portal.Indexer.Store.Layout.{Linked, tx_name, block_name, WellFormed}
use kaspa_portal.Indexer.Store.Table.{Table, Table-pop, lookup_front, Table-retain}

remove_matches_lem :
    (items : List IndexedMatch) (ids : List Str)
    → remove_matches_for_transactions items ids
      ≡ retain (λ value. not (contains value.txid ids)) items
unfolding remove_matches_for_transactions retain contains
remove_matches_lem [] [] = refl
remove_matches_lem (x ∷ xs) [] = ap (λ l. x ∷ l) (remove_matches_lem xs [])
remove_matches_lem items (id ∷ ids) = refl

-- A match of what stays stays linked.
Linked-retain :
    (p : Str → Bool) (order : List Str) (matches : List IndexedMatch)
    → Linked order matches
    → Linked (retain p order) (retain (λ (value : IndexedMatch). p value.txid) matches)
Linked-retain p order matches l =
    All-retain _ _ (λ (value : IndexedMatch). p value.txid) matches
      (λ value e f. ground (arith, contains-retain p value.txid order)) l

Linked-suffix :
    (gone order : List Str) (matches : List IndexedMatch)
    → Linked (gone ++ order) matches
    → Linked order (retain (λ (value : IndexedMatch). not (contains value.txid gone)) matches)
Linked-suffix gone order matches l =
    All-retain _ _ (λ (value : IndexedMatch). not (contains value.txid gone)) matches
      (λ value e f. ground (arith, contains-append value.txid gone order)) l

module _ {Value : Type 0} (now_ms ttl : ℕ) where
  -- an entry whose transaction was observed longer ago than the time to live
  abbrev pub IsExpired : Str × IndexedTransaction Value → Type 0
  IsExpired entry = ttl < now_ms - entry.1.observed_at_ms

  unfoldable pub IsFreshFirst : List (Str × IndexedTransaction Value) → Type 0
  IsFreshFirst [] = Unit {0}
  IsFreshFirst (entry ∷ tx) = now_ms - entry.1.observed_at_ms ≤ ttl

  pub record Expires (tx : List (Str × IndexedTransaction Value))
      (result : List Str × List Str × List (Str × IndexedTransaction Value)) : Type 0 where
    pub gone : List (Str × IndexedTransaction Value)
    pub ids : keys gone ≡ result.0
    pub split : tx ≡ gone ++ result.2
    pub old : All IsExpired gone
    pub fresh : IsFreshFirst result.2
    pub table : Table tx_name result.2 result.1

  expire_on-Expires :
      (order : List Str) (tx : List (Str × IndexedTransaction Value))
      → Table tx_name tx order
      → Expires tx (expire_on now_ms ttl order tx)
  unfolding expire_on expire_front keys IsFreshFirst
  expire_on-Expires [] [] t = record {
    gone = [];
    ids = refl;
    split = refl;
    old = tt;
    fresh = tt;
    table = t;
  }
  expire_on-Expires [] (entry ∷ tx) t = let no : ⊥ = cc (t.listed) in elim no [ ]
  expire_on-Expires (id ∷ order) tx t =
      let (value, found, whole, name) = lookup_front tx_name id tx order t in
      elim (Bool-cases (leb (now_ms - value.observed_at_ms) ttl)) [
        | inl h ↦
            rw (found, h)
              (record {
                gone = [];
                ids = refl;
                split = refl;
                old = tt;
                fresh = rw whole (leb→le (now_ms - value.observed_at_ms) ttl h);
                table = t;
              })
        | inr h ↦
            let rest = expire_on-Expires order (remove id tx) (Table-pop tx_name id tx order t).0 in
            rw (found, h)
              (record {
                gone = (id, value) ∷ rest.gone;
                ids = ap (λ l. id ∷ l) rest.ids;
                split = whole ∙ ap (λ l. (id, value) ∷ l) rest.split;
                old = (ground arith, rest.old);
                fresh = rest.fresh;
                table = rest.table;
              })
      ]

-- The expired transactions are a first part of those of the store; they go with their matches.
pub record Purges {Value : Type 0} (now_ms : ℕ) (store : MemoryStore Value)
    (result : List Str × MemoryStore Value) : Type 0 where
  pub gone : List (Str × IndexedTransaction Value)
  pub ids : keys gone ≡ result.0
  pub split : store.tx ≡ gone ++ result.1.tx
  pub old : All (IsExpired now_ms store.config.transaction_ttl_ms) gone
  pub fresh : IsFreshFirst now_ms store.config.transaction_ttl_ms result.1.tx
  pub table : Table tx_name result.1.tx result.1.tx_order
  pub matches :
      result.1.matches ≡ retain (λ value. not (contains value.txid result.0)) store.matches
  pub config : result.1.config ≡ store.config
  pub blocks : result.1.blocks ≡ store.blocks
  pub block_order : result.1.block_order ≡ store.block_order

module _ {Value : Type 0} (now_ms : ℕ) (store : MemoryStore Value) (w : WellFormed store) where
  pub purge_expired-Purges :
      (store.config.transaction_ttl_ms == 0) ≡ false
      → Purges now_ms store (purge_expired store now_ms)
  unfolding purge_expired
  purge_expired-Purges h =
      let e =
        expire_on-Expires now_ms store.config.transaction_ttl_ms store.tx_order store.tx
          w.tx_table in
      rw h (record {
        gone = e.gone;
        ids = e.ids;
        split = e.split;
        old = e.old;
        fresh = e.fresh;
        table = e.table;
        matches = remove_matches_lem store.matches _;
        config = refl;
        blocks = refl;
        block_order = refl;
      })

  purge_off :
      (store.config.transaction_ttl_ms == 0) ≡ true → purge_expired store now_ms ≡ ([], store)
  unfolding purge_expired
  purge_off h = rw h refl

  pub purge_expired-WellFormed :
      WellFormed (purge_expired store now_ms).1
      × ((purge_expired store now_ms).1.config ≡ store.config)
  purge_expired-WellFormed = elim (Bool-cases (store.config.transaction_ttl_ms == 0)) [
    | inl h ↦ rw (purge_off h) (w, refl)
    | inr h ↦
        let p = purge_expired-Purges h in
        let order : store.tx_order
            ≡ (purge_expired store now_ms).0 ++ (purge_expired store now_ms).1.tx_order =
          sym w.tx_table.listed
          ∙ ap keys p.split
          ∙ keys-append p.gone (purge_expired store now_ms).1.tx
          ∙ cc (p.ids, p.table.listed) in
        (
          record {
            tx_table = p.table;
            block_table = rw (p.blocks, p.block_order) w.block_table;
            tx_bound = rw p.config (
                omega (
                  arith,
                  ap (λ (l : List Str). length l) order,
                  w.tx_bound,
                  length-append (purge_expired store now_ms).0
                      (purge_expired store now_ms).1.tx_order,
                ));
            block_bound = rw (p.block_order, p.config) w.block_bound;
            match_bound =
                rw (p.matches, p.config)
                  (omega (
                    arith,
                    w.match_bound,
                    length-retain
                        (λ (value : IndexedMatch).
                          not (contains value.txid (purge_expired store now_ms).0))
                        store.matches,
                  ));
            linked = rw p.matches (
                Linked-suffix (purge_expired store now_ms).0 (purge_expired store now_ms).1.tx_order
                  store.matches (subst (λ o. Linked o store.matches) order w.linked));
          },
          p.config,
        )
  ]

module _ {Value : Type 0} (store : MemoryStore Value) (w : WellFormed store) where
  pub remove_chain_blocks-WellFormed :
      (removed : List Str)
      → WellFormed (remove_chain_blocks store removed).1
        × ((remove_chain_blocks store removed).1.config ≡ store.config)
  unfolding remove_chain_blocks
  remove_chain_blocks-WellFormed [] = (w, refl)
  remove_chain_blocks-WellFormed (hash ∷ hashes) =
      let txids = removed_txids (hash ∷ hashes) store.tx in
      (
        record {
          tx_table =
              Table-retain tx_name (λ id. not (contains id txids)) store.tx store.tx_order
                w.tx_table;
          block_table =
              Table-retain block_name (λ id. not (contains id (hash ∷ hashes))) store.blocks
                store.block_order w.block_table;
          tx_bound =
              omega
                (arith, w.tx_bound, length-retain (λ id. not (contains id txids)) store.tx_order);
          block_bound = omega (
            arith,
            w.block_bound,
            length-retain (λ id. not (contains id (hash ∷ hashes))) store.block_order,
          );
          match_bound = omega (
            arith,
            w.match_bound,
            length-retain (λ (value : IndexedMatch). not (contains value.txid txids)) store.matches,
          );
          linked =
              Linked-retain (λ id. not (contains id txids)) store.tx_order store.matches w.linked;
        },
        refl,
      )
