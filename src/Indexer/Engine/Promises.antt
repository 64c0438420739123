-- ===== src/Indexer/Engine/Promises.antt =====
-- What a user of an engine sees after any run of it.
use kaspa_portal.Base.{
  ℕ, ◌≤◌, ◌<◌, ◌≡◌, refl, sym, ap, ◌∙◌, inl, inr, false, some, List, [], ◌∷◌, arith, All, All_map,
}
use kaspa_portal.Base.Dict.{contains_key}
use kaspa_portal.Base.Equality.{str_eq, nat_eq}
use kaspa_portal.Base.Outcome.{ok, err, Result-cases}
use kaspa_portal.Indexer.Config.{IndexerConfig}
use kaspa_portal.Indexer.Event.{IndexedTransaction, IndexerHealth}
use kaspa_portal.Indexer.Matcher.{Matcher, MatchRule}
use kaspa_portal.Indexer.Store.{transaction, matches}
use kaspa_portal.Indexer.Store.Layout.{tx_name, block_name}
use kaspa_portal.Indexer.Store.Table.{length-Table, lookup-Table}
use kaspa_portal.Indexer.Engine
use kaspa_portal.Indexer.Engine.{IndexerEngine, add_matcher, check_new_matcher, health}
use kaspa_portal.Indexer.Engine.Reach.{Reach, new-Reach-Consistent}

fresh_id :
    (matchers : List (ℕ × Matcher)) (next : ℕ)
    → All
        (λ (entry : ℕ × Matcher). (entry.1.id ≡ entry.0) × (1 ≤ entry.0) × (entry.0 < next))
        matchers
    → contains_key next matchers ≡ false
unfolding contains_key
fresh_id [] next h = refl
fresh_id ((j, m) ∷ matchers) next ((_, _, below), h) = ground (arith, fresh_id matchers next h)

-- The counts that the health of an engine shows are within the limits of its configuration.
pub record IsBounded (config : IndexerConfig) (shown : IndexerHealth) : Type 0 where
  pub transactions : shown.transaction_count ≤ config.max_transactions
  pub blocks : shown.block_count ≤ config.max_blocks
  pub matches : shown.match_count ≤ config.max_matches
  pub matchers : shown.matcher_count ≤ 4096

module _ {Value : Type 0} where
  module _ (config : IndexerConfig) (e f : IndexerEngine Value) (made : Engine.new config ≡ ok e)
      (run : Reach e f) where
    -- After any run of an engine that was created from a valid configuration, in which restores
    -- succeed and restore matches only of transactions that they restore, its health shows at most as
    -- many transactions, blocks and matches as its configuration allows, and at most 4096 matchers.
    pub health-IsBounded : (now_ms : ℕ) → IsBounded f.config (health now_ms f)
    unfolding health
    health-IsBounded now_ms =
        let c = new-Reach-Consistent config e f made run in
        let txs = length-Table tx_name f.store.tx f.store.tx_order c.stored.tx_table in
        let bs = length-Table block_name f.store.blocks f.store.block_order c.stored.block_table in
        record {
          transactions = rw (txs, sym c.configured) c.stored.tx_bound;
          blocks = rw (bs, sym c.configured) c.stored.block_bound;
          matches = rw (sym c.configured) c.stored.match_bound;
          matchers = c.numbered.few;
        }

    -- After any run of an engine that was created from a valid configuration, in which restores
    -- succeed and restore matches only of transactions that they restore, every match in the store is
    -- one of a transaction in the store.
    pub matches-transaction :
        All
          (λ item.
            (tx : IndexedTransaction Value) × (transaction f.store item.txid ≡ some tx)
            × (tx.txid ≡ item.txid))
          (matches f.store)
    unfolding matches transaction
    matches-transaction =
        let c = new-Reach-Consistent config e f made run in
        All_map _ _ f.store.matches
          (λ item h. lookup-Table tx_name item.txid f.store.tx f.store.tx_order c.stored.tx_table h)
          c.stored.linked

    -- After any run of an engine that was created from a valid configuration, in which restores
    -- succeed and restore matches only of transactions that they restore, the id that a new matcher is
    -- given is not that of a matcher that is there.
    pub add_matcher-contains_key :
        (rule : MatchRule) (id : ℕ)
        → (add_matcher rule f).0 ≡ ok id
        → contains_key id f.matchers ≡ false
    unfolding add_matcher
    add_matcher-contains_key rule id given =
        let c = new-Reach-Consistent config e f made run in
        let fresh = fresh_id f.matchers f.next_matcher_id c.numbered.below in
        elim (Result-cases (check_new_matcher rule f.matchers f.next_matcher_id)) [
          | inl (next, h) ↦
              let same : (add_matcher rule f).0 ≡ ok f.next_matcher_id = rw (add_matcher, h) refl in
              let next_id : f.next_matcher_id ≡ id = cc (same, given) in
              ap (λ i. contains_key i f.matchers) (sym next_id) ∙ fresh
          | inr (error, h) ↦
              let failed : (add_matcher rule f).0 ≡ err error = rw (add_matcher, h) refl in cc
        ]
