-- ===== src/Indexer/Engine/Tests.antt =====
-- The theorems on the engine at concrete records.
use kaspa_portal.Base.{any, some, ◌≡◌, refl, true, false, not, [], ◌∷◌, length, leb, All}
use kaspa_portal.Base.Dict.{keys, contains_key, insert, values}
use kaspa_portal.Base.Dict.Aligned.{contains}
use kaspa_portal.Base.Equality.{str_eq, nat_eq, is_blank, byte_len}
use kaspa_portal.Base.Outcome.{ok}
use kaspa_portal.Base.Sort.{sort_by, insert_by}
use kaspa_portal.Indexer.Config
use kaspa_portal.Indexer.Config.{
  IndexerConfig, default, validate_limits, retains_transaction, retains_transactions,
  retains_matches, empty_txid,
}
use kaspa_portal.Indexer.Dedupe
use kaspa_portal.Indexer.Event.{IndexedTransaction, BlockBatch, VirtualChainDelta, no_checkpoint}
use kaspa_portal.Indexer.Matcher
use kaspa_portal.Indexer.Matcher.{
  MatchRule, payload_prefix, matches, scan, validate_payload_matcher,
}
use kaspa_portal.Indexer.Store
use kaspa_portal.Indexer.Store.{
  MemoryStore, insert_transaction, purge_expired, remove_chain_blocks, transaction, transactions,
  restore, snapshot, in_blocks, trim_transactions, trim_transactions_on, in_order, found_first,
}
use kaspa_portal.Indexer.Engine
use kaspa_portal.Indexer.Engine.{
  IndexerEngine, created, add_matcher, check_new_matcher, ingest_transaction, validate_transaction,
  health,
}
use kaspa_portal.Indexer.Engine.Ingest.{ingest_transaction-transaction}
use kaspa_portal.Indexer.Engine.Stream.{ValidRules, Reports, ingest_each, ingest_each-Reports}
use kaspa_portal.Indexer.Store.Inserted.{first_of}
use kaspa_portal.Indexer.Engine.Invariant.{Consistent}
use kaspa_portal.Indexer.Engine.Rebuilt.{RemembersLast, restore_state-RemembersLast}
use kaspa_portal.Indexer.Engine.Persist.{
  PersistedIndexerState, next_matcher_id, max_id, collect, persisted_state, restore_state,
  validate_state, validate_schema, validate_checkpoint, validate_matchers, validate_matchers_from,
  validate_snapshot, validate_transactions,
}
use kaspa_portal.Indexer.Engine.Preserved.{new-Consistent, add_matcher-Consistent}
use kaspa_portal.Indexer.Engine.Promises.{
  IsBounded, health-IsBounded, matches-transaction, add_matcher-contains_key,
}
use kaspa_portal.Indexer.Engine.Reach.{
  Reach, here, next, adds_matcher, ingests_transaction, new-Reach-Consistent,
}
use kaspa_portal.Indexer.Engine.Saved.{restore_state-persisted_state}
use kaspa_portal.Indexer.Engine.Sync
use kaspa_portal.Indexer.Facade.{
  scan_batch, ingest_block_batch, apply_sync_batches, reconcile_virtual_chain,
}
use kaspa_portal.Indexer.Facade.Atomic.{IsAtomic, batches-IsAtomic}
use kaspa_portal.Indexer.Tests.{tiny, Raw, tx_a, tx_b, block_x, rule}

abbrev engine : IndexerEngine Raw
engine = (add_matcher rule (created tiny)).1

made : Engine.new tiny ≡ ok (created {Value = Raw} tiny)
unfolding Engine.new Config.validate validate_limits
made = refl

engine-Consistent : Consistent engine
engine-Consistent =
    add_matcher-Consistent rule (created tiny) (new-Consistent tiny (created tiny) made)

-- a run that adds a matcher and takes in a transaction that it matches
abbrev ran : IndexerEngine Raw
ran = (ingest_transaction tx_a engine).1

run : Reach (created tiny) ran
run = next (next here (adds_matcher rule)) (ingests_transaction tx_a)

new-Reach-Consistent_example : Consistent ran
new-Reach-Consistent_example = new-Reach-Consistent tiny (created tiny) ran made run

health-IsBounded_example : IsBounded ran.config (health 120 ran)
health-IsBounded_example = health-IsBounded tiny (created tiny) ran made run 120

matches-transaction_example :
    All
      (λ item.
        (tx : IndexedTransaction Raw) × (transaction ran.store item.txid ≡ some tx)
        × (tx.txid ≡ item.txid))
      (Store.matches ran.store)
matches-transaction_example = matches-transaction tiny (created tiny) ran made run

second_id : (add_matcher rule engine).0 ≡ ok 2
unfolding add_matcher check_new_matcher created Matcher.validate validate_payload_matcher insert
second_id = refl

add_matcher-contains_key_example : contains_key 2 engine.matchers ≡ false
add_matcher-contains_key_example =
    add_matcher-contains_key tiny (created tiny) engine made (next here (adds_matcher rule)) rule 2
      second_id

tx_a_valid : validate_transaction engine.config tx_a ≡ ok tt
unfolding add_matcher check_new_matcher created Matcher.validate validate_payload_matcher insert
    validate_transaction is_blank byte_len any
tx_a_valid = refl

tx_a_new : contains tx_a.txid engine.recent_txids.set ≡ false
unfolding add_matcher check_new_matcher created Matcher.validate validate_payload_matcher insert
    Dedupe.new contains
tx_a_new = refl

mode_keeps :
    retains_transaction engine.config.mode
      (not (leb (length (scan tx_a (values engine.matchers))) 0))
    ≡ true
unfolding add_matcher check_new_matcher created Matcher.validate validate_payload_matcher insert
    retains_transaction retains_transactions
mode_keeps = refl

ingest_transaction-transaction_example :
    transaction (ingest_transaction tx_a engine).1.store tx_a.txid
    ≡ some
        (first_of (transaction (purge_expired engine.store tx_a.observed_at_ms).1 tx_a.txid) tx_a)
ingest_transaction-transaction_example =
    ingest_transaction-transaction tx_a engine engine-Consistent tx_a_valid tx_a_new mode_keeps

engine_rules : ValidRules (values engine.matchers)
unfolding add_matcher check_new_matcher created Matcher.validate validate_payload_matcher insert
    values
engine_rules = (refl, tt)

tx_b_valid : validate_transaction engine.config tx_b ≡ ok tt
unfolding add_matcher check_new_matcher created Matcher.validate validate_payload_matcher insert
    validate_transaction is_blank byte_len any
tx_b_valid = refl

ingest_each-Reports_example :
    Reports engine.config.dedupe_window engine.recent_txids.order
      (values engine.matchers)
      (tx_a ∷ tx_b ∷ tx_a ∷ [])
      (ingest_each (tx_a ∷ tx_b ∷ tx_a ∷ []) engine)
ingest_each-Reports_example =
    ingest_each-Reports (tx_a ∷ tx_b ∷ tx_a ∷ []) engine engine-Consistent engine_rules
      (tx_a_valid, (tx_b_valid, (tx_a_valid, tt)))

saved_valid : validate_state (created {Value = Raw} tiny).config (persisted_state engine) ≡ ok tt
unfolding validate_state validate_schema validate_checkpoint validate_matchers
    validate_matchers_from validate_snapshot validate_transactions persisted_state snapshot
    transactions Store.blocks Store.matches in_order found_first Store.new add_matcher
    check_new_matcher created Matcher.validate validate_payload_matcher insert sort_by insert_by
    values contains any
saved_valid = refl

same_config : (created {Value = Raw} tiny).config ≡ engine.config
unfolding add_matcher check_new_matcher created Matcher.validate validate_payload_matcher insert
same_config = refl

restore_state-persisted_state_example :
    ((restore_state (persisted_state engine) (created tiny)).0 ≡ ok tt)
    × ((restore_state (persisted_state engine) (created tiny)).1.store
        ≡ record engine.store { pending_evictions = [] })
    × ((restore_state (persisted_state engine) (created tiny)).1.checkpoint ≡ engine.checkpoint)
restore_state-persisted_state_example =
    restore_state-persisted_state engine (created tiny) engine-Consistent same_config saved_valid

abbrev unnamed : IndexedTransaction Raw
unnamed = record tx_a { txid = 0x20 ∷ [] }

abbrev kept_state : PersistedIndexerState Raw
kept_state = record (persisted_state engine) {
  snapshot = record { transactions = tx_a ∷ []; blocks = []; matches = [] };
}

kept_valid : validate_state (created {Value = Raw} tiny).config kept_state ≡ ok tt
unfolding validate_state validate_schema validate_checkpoint validate_matchers
    validate_matchers_from validate_snapshot validate_transactions persisted_state snapshot
    transactions Store.blocks Store.matches in_order found_first Store.new add_matcher
    check_new_matcher created Matcher.validate validate_payload_matcher insert sort_by insert_by
    values contains any validate_transaction is_blank byte_len
kept_valid = refl

kept_next : next_matcher_id (collect [] kept_state.matchers) ≡ ok 2
unfolding persisted_state next_matcher_id max_id collect keys add_matcher check_new_matcher created
    Matcher.validate validate_payload_matcher insert sort_by insert_by values
kept_next = refl

kept_restored : (restore_state kept_state (created tiny)).0 ≡ ok tt
unfolding restore_state
kept_restored = rw (restore_state, kept_valid, kept_next) refl

restore_state-RemembersLast_example : RemembersLast 4096 (restore_state kept_state (created tiny)).1
unfolding created
restore_state-RemembersLast_example =
    restore_state-RemembersLast kept_state (created tiny) (new-Consistent tiny (created tiny) made)
      tt kept_restored

abbrev batch : BlockBatch Raw
batch = record { block = block_x; transactions = tx_a ∷ unnamed ∷ [] }

abbrev delta : VirtualChainDelta Raw
delta = record {
  removed_block_hashes = (b'x' ∷ []) ∷ [];
  accepted = batch ∷ [];
  checkpoint = no_checkpoint;
}

batches-IsAtomic_example :
    IsAtomic (scan_batch batch) (ingest_block_batch batch)
    × IsAtomic
        (Sync.apply_sync_batches (batch ∷ []) no_checkpoint)
        (apply_sync_batches (batch ∷ []) no_checkpoint)
    × IsAtomic (Sync.reconcile_virtual_chain delta) (reconcile_virtual_chain delta)
batches-IsAtomic_example = batches-IsAtomic batch (batch ∷ []) no_checkpoint delta
