-- ===== src/Indexer/Tests.antt =====
-- The theorems on the configuration, the store, the matchers and the queries at concrete records.
use mathlib.Core.List.{Perm}
use kaspa_portal.Base.{
  ◌++◌, some, none, ℕ, ◌==◌, ◌≡◌, ◌↔◌, refl, true, false, if◌then◌else◌, List, [], ◌∷◌, All, arith,
}
use kaspa_portal.Base.Dict.{contains_key, lookup, insert}
use kaspa_portal.Base.Equality.{str_eq, nat_eq}
use kaspa_portal.Base.Outcome.{ok}
use kaspa_portal.Indexer.Config
use kaspa_portal.Indexer.Config.{
  IndexerConfig, default, validate_limits, retains_transaction, retains_transactions,
  retains_matches, empty_txid,
}
use kaspa_portal.Indexer.Config.Validate.{IsValid, validate_iff}
use kaspa_portal.Indexer.Dedupe
use kaspa_portal.Indexer.Dedupe.Window.{feed, stream, feed-new_refines}
use kaspa_portal.Indexer.Event.{IndexedTransaction, IndexedBlock}
use kaspa_portal.Indexer.Matcher
use kaspa_portal.Indexer.Matcher.{
  MatchRule, payload_prefix, matches, scan, validate_payload_matcher,
}
use kaspa_portal.Indexer.Matcher.Fits.{Fits, matches_iff}
use kaspa_portal.Indexer.Store
use kaspa_portal.Indexer.Store.{
  MemoryStore, insert_transaction, purge_expired, remove_chain_blocks, transaction, transactions,
  restore, snapshot, in_blocks, trim_transactions, trim_transactions_on, in_order, found_first,
}
use kaspa_portal.Indexer.Store.Layout.{WellFormed}
use kaspa_portal.Indexer.Store.Preserved.{new-WellFormed, insert_transaction-WellFormed}
use kaspa_portal.Indexer.Store.Removed.{
  picked, PurgesOld, IsInTime, IsOld, purge_expired-PurgesOld, purge_expired-IsOld,
  remove_chain_blocks-transaction,
}
use kaspa_portal.Indexer.Store.Restore.{restore-snapshot}
use kaspa_portal.Indexer.Query.{TransactionQuery, filter_transactions}
use kaspa_portal.Indexer.Query.Pages.{IsPageable, read_pages, read_pages_all}
use kaspa_portal.Indexer.Query.Filter.{InOrder, IsAsked, filter_transactions-InOrder}

-- room for two transactions, for a hundred milliseconds
abbrev pub tiny : IndexerConfig
tiny = record default { max_transactions = 2; transaction_ttl_ms = 100 }

abbrev pub Raw : Type 0
Raw = Unit {0}

abbrev pub tx_a : IndexedTransaction Raw
tx_a = record {
  txid = b'a' ∷ [];
  block_hash = some (b'x' ∷ []);
  daa_score = some 7;
  observed_at_ms = 100;
  addresses = [];
  payload = 1 ∷ 2 ∷ 3 ∷ [];
  raw = tt;
}

abbrev pub tx_b : IndexedTransaction Raw
tx_b = record tx_a { txid = b'b' ∷ []; block_hash = some (b'y' ∷ []); observed_at_ms = 150 }

abbrev pub tx_c : IndexedTransaction Raw
tx_c = record tx_a { txid = b'c' ∷ []; block_hash = none; observed_at_ms = 260 }

abbrev pub block_x : IndexedBlock Raw
block_x = record {
  hash = b'x' ∷ [];
  daa_score = some 7;
  observed_at_ms = 100;
  txids = [];
  raw = tt;
}

abbrev pub rule : MatchRule
rule = payload_prefix (1 ∷ 2 ∷ [])

validate_iff_example : IsValid tiny
unfolding Config.validate validate_limits
validate_iff_example = (validate_iff tiny).0 accepted
  where
    accepted : Config.validate tiny ≡ ok tt
    accepted = refl

feed-new_refines_example :
    (feed (Dedupe.new 1) ((b'a' ∷ []) ∷ (b'b' ∷ []) ∷ (b'a' ∷ []) ∷ [])).0
    ≡ stream 1 [] ((b'a' ∷ []) ∷ (b'b' ∷ []) ∷ (b'a' ∷ []) ∷ [])
feed-new_refines_example = feed-new_refines 1 ((b'a' ∷ []) ∷ (b'b' ∷ []) ∷ (b'a' ∷ []) ∷ [])

matches_iff_example : (matches rule tx_a ≡ true) ↔ Fits rule tx_a
unfolding Matcher.validate validate_payload_matcher
matches_iff_example = matches_iff rule tx_a rule_valid
  where
    rule_valid : Matcher.validate rule ≡ ok tt
    rule_valid = refl

abbrev two : MemoryStore Raw
two = (insert_transaction (insert_transaction (Store.new tiny) tx_a).1 tx_b).1

two-WellFormed : WellFormed two
two-WellFormed =
    insert_transaction-WellFormed (insert_transaction (Store.new tiny) tx_a).1 tx_b
      (insert_transaction-WellFormed (Store.new tiny) tx_a (new-WellFormed tiny))

restore-snapshot_example : restore two.config (snapshot two) ≡ record two { pending_evictions = [] }
restore-snapshot_example = restore-snapshot two two-WellFormed

two_expires : (two.config.transaction_ttl_ms == 0) ≡ false
unfolding insert_transaction trim_transactions trim_transactions_on Store.new contains_key insert
two_expires = refl

purge_expired-PurgesOld_example :
    PurgesOld 240 two (purge_expired two 240).0 (purge_expired two 240).1
purge_expired-PurgesOld_example = purge_expired-PurgesOld 240 two two-WellFormed two_expires

two-IsInTime : IsInTime (transactions two)
unfolding IsInTime transactions in_order found_first lookup insert_transaction trim_transactions
    trim_transactions_on Store.new contains_key insert
two-IsInTime = ((omega arith, tt), (tt, tt))

purge_expired-IsOld_example :
    All (λ value. ¬ IsOld 240 two value) (transactions (purge_expired two 240).1)
purge_expired-IsOld_example = purge_expired-IsOld 240 two two-WellFormed two_expires two-IsInTime

remove_chain_blocks-transaction_example :
    transaction (remove_chain_blocks two ((b'x' ∷ []) ∷ [])).1 (b'a' ∷ []) ≡ (
      if picked (in_blocks ((b'x' ∷ []) ∷ [])) (transaction two (b'a' ∷ []))
      then none
      else transaction two (b'a' ∷ []))
remove_chain_blocks-transaction_example =
    remove_chain_blocks-transaction two ((b'x' ∷ []) ∷ []) (b'a' ∷ []) two-WellFormed

abbrev numbers : List ℕ
numbers = 10 ∷ 20 ∷ 30 ∷ 40 ∷ 50 ∷ []

numbers-IsPageable : IsPageable numbers 2 500
numbers-IsPageable = record {
  some_items = omega arith;
  allowed = omega arith;
  sums_fit = omega arith;
}

read_pages_all_example : read_pages numbers 2 500 6 0 ≡ ok numbers
read_pages_all_example = read_pages_all numbers 2 500 6 numbers-IsPageable (omega arith)

abbrev query : TransactionQuery
query = record {
  address = none;
  after_daa_score = some 5;
  page = record { offset = 0; limit = 10 };
}

filter_transactions-InOrder_example :
    InOrder (filter_transactions (tx_c ∷ tx_b ∷ tx_a ∷ []) query)
    × All (IsAsked query) (filter_transactions (tx_c ∷ tx_b ∷ tx_a ∷ []) query)
    × ((others : List (IndexedTransaction Raw)) × All (λ tx. ¬ IsAsked query tx) others
        × Perm
            (tx_c ∷ tx_b ∷ tx_a ∷ [])
            (filter_transactions (tx_c ∷ tx_b ∷ tx_a ∷ []) query ++ others))
filter_transactions-InOrder_example = filter_transactions-InOrder (tx_c ∷ tx_b ∷ tx_a ∷ []) query
