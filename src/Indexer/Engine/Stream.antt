-- ===== src/Indexer/Engine/Stream.antt =====
-- The transactions that an engine takes in one after the other, against a description of what it reports.
use kaspa_portal.Base.{
  ◌≡◌, refl, sym, ap, ◌∙◌, ◌⊎◌, inl, inr, ℕ, true, false, List, [], ◌∷◌, ◌++◌, All, Bool-cases,
  subst, length, ◌≤◌,
}
use kaspa_portal.Base.Dict.{values, retain}
use kaspa_portal.Base.Dict.Aligned.{contains}
use kaspa_portal.Base.Equality.{Str, str_eq}
use kaspa_portal.Base.Outcome.{Result, ok}
use kaspa_portal.Base.Window.{last_of, last_of_short, last_of-append}
use kaspa_portal.Indexer.Config.{IndexerConfig, IndexerError}
use kaspa_portal.Indexer.Dedupe.{RecentKeys}
use kaspa_portal.Indexer.Dedupe.Window.{
  IsWindow, observe_old, observe_new, observe-IsWindow, pushed,
}
use kaspa_portal.Indexer.Event.{IndexedTransaction, IndexedMatch}
use kaspa_portal.Indexer.Matcher
use kaspa_portal.Indexer.Matcher.{Matcher, matches, scan}
use kaspa_portal.Indexer.Matcher.Fits.{Fits, matches_iff}
use kaspa_portal.Indexer.Engine.{IndexerEngine, validate_transaction, ingest_transaction}
use kaspa_portal.Indexer.Engine.Ingest.{ingest_transaction-TakesIn, ingest_transaction-result}
use kaspa_portal.Indexer.Engine.Invariant.{Consistent}

-- The rules are ones that can be added.
abbrev pub ValidRules : List Matcher → Type 0
ValidRules matchers = All (λ matcher. Matcher.validate matcher.rule ≡ ok tt) matchers

pub pushed-history :
    (r : RecentKeys) (key : Str) (history : List Str) (c : ℕ)
    → r.capacity ≡ c
    → r.order ≡ last_of c history
    → (pushed r key).order ≡ last_of c (history ++ (key ∷ []))
pushed-history r key history c same e =
    ap (λ n. last_of n (r.order ++ (key ∷ []))) same
    ∙ ap (λ l. last_of c (l ++ (key ∷ []))) e
    ∙ last_of-append c history key

module _ {Value : Type 0} where
  -- The matches are one for each matcher whose rule the transaction fits, in the order of the matchers.
  pub AreMatches : IndexedTransaction Value → List Matcher → List IndexedMatch → Type 0
  AreMatches tx [] found = found ≡ []
  AreMatches tx (matcher ∷ matchers) found =
      (Fits matcher.rule tx
        × ((item : IndexedMatch) × (rest : List IndexedMatch) × (found ≡ item ∷ rest)
            × (item.matcher_id ≡ matcher.id)
            × (item.txid ≡ tx.txid)
            × (item.observed_at_ms ≡ tx.observed_at_ms)
            × AreMatches tx matchers rest))
      ⊎ ((¬ Fits matcher.rule tx) × AreMatches tx matchers found)

  scan-AreMatches :
      (tx : IndexedTransaction Value) (matchers : List Matcher)
      → ValidRules matchers
      → AreMatches tx matchers (scan tx matchers)
  unfolding scan retain AreMatches
  scan-AreMatches tx [] v = refl
  scan-AreMatches tx (matcher ∷ matchers) (valid, v) =
      let rest = scan-AreMatches tx matchers v in
      let fits = matches_iff matcher.rule tx valid in
      elim (Bool-cases (matches matcher.rule tx)) [
        | inl h ↦ rw h (inl (fits.0 h, (_, _, refl, refl, refl, refl, rest)))
        | inr h ↦ rw h (inr (λ f. let no : ⊥ = cc (h, fits.1 f) in elim no [ ], rest))
      ]

  -- The results of a stream of transactions, behind a history of the ids that were new: those of an id that
  -- is one of the last new ones are empty, all others the matches.
  pub Reports :
      ℕ
      → List Str
      → List Matcher
      → List (IndexedTransaction Value)
      → List (Result IndexerError (List IndexedMatch))
      → Type 0
  Reports c history matchers [] results = results ≡ []
  Reports c history matchers (tx ∷ txs) results =
      (found : List IndexedMatch) × (rest : List (Result IndexerError (List IndexedMatch)))
      × (results ≡ ok found ∷ rest)
      × (((contains tx.txid (last_of c history) ≡ true)
            × (found ≡ [])
            × Reports c history matchers txs rest)
          ⊎ ((contains tx.txid (last_of c history) ≡ false)
              × AreMatches tx matchers found
              × Reports c (history ++ (tx.txid ∷ [])) matchers txs rest))

  -- the results of the transactions of a stream, each on the engine that the one before left
  pub ingest_each :
      List (IndexedTransaction Value)
      → IndexerEngine Value
      → List (Result IndexerError (List IndexedMatch))
  ingest_each [] engine = []
  ingest_each (tx ∷ txs) engine =
      let (result, engine') = ingest_transaction tx engine in result ∷ ingest_each txs engine'

  abbrev pub AllValid : IndexerEngine Value → List (IndexedTransaction Value) → Type 0
  AllValid engine txs = All (λ tx. validate_transaction engine.config tx ≡ ok tt) txs

  module _ (c : ℕ) (config : IndexerConfig) (matchers : List Matcher)
      (rules : ValidRules matchers) where
    -- An engine with this configuration and these matchers, behind a history.
    record IsBehind (history : List Str) (engine : IndexerEngine Value) : Type 0 where
      pub window : IsWindow engine.recent_txids
      pub capacity : engine.recent_txids.capacity ≡ c
      pub recent : engine.recent_txids.order ≡ last_of c history
      pub configured : engine.config ≡ config
      pub matching : values engine.matchers ≡ matchers

    in_history :
        (history : List Str) (engine : IndexerEngine Value) (key : Str)
        → IsBehind history engine
        → contains key (last_of c history) ≡ contains key engine.recent_txids.set
    in_history history engine key b = sym (ap (contains key) (b.window.members ∙ b.recent))

    module _ (tx : IndexedTransaction Value) (engine : IndexerEngine Value) (history : List Str)
        (b : IsBehind history engine) (ready : validate_transaction config tx ≡ ok tt) where
      abbrev after : IndexerEngine Value
      after = (ingest_transaction tx engine).1

      accepted : validate_transaction engine.config tx ≡ ok tt
      accepted = rw b.configured ready

      taken_old : contains tx.txid engine.recent_txids.set ≡ true → IsBehind history after
      taken_old h =
          let (same, recent, kept) = ingest_transaction-TakesIn tx engine accepted in
          let window : after.recent_txids ≡ engine.recent_txids =
            recent ∙ ap (λ r. r.1) (observe_old engine.recent_txids tx.txid h) in
          record {
            window = rw window b.window;
            capacity = rw window b.capacity;
            recent = rw window b.recent;
            configured = same ∙ b.configured;
            matching = ap (λ m. values m) kept ∙ b.matching;
          }

      taken_new :
          contains tx.txid engine.recent_txids.set ≡ false
          → IsBehind (history ++ (tx.txid ∷ [])) after
      taken_new h =
          let (same, recent, kept) = ingest_transaction-TakesIn tx engine accepted in
          let window : after.recent_txids ≡ pushed engine.recent_txids tx.txid =
            recent ∙ ap (λ r. r.1) (observe_new engine.recent_txids tx.txid b.window h) in
          record {
            window = rw recent (observe-IsWindow engine.recent_txids tx.txid b.window);
            capacity = ap (λ r. r.capacity) window ∙ b.capacity;
            recent =
                ap (λ r. r.order) window
                ∙ pushed-history engine.recent_txids tx.txid history c b.capacity b.recent;
            configured = same ∙ b.configured;
            matching = ap (λ m. values m) kept ∙ b.matching;
          }

      result_old :
          contains tx.txid engine.recent_txids.set ≡ true → (ingest_transaction tx engine).0 ≡ ok []
      result_old h =
          let flag = observe_old engine.recent_txids tx.txid h in
          ingest_transaction-result tx engine accepted ∙ rw flag refl

      result_new :
          contains tx.txid engine.recent_txids.set ≡ false
          → (ingest_transaction tx engine).0 ≡ ok (scan tx matchers)
      result_new h =
          let flag = observe_new engine.recent_txids tx.txid b.window h in
          ingest_transaction-result tx engine accepted ∙ rw (flag, b.matching) refl

    ingest_each-Reports_from :
        (txs : List (IndexedTransaction Value)) (engine : IndexerEngine Value) (history : List Str)
        → IsBehind history engine
        → All (λ tx. validate_transaction config tx ≡ ok tt) txs
        → Reports c history matchers txs (ingest_each txs engine)
    unfolding Reports ingest_each
    ingest_each-Reports_from [] engine history b valid = refl
    ingest_each-Reports_from (tx ∷ txs) engine history b (ready, valid) =
        let key = in_history history engine tx.txid b in
        elim (Bool-cases (contains tx.txid engine.recent_txids.set)) [
          | inl h ↦ (
            [],
            _,
            ap (λ r. r ∷ ingest_each txs (ingest_transaction tx engine).1)
                (result_old tx engine history b ready h),
            inl (
              key ∙ h,
              refl,
              ingest_each-Reports_from txs _ history (taken_old tx engine history b ready h) valid,
            ),
          )
          | inr h ↦ (
            scan tx matchers,
            _,
            ap (λ r. r ∷ ingest_each txs (ingest_transaction tx engine).1)
                (result_new tx engine history b ready h),
            inr (
              key ∙ h,
              scan-AreMatches tx matchers rules,
              ingest_each-Reports_from txs _ (history ++ (tx.txid ∷ []))
                  (taken_new tx engine history b ready h) valid,
            ),
          )
        ]

  -- A consistent engine whose rules are ones that can be added takes a stream of valid transactions in with
  -- these results: a transaction whose id is one of the last new ones, as many as the window, the ones that it
  -- had before the stream first, has no matches, and any other has one match for each matcher whose rule it
  -- fits, in the order of the matchers.
  pub ingest_each-Reports :
      (txs : List (IndexedTransaction Value)) (engine : IndexerEngine Value)
      → Consistent engine
      → ValidRules (values engine.matchers)
      → AllValid engine txs
      → Reports engine.config.dedupe_window engine.recent_txids.order
          (values engine.matchers)
          txs
          (ingest_each txs engine)
  ingest_each-Reports txs engine c rules valid =
      ingest_each-Reports_from engine.config.dedupe_window engine.config (values engine.matchers)
        rules txs engine engine.recent_txids.order
        (record {
          window = c.window;
          capacity = c.capacity;
          recent = sym (
              last_of_short engine.config.dedupe_window engine.recent_txids.order
                (subst (λ n. length engine.recent_txids.order ≤ n) c.capacity c.window.bound));
          configured = refl;
          matching = refl;
        })
        valid
