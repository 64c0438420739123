-- ===== src/Indexer/Engine/Frames.antt =====
-- What the reports, the matches and the evictions of an engine leave as it is.
use kaspa_portal.Base.{◌≡◌, refl, ◌∙◌, inl, inr, Bool, List, [], ◌∷◌, Bool-cases}
use kaspa_portal.Base.Equality.{Str, str_eq}
use kaspa_portal.Indexer.Config.{retains_transaction, retains_matches}
use kaspa_portal.Indexer.Event.{IndexedTransaction, IndexedMatch}
use kaspa_portal.Indexer.Store.{StoreEviction, take_evictions, insert_transaction}
use kaspa_portal.Indexer.Store.Preserved.{insert_match-tx}
use kaspa_portal.Indexer.Engine.{
  IndexerEngine, report_expired, report_evictions, record_size_evictions, publish_matches,
  publish_match, retain_transaction,
}

module _ {Value : Type 0} where
  -- The configuration, the window and the matchers are the same.
  pub record SameSetup (e f : IndexerEngine Value) : Type 0 where
    pub config : f.config ≡ e.config
    pub recent : f.recent_txids ≡ e.recent_txids
    pub matchers : f.matchers ≡ e.matchers

  -- The transactions of the store are also the same.
  pub record SameState (e f : IndexerEngine Value) : Type 0 where
    pub setup : SameSetup e f
    pub store : f.store.tx ≡ e.store.tx

  pub SameSetup-refl : (e : IndexerEngine Value) → SameSetup e e
  SameSetup-refl e = record { config = refl; recent = refl; matchers = refl }

  pub SameSetup-trans :
      (e f g : IndexerEngine Value) → SameSetup e f → SameSetup f g → SameSetup e g
  SameSetup-trans e f g p q = record {
    config = q.config ∙ p.config;
    recent = q.recent ∙ p.recent;
    matchers = q.matchers ∙ p.matchers;
  }

  SameState-trans : (e f g : IndexerEngine Value) → SameState e f → SameState f g → SameState e g
  SameState-trans e f g p q = record {
    setup = SameSetup-trans e f g p.setup q.setup;
    store = q.store ∙ p.store;
  }

  pub report_expired-SameSetup :
      (ids : List Str) (e : IndexerEngine Value) → SameSetup e (report_expired ids e)
  unfolding report_expired
  report_expired-SameSetup [] e = SameSetup-refl e
  report_expired-SameSetup (id ∷ ids) e =
      let rest = report_expired-SameSetup ids _ in
      record { config = rest.config; recent = rest.recent; matchers = rest.matchers }

  pub report_expired-store :
      (ids : List Str) (e : IndexerEngine Value) → (report_expired ids e).store ≡ e.store
  unfolding report_expired
  report_expired-store [] e = refl
  report_expired-store (id ∷ ids) e = report_expired-store ids _

  report_evictions-SameState :
      (es : List StoreEviction) (e : IndexerEngine Value) → SameState e (report_evictions es e)
  unfolding report_evictions
  report_evictions-SameState [] e = record { setup = SameSetup-refl e; store = refl }
  report_evictions-SameState (x ∷ es) e =
      let rest = report_evictions-SameState es _ in
      record {
        setup = record {
          config = rest.setup.config;
          recent = rest.setup.recent;
          matchers = rest.setup.matchers;
        };
        store = rest.store;
      }

  pub record_size_evictions-SameState :
      (e : IndexerEngine Value) → SameState e (record_size_evictions e)
  unfolding record_size_evictions take_evictions
  record_size_evictions-SameState e =
      let rest =
        report_evictions-SameState (take_evictions e.store).0
          (record e { store = (take_evictions e.store).1 }) in
      record {
        setup = record {
          config = rest.setup.config;
          recent = rest.setup.recent;
          matchers = rest.setup.matchers;
        };
        store = rest.store;
      }

  publish_match-SameState :
      (item : IndexedMatch) (e : IndexerEngine Value) → SameState e (publish_match item e)
  unfolding publish_match
  publish_match-SameState item e = elim (Bool-cases (retains_matches e.config.mode)) [
    | inr h ↦
        rw h (record {
          setup = record { config = refl; recent = refl; matchers = refl };
          store = refl;
        })
    | inl h ↦ rw h (record {
      setup = record { config = refl; recent = refl; matchers = refl };
      store = insert_match-tx e.store item;
    })
  ]

  pub publish_matches-SameState :
      (items : List IndexedMatch) (e : IndexerEngine Value) → SameState e (publish_matches items e)
  unfolding publish_matches
  publish_matches-SameState [] e = record { setup = SameSetup-refl e; store = refl }
  publish_matches-SameState (item ∷ items) e =
      SameState-trans e (publish_match item e) (publish_matches items (publish_match item e))
        (publish_match-SameState item e) (publish_matches-SameState items (publish_match item e))

  pub retain_transaction-SameSetup :
      (tx : IndexedTransaction Value) (is_match : Bool) (e : IndexerEngine Value)
      → SameSetup e (retain_transaction tx is_match e)
  unfolding retain_transaction
  retain_transaction-SameSetup tx is_match e =
      elim (Bool-cases (retains_transaction e.config.mode is_match)) [
        | inr h ↦ rw h (SameSetup-refl e)
        | inl h ↦ elim (Bool-cases (insert_transaction e.store tx).0) [
          | inl i ↦ rw (h, i) (record { config = refl; recent = refl; matchers = refl })
          | inr i ↦ rw (h, i) (record { config = refl; recent = refl; matchers = refl })
        ]
      ]
