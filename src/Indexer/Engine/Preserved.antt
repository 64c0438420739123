-- ===== src/Indexer/Engine/Preserved.antt =====
-- The other methods of the engine, and the runs of all of them.
use kaspa_portal.Base.{ℕ, ◌≡◌, refl, sym, subst, ◌∙◌, inl, inr, List, [], ◌∷◌, arith}
use kaspa_portal.Base.Dict.{keys}
use kaspa_portal.Base.Dict.Aligned.{Unique}
use kaspa_portal.Base.Equality.{str_eq, nat_eq}
use kaspa_portal.Base.Outcome.{ok, Result-cases, bind-eq-ok}
use kaspa_portal.Indexer.Action.{Keeps}
use kaspa_portal.Indexer.Config
use kaspa_portal.Indexer.Config.{IndexerConfig, IndexerError}
use kaspa_portal.Indexer.Config.Validate.{validate_iff}
use kaspa_portal.Indexer.Dedupe.{RecentKeys, observe}
use kaspa_portal.Indexer.Dedupe
use kaspa_portal.Indexer.Dedupe.Window.{IsWindow, new-IsWindow, observe-IsWindow, observe-capacity}
use kaspa_portal.Indexer.Event.{IndexedTransaction, IndexerSnapshot, SyncCheckpoint}
use kaspa_portal.Indexer.Matcher.{MatchRule}
use kaspa_portal.Indexer.Store
use kaspa_portal.Indexer.Store.{MemoryStore, transactions, restore, remove_chain_blocks}
use kaspa_portal.Indexer.Store.Layout.{Linked}
use kaspa_portal.Indexer.Store.Preserved.{new-WellFormed, clear-WellFormed}
use kaspa_portal.Indexer.Store.Restored.{restore-WellFormed}
use kaspa_portal.Indexer.Engine
use kaspa_portal.Indexer.Engine.{
  IndexerEngine, created, add_matcher, remove_matcher, check_new_matcher, ingest_transaction,
  ingest_block, clear,
}
use kaspa_portal.Indexer.Engine.Invariant.{Consistent, with_store}
use kaspa_portal.Indexer.Engine.Numbered.{Numbered-insert, Numbered-remove}
use kaspa_portal.Indexer.Engine.Persist.{
  set_checkpoint, validate_checkpoint, rebuild_recent_txids, rebuild_runtime_state, observe_all,
  restore_snapshot, validate_snapshot,
}

-- A window of the configured size.
abbrev pub FitsWindow : ℕ → RecentKeys → Type 0
FitsWindow capacity recent = IsWindow recent × (recent.capacity ≡ capacity)

pub clear-FitsWindow :
    (capacity : ℕ) (recent : RecentKeys)
    → FitsWindow capacity recent
    → FitsWindow capacity (Dedupe.clear recent)
unfolding Dedupe.clear Unique
clear-FitsWindow capacity recent (w, e) =
    (record { members = refl; once = tt; bound = omega arith }, e)

module _ {Value : Type 0} where
  pub new-Consistent :
      (config : IndexerConfig) (engine : IndexerEngine Value)
      → Engine.new config ≡ ok engine
      → Consistent engine
  unfolding Engine.new created Unique keys Dedupe.new Store.new
  new-Consistent config engine h =
      let (_, made, valid) = bind-eq-ok (Config.validate config) _ h in
      let same : created config ≡ engine = cc (made) in
      subst Consistent same (record {
        stored = new-WellFormed config;
        configured = refl;
        valid = (validate_iff config).0 valid;
        window = new-IsWindow config.dedupe_window;
        capacity = refl;
        numbered = record {
          below = tt;
          once = tt;
          few = omega arith;
          next_fits = (omega arith, omega arith);
        };
      })

  pub add_matcher-Consistent :
      (rule : MatchRule) → Keeps {S = IndexerEngine Value} Consistent (add_matcher rule)
  unfolding add_matcher
  add_matcher-Consistent rule engine c =
      elim (Result-cases (check_new_matcher rule engine.matchers engine.next_matcher_id)) [
        | inr (error, h) ↦ rw (add_matcher, h) c
        | inl (next, h) ↦
            rw (add_matcher, h)
              (record {
                stored = c.stored;
                configured = c.configured;
                valid = c.valid;
                window = c.window;
                capacity = c.capacity;
                numbered =
                    Numbered-insert rule engine.matchers engine.next_matcher_id next c.numbered h;
              })
      ]

  pub remove_matcher-Consistent :
      (id : ℕ) (engine : IndexerEngine Value)
      → Consistent engine
      → Consistent (remove_matcher id engine).1
  unfolding remove_matcher
  remove_matcher-Consistent id engine c = record {
    stored = c.stored;
    configured = c.configured;
    valid = c.valid;
    window = c.window;
    capacity = c.capacity;
    numbered = Numbered-remove id engine.matchers engine.next_matcher_id c.numbered;
  }

  pub set_checkpoint-Consistent :
      (point : SyncCheckpoint) → Keeps {S = IndexerEngine Value} Consistent (set_checkpoint point)
  unfolding set_checkpoint
  set_checkpoint-Consistent point engine c = elim (Result-cases (validate_checkpoint point)) [
    | inr (error, h) ↦ rw (set_checkpoint, h) c
    | inl (_, h) ↦ rw (set_checkpoint, h) c
  ]

  observe_all-FitsWindow :
      (capacity : ℕ) (txs : List (IndexedTransaction Value)) (recent : RecentKeys)
      → FitsWindow capacity recent
      → FitsWindow capacity (observe_all txs recent)
  unfolding observe_all
  observe_all-FitsWindow capacity [] recent f = f
  observe_all-FitsWindow capacity (tx ∷ txs) recent (w, e) =
      observe_all-FitsWindow capacity txs (observe recent tx.txid).1
        (observe-IsWindow recent tx.txid w, observe-capacity recent tx.txid ∙ e)

  pub rebuild_recent_txids-Consistent :
      (engine : IndexerEngine Value) → Consistent engine → Consistent (rebuild_recent_txids engine)
  unfolding rebuild_recent_txids
  rebuild_recent_txids-Consistent engine c =
      let (window, capacity) =
        observe_all-FitsWindow engine.config.dedupe_window (transactions engine.store)
          (Dedupe.clear engine.recent_txids)
          (clear-FitsWindow engine.config.dedupe_window engine.recent_txids
            (c.window, c.capacity)) in
      record {
        stored = c.stored;
        configured = c.configured;
        valid = c.valid;
        window = window;
        capacity = capacity;
        numbered = c.numbered;
      }

  -- The matches of a snapshot are of transactions that a restored store keeps.
  abbrev pub FitsMatches : IndexerConfig → IndexerSnapshot Value → Type 0
  FitsMatches config state = Linked (restore config state).tx_order state.matches

  pub restore_snapshot-Consistent :
      (state : IndexerSnapshot Value) (engine : IndexerEngine Value)
      → FitsMatches engine.config state
      → Consistent engine
      → Consistent (restore_snapshot state engine).1
  unfolding restore_snapshot rebuild_runtime_state rebuild_recent_txids
  restore_snapshot-Consistent state engine l c =
      let (w, e) = restore-WellFormed engine.config state l in
      elim (Result-cases (validate_snapshot engine.config state)) [
        | inr (error, h) ↦ rw (restore_snapshot, h) c
        | inl (_, h) ↦
            rw (restore_snapshot, h)
              (rebuild_recent_txids-Consistent
                (record engine { store = restore engine.config state })
                (with_store engine (restore engine.config state) c (w, e ∙ sym c.configured)))
      ]

  pub clear-Consistent :
      (engine : IndexerEngine Value) → Consistent engine → Consistent (clear engine)
  unfolding clear Store.clear
  clear-Consistent engine c =
      let (window, capacity) =
        clear-FitsWindow engine.config.dedupe_window engine.recent_txids (c.window, c.capacity) in
      record {
        stored = clear-WellFormed engine.store;
        configured = c.configured;
        valid = c.valid;
        window = window;
        capacity = capacity;
        numbered = c.numbered;
      }
