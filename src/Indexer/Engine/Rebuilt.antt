-- ===== src/Indexer/Engine/Rebuilt.antt =====
-- The window of recent ids after a restore.
use kaspa_portal.Base.{
  ℕ, ◌-◌, zero, suc, ◌≡◌, refl, sym, ap, subst, ◌∙◌, inl, inr, false, List, [], ◌∷◌, ◌++◌, map,
  drop, length, append_assoc, append-nil, arith,
}
use kaspa_portal.Base.Dict.Aligned.{contains, contains-append, or_left, or_right, Unique, beq_false}
use kaspa_portal.Base.Equality.{Str, same_str, str_eq}
use kaspa_portal.Base.Outcome.{ok, err, Result-cases}
use kaspa_portal.Base.Window.{last_of, last_of_short}
use kaspa_portal.Indexer.Dedupe
use kaspa_portal.Indexer.Dedupe.{RecentKeys, observe}
use kaspa_portal.Indexer.Dedupe.Window.{IsWindow, observe_new, observe-IsWindow, observe-capacity}
use kaspa_portal.Indexer.Event.{IndexedTransaction}
use kaspa_portal.Indexer.Store.{MemoryStore, transactions}
use kaspa_portal.Indexer.Store.Layout.{tx_name, WellFormed}
use kaspa_portal.Indexer.Store.Removed.{names_lem}
use kaspa_portal.Indexer.Store.Restored.{restore-WellFormed}
use kaspa_portal.Indexer.Store.Table.{in_order-Table}
use kaspa_portal.Indexer.Engine.{IndexerEngine}
use kaspa_portal.Indexer.Engine.Invariant.{Consistent}
use kaspa_portal.Indexer.Engine.Persist.{
  PersistedIndexerState, observe_all, rebuild_recent_txids, rebuild_runtime_state, restore_state,
  validate_state, next_matcher_id, collect, with_restored,
}
use kaspa_portal.Indexer.Engine.Preserved.{FitsMatches, FitsWindow, clear-FitsWindow}
use kaspa_portal.Indexer.Engine.Stream.{pushed-history}

contains-drop :
    (k : Str) (n : ℕ) (xs : List Str) → contains k xs ≡ false → contains k (drop n xs) ≡ false
unfolding contains
contains-drop k zero xs h = h
contains-drop k (suc n) [] h = h
contains-drop k (suc n) (x ∷ xs) h =
    contains-drop k n xs (or_right (same_str k x) (contains k xs) h)

not_in_last :
    (k : Str) (c : ℕ) (xs : List Str) → contains k xs ≡ false → contains k (last_of c xs) ≡ false
unfolding last_of
not_in_last k c xs h = contains-drop k (length xs - c) xs h

-- A key between others is none of those in front.
absent_in_front :
    (k : Str) (before after : List Str) → Unique (before ++ (k ∷ after)) → contains k before ≡ false
unfolding Unique contains
absent_in_front k [] after u = refl
absent_in_front k (x ∷ before) after (fresh, u) =
    let rest = absent_in_front k before after u in
    let apart : same_str x k ≡ false =
      or_left (same_str x k) (contains x after)
        (or_right (contains x before) _ (sym (contains-append x before (k ∷ after)) ∙ fresh)) in
    rw (beq_false x k apart) rest

module _ {Value : Type 0} where
  ids_of : List (IndexedTransaction Value) → List Str
  ids_of txs = map tx_name txs

  observe_all_lem :
      (c : ℕ) (txs : List (IndexedTransaction Value)) (r : RecentKeys) (history : List Str)
      → IsWindow r
      → r.capacity ≡ c
      → r.order ≡ last_of c history
      → Unique (history ++ ids_of txs)
      → (observe_all txs r).order ≡ last_of c (history ++ ids_of txs)
  unfolding observe_all ids_of
  observe_all_lem c [] r history w cap e u = e ∙ ap (last_of c) (sym (append-nil history))
  observe_all_lem c (tx ∷ txs) r history w cap e u =
      let unseen : contains tx.txid r.set ≡ false =
        ap (contains tx.txid) (w.members ∙ e)
        ∙ not_in_last tx.txid c history (absent_in_front tx.txid history (ids_of txs) u) in
      let moved = append_assoc history (tx.txid ∷ []) (ids_of txs) in
      observe_all_lem c txs (observe r tx.txid).1 (history ++ (tx.txid ∷ []))
        (observe-IsWindow r tx.txid w) (observe-capacity r tx.txid ∙ cap)
        (ap (λ o. o.1.order) (observe_new r tx.txid w unseen)
          ∙ pushed-history r tx.txid history c cap e)
        (subst Unique (sym moved) u)
      ∙ ap (last_of c) moved

  ids_lem :
      (store : MemoryStore Value) → WellFormed store → ids_of (transactions store) ≡ store.tx_order
  unfolding transactions ids_of
  ids_lem store w =
      ap (map tx_name) (in_order-Table tx_name store.tx store.tx_order w.tx_table)
      ∙ names_lem store.tx w.tx_table.named
      ∙ w.tx_table.listed

  -- The window holds the ids of the last transactions of the store, in its order.
  pub record RemembersLast (c : ℕ) (engine : IndexerEngine Value) : Type 0 where
    pub order :
        engine.recent_txids.order ≡ last_of c (map (λ tx. tx.txid) (transactions engine.store))
    pub members : engine.recent_txids.set ≡ engine.recent_txids.order

  observe_all-IsWindow :
      (txs : List (IndexedTransaction Value)) (r : RecentKeys)
      → IsWindow r
      → IsWindow (observe_all txs r)
  unfolding observe_all
  observe_all-IsWindow [] r w = w
  observe_all-IsWindow (tx ∷ txs) r w =
      observe_all-IsWindow txs (observe r tx.txid).1 (observe-IsWindow r tx.txid w)

  rebuild_recent_txids-RemembersLast :
      (c : ℕ) (engine : IndexerEngine Value)
      → WellFormed engine.store
      → FitsWindow c engine.recent_txids
      → RemembersLast c (rebuild_recent_txids engine)
  unfolding rebuild_recent_txids ids_of Dedupe.clear
  rebuild_recent_txids-RemembersLast c engine stored fits =
      let (w, cap) = clear-FitsWindow c engine.recent_txids fits in
      record {
        order =
            observe_all_lem c (transactions engine.store) (Dedupe.clear engine.recent_txids) [] w
              cap (sym (last_of_short {A = Str} c [] (omega arith)))
              (subst Unique (sym (ids_lem engine.store stored)) stored.tx_table.once);
        members =
            (observe_all-IsWindow (transactions engine.store) (Dedupe.clear engine.recent_txids)
              w).members;
      }

  -- After a restore of a consistent engine that succeeds, from a state whose matches are of transactions that
  -- are restored, the window of recent ids holds those of the last transactions of the store, as many as the
  -- configured ones and in the order of the store.
  pub restore_state-RemembersLast :
      (state : PersistedIndexerState Value) (engine : IndexerEngine Value)
      → Consistent engine
      → FitsMatches engine.config state.snapshot
      → (restore_state state engine).0 ≡ ok tt
      → RemembersLast engine.config.dedupe_window (restore_state state engine).1
  unfolding restore_state rebuild_runtime_state
  restore_state-RemembersLast state engine c l success =
      let (stored, _) = restore-WellFormed engine.config state.snapshot l in
      elim (Result-cases (validate_state engine.config state)) [
        | inr (error, h) ↦
            let failed : (restore_state state engine).0 ≡ err error = rw (restore_state, h) refl in
            cc
        | inl (_, h) ↦ elim (Result-cases (next_matcher_id (collect [] state.matchers))) [
          | inr (error, n) ↦
              let failed : (restore_state state engine).0 ≡ err error =
                rw (restore_state, h, n) refl in
              cc
          | inl (next, n) ↦
              let r =
                rebuild_recent_txids-RemembersLast engine.config.dedupe_window
                  (record (with_restored state engine) {
                    next_matcher_id = next;
                    checkpoint = state.checkpoint;
                  })
                  stored (c.window, c.capacity) in
              rw (restore_state, h, n) (record { order = r.order; members = r.members })
        ]
      ]
