-- ===== src/Indexer/Engine/Saved.antt =====
-- The state that an engine saves, restored into another one.
use kaspa_portal.Base.{
  some, ℕ, ◌+◌, ◌≤◌, ◌<◌, ◌≡◌, refl, sym, ap, ◌∙◌, List, [], ◌∷◌, leb, arith, All,
}
use kaspa_portal.Base.Checked.{u64_mod, checked_add}
use kaspa_portal.Base.Dict.{insert, keys, values}
use kaspa_portal.Base.Dict.Aligned.{All-insert}
use kaspa_portal.Base.Equality.{nat_eq}
use kaspa_portal.Base.Outcome.{ok}
use kaspa_portal.Base.Sort.{sort_by, All-sort_by}
use kaspa_portal.Indexer.Matcher.{Matcher}
use kaspa_portal.Indexer.Store.{restore, snapshot}
use kaspa_portal.Indexer.Store.Restore.{restore-snapshot}
use kaspa_portal.Indexer.Engine.{IndexerEngine}
use kaspa_portal.Indexer.Engine.Invariant.{Consistent}
use kaspa_portal.Indexer.Engine.Persist.{
  persisted_state, restore_state, validate_state, next_matcher_id, max_id, collect,
  rebuild_runtime_state, rebuild_recent_txids,
}

values_below :
    (d : List (ℕ × Matcher)) (next : ℕ)
    → All (λ (entry : ℕ × Matcher). (entry.1.id ≡ entry.0) × (1 ≤ entry.0) × (entry.0 < next)) d
    → All (λ m. m.id < next) (values d)
unfolding values
values_below [] next h = tt
values_below ((j, m) ∷ d) next ((e, _, b), h) = (rw e b, values_below d next h)

collect_below :
    (ms : List Matcher) (d : List (ℕ × Matcher)) (next : ℕ)
    → All (λ m. m.id < next) ms
    → All (λ (entry : ℕ × Matcher). entry.0 < next) d
    → All (λ (entry : ℕ × Matcher). entry.0 < next) (collect d ms)
unfolding collect
collect_below [] d next h b = b
collect_below (m ∷ ms) d next (hm, h) b =
    collect_below ms (insert m.id m d) next h
      (All-insert (λ (entry : ℕ × Matcher). entry.0 < next) m.id m d hm b)

max_below :
    (d : List (ℕ × Matcher)) (next : ℕ)
    → 1 ≤ next
    → All (λ (entry : ℕ × Matcher). entry.0 < next) d
    → max_id (keys d) < next
unfolding max_id keys
max_below [] next one h = omega arith
max_below ((j, m) ∷ d) next one (b, h) = omega (arith, max_below d next one h)

next_fits : (n : ℕ) → n + 1 < u64_mod → checked_add n 1 ≡ some (n + 1)
next_fits n h = ground arith

module _ {Value : Type 0} (e g : IndexerEngine Value) (c : Consistent e)
    (same : g.config ≡ e.config) where
  -- the matchers that are restored
  abbrev restored_matchers : List (ℕ × Matcher)
  restored_matchers = collect [] (persisted_state e).matchers

  restored_below : max_id (keys restored_matchers) < e.next_matcher_id
  unfolding persisted_state
  restored_below = max_below restored_matchers e.next_matcher_id c.numbered.next_fits.0 (
      collect_below (sort_by (λ a b. leb a.id b.id) (values e.matchers)) [] e.next_matcher_id
        (All-sort_by (λ a b. leb a.id b.id) (λ m. m.id < e.next_matcher_id) (values e.matchers)
          (values_below e.matchers e.next_matcher_id c.numbered.below))
        tt)

  next_id_ok : next_matcher_id restored_matchers ≡ ok (max_id (keys restored_matchers) + 1)
  unfolding next_matcher_id
  next_id_ok =
      rw
        (next_fits (max_id (keys restored_matchers))
          (omega (arith, restored_below, c.numbered.next_fits.1)))
        refl

  -- The state that a consistent engine saves, if it passes the checks of a restore, is restored into
  -- any engine of the same configuration with success: with the store of the engine that was saved,
  -- less the evictions that wait to be taken, and with its checkpoint.
  pub restore_state-persisted_state :
      validate_state g.config (persisted_state e) ≡ ok tt
      → ((restore_state (persisted_state e) g).0 ≡ ok tt)
        × ((restore_state (persisted_state e) g).1.store
            ≡ record e.store { pending_evictions = [] })
        × ((restore_state (persisted_state e) g).1.checkpoint ≡ e.checkpoint)
  unfolding restore_state persisted_state rebuild_runtime_state rebuild_recent_txids
  restore_state-persisted_state valid =
      rw (restore_state, valid, next_id_ok)
        (
          refl,
          ap (λ k. restore k (snapshot e.store)) (same ∙ sym c.configured)
              ∙ restore-snapshot e.store c.stored,
          refl,
        )
