-- ===== src/Indexer/Engine/Numbered.antt =====
-- The matchers of an engine keep their ids: those that are added, removed and restored.
use kaspa_portal.Base.{
  All_map, ℕ, suc, ◌+◌, ◌≤◌, ◌<◌, ◌≡◌, refl, not, ◌||◌, ◌==◌, List, [], ◌∷◌, length, arith, leb,
  ltb, leb→le, All,
}
use kaspa_portal.Base.Checked.{u64_mod, checked_add}
use kaspa_portal.Base.Computes.{ensure_sound, ok_or_sound}
use kaspa_portal.Base.Dict.{insert, remove, keys}
use kaspa_portal.Base.Dict.Aligned.{
  Unique, contains, All-insert, Unique-insert, length-insert, All-remove, Unique-remove,
  length-remove,
}
use kaspa_portal.Base.Equality.{nat_eq}
use kaspa_portal.Base.Outcome.{ok, ensure, bind-eq-ok}
use kaspa_portal.Indexer.Config.{
  matcher_limit, matcher_id_exhausted, too_many_matchers, bad_matcher_ids,
}
use kaspa_portal.Indexer.Matcher
use kaspa_portal.Indexer.Matcher.{Matcher, MatchRule}
use kaspa_portal.Indexer.Engine.{check_new_matcher}
use kaspa_portal.Indexer.Engine.Persist.{
  validate_matchers, validate_matchers_from, next_matcher_id, max_id, collect,
}
use kaspa_portal.Indexer.Engine.Invariant.{Numbered}

abbrev IsNumbered : ℕ → ℕ × Matcher → Type 0
IsNumbered next entry = (entry.1.id ≡ entry.0) × (1 ≤ entry.0) × (entry.0 < next)

-- The id of a new matcher is the next one, below the bound of 64 bits.
check_sound :
    (rule : MatchRule) (matchers : List (ℕ × Matcher)) (id next : ℕ)
    → check_new_matcher rule matchers id ≡ ok next
    → (length matchers < 4096) × (next ≡ suc id) × (next < u64_mod)
unfolding check_new_matcher
check_sound rule matchers id next h =
    let (_, h1, _) = bind-eq-ok (Matcher.validate rule) _ h in
    let (_, h2, few) = bind-eq-ok (ensure (ltb (length matchers) 4096) matcher_limit) _ h1 in
    let room = ensure_sound (ltb (length matchers) 4096) matcher_limit tt few in
    let fits = ok_or_sound (checked_add id 1) matcher_id_exhausted next h2 in ground arith

pub Numbered-insert :
    (rule : MatchRule) (matchers : List (ℕ × Matcher)) (id next : ℕ)
    → Numbered matchers id
    → check_new_matcher rule matchers id ≡ ok next
    → Numbered (insert id (record { id = id; rule = rule }) matchers) next
Numbered-insert rule matchers id next n h =
    let (few, one, fits) = check_sound rule matchers id next h in
    record {
      below =
          All-insert (IsNumbered next) id _ matchers (refl, n.next_fits.0, omega arith)
            (All_map (IsNumbered id) (IsNumbered next) matchers (λ entry b. (b.0, b.1, omega arith))
              n.below);
      once = Unique-insert id _ matchers n.once;
      few = omega (arith, length-insert id (record { id = id; rule = rule }) matchers);
      next_fits = (omega arith, fits);
    }

pub Numbered-remove :
    (id : ℕ) (matchers : List (ℕ × Matcher)) (next : ℕ)
    → Numbered matchers next
    → Numbered (remove id matchers) next
Numbered-remove id matchers next n = record {
  below = All-remove (IsNumbered next) id matchers n.below;
  once = Unique-remove id matchers n.once;
  few = omega (arith, n.few, length-remove id matchers);
  next_fits = n.next_fits;
}

abbrev IsOwn : ℕ × Matcher → Type 0
IsOwn entry = (entry.1.id ≡ entry.0) × (1 ≤ entry.0)

-- Checked matchers have ids of at least one.
validate_matchers_from_sound :
    (ids : List ℕ) (ms : List Matcher)
    → validate_matchers_from ids ms ≡ ok tt
    → All (λ m. 1 ≤ m.id) ms
unfolding validate_matchers_from
validate_matchers_from_sound ids [] h = tt
validate_matchers_from_sound ids (m ∷ ms) h =
    let (_, h1, _) = bind-eq-ok (Matcher.validate m.rule) _ h in
    let (_, h2, e) =
      bind-eq-ok (ensure (not (m.id == 0 || contains m.id ids)) bad_matcher_ids) _ h1 in
    let b = ensure_sound (not (m.id == 0 || contains m.id ids)) bad_matcher_ids tt e in
    (ground arith, validate_matchers_from_sound (m.id ∷ ids) ms h2)

-- What `collect` puts into a map.
collect_lem :
    (ms : List Matcher) (d : List (ℕ × Matcher))
    → All (λ m. 1 ≤ m.id) ms
    → All IsOwn d
    → Unique (keys d)
    → All IsOwn (collect d ms)
      × Unique (keys (collect d ms))
      × (length (collect d ms) ≤ length d + length ms)
unfolding collect
collect_lem [] d p own once = (own, once, omega arith)
collect_lem (m ∷ ms) d (p, ps) own once =
    let (a, b, c) =
      collect_lem ms (insert m.id m d) ps (All-insert IsOwn m.id m d (refl, p) own)
        (Unique-insert m.id m d once) in
    (a, b, omega (arith, c, length-insert m.id m d))

below_max :
    (d : List (ℕ × Matcher)) (k : ℕ)
    → max_id (keys d) ≤ k
    → All IsOwn d
    → All (IsNumbered (suc k)) d
unfolding max_id keys
below_max [] k h own = tt
below_max ((j, m) ∷ d) k h ((same, one), own) =
    ((same, one, omega arith), below_max d k (omega arith) own)

-- Restored matchers have the ids that they are stored under, below the next one.
pub Numbered-collect :
    (ms : List Matcher) (next : ℕ)
    → validate_matchers ms ≡ ok tt
    → next_matcher_id (collect [] ms) ≡ ok next
    → Numbered (collect [] ms) next
unfolding validate_matchers next_matcher_id keys Unique
Numbered-collect ms next checked h =
    let (_, each, few) = bind-eq-ok (ensure (leb (length ms) 4096) too_many_matchers) _ checked in
    let bound = ensure_sound (leb (length ms) 4096) too_many_matchers tt few in
    let (own, once, size) = collect_lem ms [] (validate_matchers_from_sound [] ms each) tt tt in
    let fits =
      ok_or_sound (checked_add (max_id (keys (collect [] ms))) 1) matcher_id_exhausted next h in
    let same : (next ≡ suc (max_id (keys (collect [] ms)))) × (next < u64_mod) = ground arith in
    record {
      below =
          rw same.0 (below_max (collect [] ms) (max_id (keys (collect [] ms))) (omega arith) own);
      once = once;
      few = omega (arith, size, leb→le (length ms) 4096 bound);
      next_fits = (omega arith, same.1);
    }
