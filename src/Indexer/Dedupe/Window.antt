-- ===== src/Indexer/Dedupe/Window.antt =====
-- The window against its specification: the last keys of the history of all that were accepted.
use kaspa_portal.Base.{
  ℕ, suc, ◌≤◌, ◌≡◌, refl, sym, ap, ◌∙◌, inl, inr, Bool, true, false, not, List, [], ◌∷◌, ◌++◌,
  length, ltb, lt→ltb, if◌then◌else◌, Bool-cases, le_or_lt, arith,
}
use kaspa_portal.Base.Dict.{retain}
use kaspa_portal.Base.Dict.Aligned.{contains, Unique, Unique-snoc}
use kaspa_portal.Base.Window.{last_of, last_of_long, last_of_short, last_of-append, length-last_of}
use kaspa_portal.Base.Equality.{Str, same_str, same_str_iff, str_eq}
use kaspa_portal.Indexer.Dedupe.{RecentKeys, new, trim_on, trim, observe}

-- Nothing else of a list is the key that its head is.
retain_fresh :
    (k : Str) (xs : List Str) → contains k xs ≡ false → retain (λ x. not (same_str k x)) xs ≡ xs
unfolding contains retain
retain_fresh k [] h = refl
retain_fresh k (x ∷ xs) h = ground (arith, retain_fresh k xs)

pub record IsWindow (r : RecentKeys) : Type 0 where
  pub members : r.set ≡ r.order
  pub once : Unique r.order
  pub bound : length r.order ≤ r.capacity

pub new-IsWindow : (c : ℕ) → IsWindow (new c)
unfolding new Unique
new-IsWindow c = record { members = refl; once = tt; bound = omega arith }

not_over : (a b : ℕ) → b ≤ a → ltb a b ≡ false
not_over a b h = ground arith

-- The loop drops from the front of both until the capacity is met.
trim_on_lem :
    (c : ℕ) (order : List Str)
    → Unique order
    → trim_on c order order ≡ (last_of c order, last_of c order)
unfolding trim_on Unique retain last_of
trim_on_lem c [] u = rw (last_of_short {A = Str} c [] (omega arith)) refl
trim_on_lem c (x ∷ xs) (fresh, u) = elim (le_or_lt c (length xs)) [
  | inl h ↦
      rw
        (
          lt→ltb c (suc (length xs)) (omega arith),
          (same_str_iff x x).1 refl,
          retain_fresh x xs fresh,
          last_of_long c x xs h,
        )
        (trim_on_lem c xs u)
  | inr h ↦
      rw (not_over c (suc (length xs)) (omega arith), last_of_short c (x ∷ xs) (omega arith)) refl
]

Unique-last_of : (c : ℕ) (xs : List Str) → Unique xs → Unique (last_of c xs)
unfolding Unique
Unique-last_of c [] u = rw (last_of_short {A = Str} c [] (omega arith)) tt
Unique-last_of c (x ∷ xs) (fresh, u) = elim (le_or_lt c (length xs)) [
  | inl h ↦ rw (last_of_long c x xs h) (Unique-last_of c xs u)
  | inr h ↦ rw (last_of_short c (x ∷ xs) (omega arith)) (fresh, u)
]

-- Each key is new to the window or not.
pub observe_old :
    (r : RecentKeys) (key : Str) → contains key r.set ≡ true → observe r key ≡ (false, r)
unfolding observe
observe_old r key h = rw h refl

-- the window with a new key
abbrev pub pushed : RecentKeys → Str → RecentKeys
pushed r key = record r {
  set = last_of r.capacity (r.order ++ (key ∷ []));
  order = last_of r.capacity (r.order ++ (key ∷ []));
}

not_in_order :
    (r : RecentKeys) (key : Str)
    → IsWindow r
    → contains key r.set ≡ false
    → contains key r.order ≡ false
not_in_order r key w h = sym (ap (contains key) w.members) ∙ h

pub observe_new :
    (r : RecentKeys) (key : Str)
    → IsWindow r
    → contains key r.set ≡ false
    → observe r key ≡ (true, pushed r key)
unfolding observe trim
observe_new r key w h =
    rw
      (
        h,
        w.members,
        trim_on_lem r.capacity (r.order ++ (key ∷ []))
            (Unique-snoc key r.order (not_in_order r key w h) w.once),
      )
      refl

pushed-IsWindow :
    (r : RecentKeys) (key : Str) → IsWindow r → contains key r.set ≡ false → IsWindow (pushed r key)
pushed-IsWindow r key w h = record {
  members = refl;
  once =
      Unique-last_of r.capacity (r.order ++ (key ∷ []))
        (Unique-snoc key r.order (not_in_order r key w h) w.once);
  bound = length-last_of r.capacity (r.order ++ (key ∷ []));
}

pub observe-IsWindow : (r : RecentKeys) (key : Str) → IsWindow r → IsWindow (observe r key).1
observe-IsWindow r key w = elim (Bool-cases (contains key r.set)) [
  | inl h ↦ rw (observe_old r key h) w
  | inr h ↦ rw (observe_new r key w h) (pushed-IsWindow r key w h)
]

pub observe-capacity : (r : RecentKeys) (key : Str) → (observe r key).1.capacity ≡ r.capacity
unfolding observe trim
observe-capacity r key = ground arith

-- a stream of keys: which of them are observed as new
pub feed : RecentKeys → List Str → List Bool × RecentKeys
feed r [] = ([], r)
feed r (key ∷ keys) =
    let (fresh, r') = observe r key in let (flags, r'') = feed r' keys in (fresh ∷ flags, r'')

-- The specification: a key is new if it is none of the last keys that were.
pub stream : ℕ → List Str → List Str → List Bool
stream c history [] = []
stream c history (key ∷ keys) =
    if contains key (last_of c history)
    then false ∷ stream c history keys
    else true ∷ stream c (history ++ (key ∷ [])) keys

feed-stream :
    (keys : List Str) (r : RecentKeys) (history : List Str)
    → IsWindow r
    → r.order ≡ last_of r.capacity history
    → (feed r keys).0 ≡ stream r.capacity history keys
unfolding feed stream
feed-stream [] r history w e = refl
feed-stream (key ∷ keys) r history w e = elim (Bool-cases (contains key r.set)) [
  | inl h ↦
      rw (observe_old r key h, in_history ∙ h)
        (ap (λ l. false ∷ l) (feed-stream keys r history w e))
  | inr h ↦
      rw (observe_new r key w h, in_history ∙ h)
        (ap (λ l. true ∷ l)
          (feed-stream keys (pushed r key) (history ++ (key ∷ [])) (pushed-IsWindow r key w h) (
            ap (λ l. last_of r.capacity (l ++ (key ∷ []))) e
            ∙ last_of-append r.capacity history key)))
]
  where
    in_history : contains key (last_of r.capacity history) ≡ contains key r.set
    in_history = sym (ap (contains key) (w.members ∙ e))

-- Over any stream of keys, the window of recent keys observes as new exactly the keys that are none of the
-- last ones it observed as new, as many as its capacity.
pub feed-new_refines :
    (capacity : ℕ) (keys : List Str) → (feed (new capacity) keys).0 ≡ stream capacity [] keys
unfolding new
feed-new_refines capacity keys =
    feed-stream keys (new capacity) [] (new-IsWindow capacity)
      (sym (last_of_short {A = Str} capacity [] (omega arith)))
