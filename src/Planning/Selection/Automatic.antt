-- ===== src/Planning/Selection/Automatic.antt =====
-- The automatic selection: what it returns, when it succeeds, and that no choice with fewer entries covers
-- the amount.
use kaspa_portal.Base.{
  ℕ, zero, suc, ◌+◌, ◌≤◌, ◌<◌, ◌≡◌, refl, ap, sym, ◌∙◌, ◌⊎◌, inl, inr, Bool, true, false, List, [],
  ◌∷◌, ◌++◌, append_assoc, length, length-append, take, leb, ltb, leb→le, lt→ltb, Bool-cases, arith,
  if◌then◌else◌,
}
use kaspa_portal.Base.Checked.{u64_mod, checked_add}
use kaspa_portal.Base.Computes.{Computes, Gives-checked_add, Computes-ok_or}
use kaspa_portal.Base.Outcome.{Result, ok, err, ◌>>=◌, ok_or, ensure, bind-eq-ok}
use kaspa_portal.Planning.Errors.{PlanError, utxo_total}
use kaspa_portal.Planning.Selection.{
  UtxoEntry, sort_largest_first, checked_total, select_from, select_automatic_with_limit,
}
use kaspa_portal.Planning.Selection.Sorted.{worth, Choice, worth-sort_largest_first}

worth-append : (us vs : List UtxoEntry) → worth (us ++ vs) ≡ worth us + worth vs
unfolding worth
worth-append [] vs = omega arith
worth-append (u ∷ us) vs = omega (arith, worth-append us vs)

-- The front of a list that covers the amount with its last entry and not before.
pub record Covers (required : ℕ) (selected all : List UtxoEntry) : Type 0 where
  pub before : List UtxoEntry
  pub last : UtxoEntry
  pub rest : List UtxoEntry
  pub parts : selected ≡ before ++ (last ∷ [])
  pub front : all ≡ selected ++ rest
  pub enough : required ≤ worth selected
  pub short : (before ≡ []) ⊎ (worth before < required)

added :
    (total amount : ℕ)
    → Computes
        (ok_or (checked_add total amount) utxo_total)
        (total + amount)
        (total + amount < u64_mod)
added total amount = Computes-ok_or utxo_total (Gives-checked_add total amount)

never_ok :
    {A B : Type 0} (r : Result PlanError A) (e : PlanError) (b : B) → (r >>= λ _. err e) ≡ ok b → ⊥
never_ok (ok a) e b h = cc
never_ok (err f) e b h = cc

ok_same : {A : Type 0} (r : Result PlanError A) (a b : A) → r ≡ ok a → r ≡ ok b → b ≡ a
ok_same r a b h k = cc

worth_last : (us : List UtxoEntry) (u : UtxoEntry) → worth (us ++ (u ∷ [])) ≡ worth us + u.amount
unfolding worth
worth_last [] u = omega arith
worth_last (v ∷ us) u = omega (arith, worth_last us u)

test_true : {A : Type 0} (b : Bool) (x y : A) → b ≡ true → (if b then x else y) ≡ x
test_true b x y e = rw e refl

test_false : {A : Type 0} (b : Bool) (x y : A) → b ≡ false → (if b then x else y) ≡ y
test_false b x y e = rw e refl

not_enough : (a b : ℕ) → leb a b ≡ false → b < a
not_enough a b h = ground arith

module _ (required : ℕ) where
  select_from-Covers :
      (us before selected : List UtxoEntry)
      → (before ≡ []) ⊎ (worth before < required)
      → select_from required us before (worth before) ≡ ok selected
      → Covers required selected (before ++ us)
  unfolding select_from
  select_from-Covers [] before selected short h =
      elim (never_ok (checked_total before) _ selected h) [ ]
  select_from-Covers (u ∷ us) before selected short h =
      let (t, rest, et) = bind-eq-ok (ok_or (checked_add (worth before) u.amount) utxo_total) _ h in
      let next = before ++ (u ∷ []) in
      let total : t ≡ worth next =
        ((added (worth before) u.amount).sound t et).1 ∙ sym (worth_last before u) in
      elim (Bool-cases (leb required t)) [
        | inl e ↦
            let same : selected ≡ next =
              ok_same _ next selected (test_true (leb required t) _ _ e) rest in
            record {
              before = before;
              last = u;
              rest = us;
              parts = same;
              front = sym (append_assoc before (u ∷ []) us) ∙ ap (λ l. l ++ us) (sym same);
              enough = rw same (rw (sym total) (leb→le _ _ e));
              short = short;
            }
        | inr e ↦ rw (sym (append_assoc before (u ∷ []) us)) (
            select_from-Covers us next selected (inr (omega (arith, total, not_enough _ _ e))) (
              ap (select_from required us next) (sym total)
              ∙ sym (test_false (leb required t) _ _ e)
              ∙ rest))
      ]

  -- Enough funds in range are enough: the loop returns before its end.
  select_from-finds :
      (us before : List UtxoEntry)
      → worth before < required
      → worth before + worth us < u64_mod
      → required ≤ worth before + worth us
      → (selected : List UtxoEntry) × (select_from required us before (worth before) ≡ ok selected)
  unfolding select_from worth
  select_from-finds [] before short range enough = let no : ⊥ = omega arith in elim no [ ]
  select_from-finds (u ∷ us) before short range enough =
      let next = before ++ (u ∷ []) in
      let total = worth_last before u in
      rw ((added (worth before) u.amount).complete (omega arith))
        (elim (Bool-cases (leb required (worth before + u.amount))) [
          | inl e ↦ (next, test_true _ _ _ e)
          | inr e ↦
              let (selected, found) =
                select_from-finds us next (omega (arith, total, not_enough _ _ e))
                  (omega (arith, total)) (omega (arith, total)) in
              (selected, test_false _ _ _ e ∙ ap (select_from required us next) (sym total) ∙ found)
        ])

pub select_automatic_with_limit-Covers :
    (utxos : List UtxoEntry) (required max_inputs : ℕ) (selected : List UtxoEntry)
    → select_automatic_with_limit utxos required max_inputs ≡ ok selected
    → Covers required selected (take max_inputs (sort_largest_first utxos))
unfolding select_automatic_with_limit worth
select_automatic_with_limit-Covers utxos required max_inputs selected h =
    let (_, rest, _) = bind-eq-ok (ensure (ltb 0 max_inputs) _) _ h in
    select_from-Covers required (take max_inputs (sort_largest_first utxos)) [] selected (inl refl)
      rest

-- The automatic selection succeeds for a positive amount that the largest UTXOs within the limit cover, where
-- their total fits 64 bits.
pub select_automatic_with_limit-finds :
    (utxos : List UtxoEntry) (required max_inputs : ℕ)
    → 0 < required
    → 0 < max_inputs
    → worth (take max_inputs (sort_largest_first utxos)) < u64_mod
    → required ≤ worth (take max_inputs (sort_largest_first utxos))
    → (selected : List UtxoEntry) × (select_automatic_with_limit utxos required max_inputs
        ≡ ok selected)
unfolding select_automatic_with_limit worth
select_automatic_with_limit-finds utxos required max_inputs positive allowed range enough =
    rw (lt→ltb 0 max_inputs allowed) (
      select_from-finds required (take max_inputs (sort_largest_first utxos)) [] positive
        (omega arith) (omega arith))

front_worth :
    (n k : ℕ) (xs b c : List UtxoEntry)
    → take n xs ≡ b ++ c
    → k ≤ length b
    → worth (take k xs) ≤ worth b
unfolding worth
front_worth n zero xs b c h le = omega arith
front_worth n (suc k) xs [] c h le = omega arith
front_worth zero (suc k) xs (v ∷ b) c h le = cc
front_worth (suc n) (suc k) [] (v ∷ b) c h le = cc
front_worth (suc n) (suc k) (x ∷ xs) (v ∷ b) c h le =
    let same : x ≡ v = cc in
    let tails : take n xs ≡ b ++ c = cc in
    omega (arith, ap (λ (u : UtxoEntry). u.amount) same, front_worth n k xs b c tails (omega arith))

short_worth :
    (required : ℕ) (before : List UtxoEntry)
    → 0 < required
    → (before ≡ []) ⊎ (worth before < required)
    → worth before < required
unfolding worth
short_worth required before positive (inl e) = rw e positive
short_worth required before positive (inr h) = h

-- The automatic selection for a positive amount has as few entries as can be: any choice of the UTXOs with
-- fewer entries is worth less than the amount.
pub select_automatic_with_limit_fewest :
    (utxos : List UtxoEntry) (required max_inputs : ℕ) (selected other : List UtxoEntry)
    → 0 < required
    → select_automatic_with_limit utxos required max_inputs ≡ ok selected
    → Choice other utxos
    → length other < length selected
    → worth other < required
select_automatic_with_limit_fewest utxos required max_inputs selected other positive h choice
      fewer =
    let c = select_automatic_with_limit-Covers utxos required max_inputs selected h in
    let split : take max_inputs (sort_largest_first utxos) ≡ c.before ++ ((c.last ∷ []) ++ c.rest) =
      c.front ∙ ap (λ l. l ++ c.rest) c.parts ∙ append_assoc c.before (c.last ∷ []) c.rest in
    omega (
      arith,
      worth-sort_largest_first other utxos choice,
      front_worth max_inputs (length other) (sort_largest_first utxos) c.before
          ((c.last ∷ []) ++ c.rest) split
          (omega (
            arith,
            ap (λ (l : List UtxoEntry). length l) c.parts,
            length-append c.before (c.last ∷ []),
          )),
      short_worth required c.before positive c.short,
    )
