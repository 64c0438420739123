-- ===== src/Planning/Selection/Sorted.antt =====
-- The sort puts the largest first, so its front is worth at least as much as any other choice.
use kaspa_portal.Base.{
  ℕ, zero, suc, ◌+◌, ◌≤◌, ◌<◌, ◌≡◌, inl, inr, false, List, [], ◌∷◌, length, take, All, leb, leb→le,
  Bool-cases, arith,
}
use kaspa_portal.Planning.Selection.{UtxoEntry, insert_largest, sort_largest_first}

unfoldable pub worth : List UtxoEntry → ℕ
worth [] = 0
worth (u ∷ us) = u.amount + worth us

-- A choice of some of the entries, in their order.
pub data Choice : List UtxoEntry → List UtxoEntry → Type 0 where
  end : Choice [] []
  leave : (u : UtxoEntry) (xs ys : List UtxoEntry) → Choice xs ys → Choice xs (u ∷ ys)
  keep : (u : UtxoEntry) (xs ys : List UtxoEntry) → Choice xs ys → Choice (u ∷ xs) (u ∷ ys)

abbrev AtMost : ℕ → UtxoEntry → Type 0
AtMost b u = u.amount ≤ b

pub Descending : List UtxoEntry → Type 0
Descending [] = Unit {0}
Descending (u ∷ us) = All (AtMost u.amount) us × Descending us

AtMost-weaken : (us : List UtxoEntry) (a b : ℕ) → a ≤ b → All (AtMost a) us → All (AtMost b) us
AtMost-weaken [] a b h p = tt
AtMost-weaken (u ∷ us) a b h (p, ps) = (omega arith, AtMost-weaken us a b h ps)

insert-AtMost :
    (b : ℕ) (u : UtxoEntry) (us : List UtxoEntry)
    → u.amount ≤ b
    → All (AtMost b) us
    → All (AtMost b) (insert_largest u us)
unfolding insert_largest
insert-AtMost b u [] h p = (h, tt)
insert-AtMost b u (v ∷ us) h (p, ps) = elim (Bool-cases (leb v.amount u.amount)) [
  | inl e ↦ rw e (h, (p, ps))
  | inr e ↦ rw e (p, insert-AtMost b u us h ps)
]

not_above : (a b : ℕ) → leb a b ≡ false → b < a
not_above a b h = ground arith

insert-Descending :
    (u : UtxoEntry) (us : List UtxoEntry) → Descending us → Descending (insert_largest u us)
unfolding insert_largest Descending
insert-Descending u [] d = (tt, tt)
insert-Descending u (v ∷ us) (p, d) = elim (Bool-cases (leb v.amount u.amount)) [
  | inl e ↦ rw e ((leb→le _ _ e, AtMost-weaken us v.amount u.amount (leb→le _ _ e) p), (p, d))
  | inr e ↦ rw e (
    insert-AtMost v.amount u us (omega (arith, not_above v.amount u.amount e)) p,
    insert-Descending u us d,
  )
]

pub sort_largest_first-Descending : (us : List UtxoEntry) → Descending (sort_largest_first us)
unfolding sort_largest_first Descending
sort_largest_first-Descending [] = tt
sort_largest_first-Descending (u ∷ us) =
    insert-Descending u (sort_largest_first us) (sort_largest_first-Descending us)

-- One more entry of a list whose entries are at most b.
worth_step :
    (b k : ℕ) (us : List UtxoEntry)
    → All (AtMost b) us
    → worth (take (suc k) us) ≤ b + worth (take k us)
unfolding worth
worth_step b zero [] p = omega arith
worth_step b (suc k) [] p = omega arith
worth_step b zero (u ∷ us) (p, ps) = omega arith
worth_step b (suc k) (u ∷ us) (p, ps) = omega (arith, worth_step b k us ps)

worth_leave :
    (u : UtxoEntry) (k : ℕ) (us : List UtxoEntry)
    → Descending us
    → worth (take k us) ≤ worth (take k (insert_largest u us))
unfolding worth insert_largest Descending
worth_leave u zero us d = omega arith
worth_leave u (suc k) [] d = omega arith
worth_leave u (suc k) (v ∷ us) (p, d) = elim (Bool-cases (leb v.amount u.amount)) [
  | inl e ↦ rw e (
      worth_step u.amount k (v ∷ us)
        (leb→le _ _ e, AtMost-weaken us v.amount u.amount (leb→le _ _ e) p))
  | inr e ↦ rw e (omega (arith, worth_leave u k us d))
]

worth_keep :
    (u : UtxoEntry) (k : ℕ) (us : List UtxoEntry)
    → u.amount + worth (take k us) ≤ worth (take (suc k) (insert_largest u us))
unfolding worth insert_largest
worth_keep u zero [] = omega arith
worth_keep u (suc k) [] = omega arith
worth_keep u zero (v ∷ us) = elim (Bool-cases (leb v.amount u.amount)) [
  | inl e ↦ rw e (omega arith)
  | inr e ↦ rw e (omega (arith, not_above v.amount u.amount e))
]
worth_keep u (suc k) (v ∷ us) = elim (Bool-cases (leb v.amount u.amount)) [
  | inl e ↦ rw e (omega arith)
  | inr e ↦ rw e (omega (arith, worth_keep u k us))
]

-- No choice of entries is worth more than as many from the front of the sort.
pub worth-sort_largest_first :
    (xs us : List UtxoEntry)
    → Choice xs us
    → worth xs ≤ worth (take (length xs) (sort_largest_first us))
unfolding worth sort_largest_first
worth-sort_largest_first _ _ end = omega arith
worth-sort_largest_first _ _ (leave u xs ys c) = omega (
  arith,
  worth-sort_largest_first xs ys c,
  worth_leave u (length xs) (sort_largest_first ys) (sort_largest_first-Descending ys),
)
worth-sort_largest_first _ _ (keep u xs ys c) =
    omega
      (arith, worth-sort_largest_first xs ys c, worth_keep u (length xs) (sort_largest_first ys))
