-- ===== src/Base/Window.antt =====
-- The end of a list, up to a number of entries.
use kaspa_portal.Base.{
  ℕ, suc, ◌-◌, ◌≤◌, ◌≡◌, refl, sym, ap, ◌∙◌, inl, inr, true, List, [], ◌∷◌, ◌++◌, length,
  length-append, length-drop, drop, le_or_lt, arith,
}
use kaspa_portal.Base.Dict.Aligned.{contains, contains-append, same}
use kaspa_portal.Base.Equality.{Eq}

-- the last c entries
unfoldable pub last_of : {A : Type 0} → ℕ → List A → List A
last_of c xs = drop (length xs - c) xs

pub last_of_long :
    {A : Type 0} (c : ℕ) (x : A) (xs : List A) → c ≤ length xs → last_of c (x ∷ xs) ≡ last_of c xs
unfolding last_of
last_of_long c x xs h =
    let one : suc (length xs) - c ≡ suc (length xs - c) = omega arith in rw one refl

pub last_of_short : {A : Type 0} (c : ℕ) (xs : List A) → length xs ≤ c → last_of c xs ≡ xs
unfolding last_of
last_of_short c xs h = let none_over : length xs - c ≡ 0 = omega arith in rw none_over refl

pub last_of-append :
    {A : Type 0} (c : ℕ) (xs : List A) (k : A)
    → last_of c (last_of c xs ++ (k ∷ [])) ≡ last_of c (xs ++ (k ∷ []))
last_of-append c [] k = ap (λ l. last_of c (l ++ (k ∷ []))) (last_of_short c [] (omega arith))
last_of-append c (x ∷ xs) k = elim (le_or_lt c (length xs)) [
  | inl h ↦
      ap (λ l. last_of c (l ++ (k ∷ []))) (last_of_long c x xs h)
      ∙ last_of-append c xs k
      ∙ sym (last_of_long c x (xs ++ (k ∷ [])) (omega (arith, length-append xs (k ∷ []))))
  | inr h ↦ ap (λ l. last_of c (l ++ (k ∷ []))) (last_of_short c (x ∷ xs) (omega arith))
]

pub length-last_of : {A : Type 0} (c : ℕ) (xs : List A) → length (last_of c xs) ≤ c
unfolding last_of
length-last_of c xs = omega (arith, length-drop (length xs - c) xs)

-- A new last entry is in every end that is not empty.
pub contains-last_of :
    {K : Type 0} ⦃e : Eq K⦄ (c : ℕ) (xs : List K) (k : K)
    → 1 ≤ c
    → contains k (last_of c (xs ++ (k ∷ []))) ≡ true
unfolding contains
contains-last_of c [] k h = rw (last_of_short c (k ∷ []) h, same k) refl
contains-last_of c (x ∷ xs) k h = elim (le_or_lt c (length (xs ++ (k ∷ [])))) [
  | inl le ↦ rw (last_of_long c x (xs ++ (k ∷ [])) le) (contains-last_of c xs k h)
  | inr lt ↦
      rw
        (
          last_of_short c (x ∷ (xs ++ (k ∷ []))) (omega arith),
          contains-append k xs (k ∷ []),
          same k,
        )
        (ground arith)
]
