-- ===== src/Indexer/Matcher/Parts.antt =====
-- The tests of the payload rules against where the needle stands in the payload.
use kaspa_portal.Base.{
  ℕ, zero, suc, ◌-◌, ◌==◌, ◌≡◌, ◌↔◌, refl, sym, ap, ◌∙◌, inl, inr, Bool, true, ◌&&◌, [], ◌∷◌, ◌++◌,
  length, length-append, take, drop, take-append, drop-append, leb, le→leb, arith, Bool-cases,
  ==_iff, ==_refl,
}
use kaspa_portal.Base.Bytes.{Bytes}
use kaspa_portal.Base.Equality.{same_str, same_str_iff}
use kaspa_portal.Indexer.Matcher.{starts_with, ends_with, contains, any_window}

and_left : (a b : Bool) → (a && b) ≡ true → a ≡ true
and_left a b h = ground arith

and_right : (a b : Bool) → (a && b) ≡ true → b ≡ true
and_right a b h = ground arith

take-drop : (n : ℕ) (xs : Bytes) → take n xs ++ drop n xs ≡ xs
take-drop zero xs = refl
take-drop (suc n) [] = refl
take-drop (suc n) (x ∷ xs) = ap (λ l. x ∷ l) (take-drop n xs)

starts_found :
    (payload value : Bytes)
    → starts_with payload value ≡ true
    → (rest : Bytes) × (payload ≡ value ++ rest)
unfolding starts_with
starts_found payload [] h = (payload, refl)
starts_found [] (v ∷ value) h = let no : ⊥ = cc (h) in elim no [ ]
starts_found (p ∷ payload) (v ∷ value) h =
    let (rest, e) = starts_found payload value (and_right (p == v) (starts_with payload value) h) in
    let same : p ≡ v = (==_iff p v).0 (and_left (p == v) (starts_with payload value) h) in
    (rest, cc (same, e))

starts_there : (value rest : Bytes) → starts_with (value ++ rest) value ≡ true
unfolding starts_with
starts_there [] rest = refl
starts_there (v ∷ value) rest = rw (==_refl v) (starts_there value rest)

-- A payload has a prefix just if it is the prefix and some bytes behind it.
pub starts_with_iff :
    (payload value : Bytes)
    → (starts_with payload value ≡ true) ↔ ((rest : Bytes) × (payload ≡ value ++ rest))
starts_with_iff payload value =
    (starts_found payload value, λ (rest, e). rw e (starts_there value rest))

-- A payload has a suffix just if it is some bytes and the suffix behind them.
pub ends_with_iff :
    (payload value : Bytes)
    → (ends_with payload value ≡ true) ↔ ((front : Bytes) × (payload ≡ front ++ value))
unfolding ends_with
ends_with_iff payload value = (
  λ h.
      let same =
        (same_str_iff (drop (length payload - length value) payload) value).0
          (and_right (leb (length value) (length payload)) _ h) in
      (
        take (length payload - length value) payload,
        sym (take-drop (length payload - length value) payload)
            ∙ ap (λ l. take (length payload - length value) payload ++ l) same,
      ),
  λ (front, e). rw e (ends_there front),
)
  where
    ends_there :
        (front : Bytes)
        → (leb (length value) (length (front ++ value))
            && same_str (drop (length (front ++ value) - length value) (front ++ value)) value)
          ≡ true
    ends_there front =
        let size : length (front ++ value) - length value ≡ length front =
          omega (arith, length-append front value) in
        rw
          (
            le→leb (length value) (length (front ++ value))
                (omega (arith, length-append front value)),
            size,
            drop-append front value,
            (same_str_iff value value).1 refl,
          )
          refl

window_found :
    (payload value : Bytes)
    → any_window (length value) payload value ≡ true
    → (front : Bytes) × (rest : Bytes) × (payload ≡ front ++ (value ++ rest))
unfolding any_window
window_found [] value h = let no : ⊥ = cc (h) in elim no [ ]
window_found (p ∷ payload) value h =
    elim (Bool-cases (same_str (take (length value) (p ∷ payload)) value)) [
      | inl t ↦
          let same = (same_str_iff (take (length value) (p ∷ payload)) value).0 t in
          (
            [],
            drop (length value) (p ∷ payload),
            sym (take-drop (length value) (p ∷ payload))
                ∙ ap (λ l. l ++ drop (length value) (p ∷ payload)) same,
          )
      | inr f ↦
          let (front, rest, e) = window_found payload value (ground arith) in
          (p ∷ front, rest, ap (λ l. p ∷ l) e)
    ]

window_there :
    (front : Bytes) (v : ℕ) (value rest : Bytes)
    → any_window (length (v ∷ value)) (front ++ (v ∷ value ++ rest)) (v ∷ value) ≡ true
unfolding any_window
window_there [] v value rest =
    rw
      (
        le→leb (length (v ∷ value)) (length (v ∷ value ++ rest))
            (omega (arith, length-append value rest)),
        take-append value rest,
        (same_str_iff value value).1 refl,
        ==_refl v,
      )
      refl
window_there (f ∷ front) v value rest = ground (arith, window_there front v value rest)

-- A payload contains some bytes, at least one, just if they stand somewhere in it.
pub contains_iff :
    (payload : Bytes) (v : ℕ) (value : Bytes)
    → (contains payload (v ∷ value) ≡ true)
      ↔ ((front : Bytes) × (rest : Bytes) × (payload ≡ front ++ ((v ∷ value) ++ rest)))
unfolding contains
contains_iff payload v value = (
  λ h. window_found payload (v ∷ value) (and_right (leb (length (v ∷ value)) (length payload)) _ h),
  λ (front, rest, e).
      rw
        (
          e,
          window_there front v value rest,
          le→leb (length (v ∷ value)) (length (front ++ (v ∷ value ++ rest)))
              (omega (arith, length-append front (v ∷ value ++ rest), length-append value rest)),
        )
        refl,
)
