-- ===== src/Base/Dict.antt =====
-- Lists without repetition, and maps as lists of keys and values: a hash map's order of iteration is that of
-- the list.
pub mod Aligned
use mathlib.Core.Path.{◌≡◌, refl, sym, ap, ◌∙◌}
use mathlib.Core.Logic.{◌↔◌, ◌⊎◌, inl, inr}
use mathlib.Core.Bool.{Bool, true, false, not, ◌&&◌, ◌||◌}
use mathlib.Core.Option.{Option, none, some}
use mathlib.Core.List.{List, [], ◌∷◌, ◌++◌, append-nil}
use native.Mathlib.Omega.{arith}
use Prim.Native.Nat.{ℕ, suc, ◌+◌, ◌≤◌}
use kaspa_portal.Base.Tests.{if◌then◌else◌, Bool-cases}
use kaspa_portal.Base.Lists.{All, length}
use kaspa_portal.Base.Equality.{Eq}

module _ {ℓ} {A : Type ℓ} where
  -- `xs.retain(p)`, and `xs.into_iter().filter(p)`
  unfoldable pub retain : (A → Bool) → List A → List A
  retain p [] = []
  retain p (x ∷ xs) = if p x then x ∷ retain p xs else retain p xs

  pub All-retain {κ} :
      (P Q : A → Type κ) (p : A → Bool) (xs : List A)
      → ((x : A) → P x → p x ≡ true → Q x)
      → All P xs
      → All Q (retain p xs)
  unfolding retain
  All-retain P Q p [] h all = tt
  All-retain P Q p (x ∷ xs) h (px, all) = elim (Bool-cases (p x)) [
    | inl e ↦ rw e (h x px e, All-retain P Q p xs h all)
    | inr e ↦ rw e (All-retain P Q p xs h all)
  ]

  pub length-retain : (p : A → Bool) (xs : List A) → length (retain p xs) ≤ length xs
  unfolding retain
  length-retain p [] = omega arith
  length-retain p (x ∷ xs) = ground (arith, length-retain p xs)

module _ {ℓ κ} {K : Type ℓ} {V : Type κ} ⦃e : Eq K⦄ where
  unfoldable pub lookup : K → List (K × V) → Option V
  lookup k [] = none
  lookup k ((j, v) ∷ d) = if e.beq k j then some v else lookup k d

  unfoldable pub contains_key : K → List (K × V) → Bool
  contains_key k [] = false
  contains_key k ((j, v) ∷ d) = e.beq k j || contains_key k d

  unfoldable pub insert : K → V → List (K × V) → List (K × V)
  insert k v [] = (k, v) ∷ []
  insert k v ((j, w) ∷ d) = if e.beq k j then (k, v) ∷ d else (j, w) ∷ insert k v d

  unfoldable pub remove : K → List (K × V) → List (K × V)
  remove k [] = []
  remove k ((j, w) ∷ d) = if e.beq k j then d else (j, w) ∷ remove k d

module _ {ℓ κ} {K : Type ℓ} {V : Type κ} where
  unfoldable pub keys : List (K × V) → List K
  keys [] = []
  keys ((k, v) ∷ d) = k ∷ keys d

  unfoldable pub values : List (K × V) → List V
  values [] = []
  values ((k, v) ∷ d) = v ∷ values d
