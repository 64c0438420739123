-- ===== src/Base/Equality.antt =====
-- Equality as an interface, and strings: a `String` is its list of Unicode scalar values.
use Prim.Native.Nat.{ℕ, ◌+◌, ◌/◌, ◌%◌}
use mathlib.Core.Path.{◌≡◌, refl}
use mathlib.Core.Logic.{◌↔◌}
use mathlib.Core.Bool.{Bool, true, false, ◌&&◌, ◌||◌}
use mathlib.Core.List.{List, [], ◌∷◌, ◌++◌}
use native.Mathlib.Omega.{arith}
use kaspa_portal.Base.Tests

pub record Eq {ℓ} (A : Type ℓ) : Type ℓ where
  pub beq : A → A → Bool
  pub beq_iff : (a b : A) → (beq a b ≡ true) ↔ (a ≡ b)

instance abbrev pub nat_eq : Eq ℕ
nat_eq = record { beq = Tests.◌==◌; beq_iff = Tests.==_iff }

abbrev pub Str : Type 0
Str = List ℕ

abbrev pub same_str : Str → Str → Bool
same_str [] [] = true
same_str (x ∷ xs) (y ∷ ys) = Tests.◌==◌ x y && same_str xs ys
same_str _ _ = false

pub same_str_iff : (s t : Str) → (same_str s t ≡ true) ↔ (s ≡ t)
same_str_iff [] [] = (λ _. refl, λ _. refl)
same_str_iff [] (y ∷ ys) = (λ h. cc, λ h. cc)
same_str_iff (x ∷ xs) [] = (λ h. cc, λ h. cc)
same_str_iff (x ∷ xs) (y ∷ ys) = ground (arith, same_str_iff xs ys)

instance abbrev pub str_eq : Eq Str
str_eq = record { beq = same_str; beq_iff = same_str_iff }

-- `char::is_whitespace`
unfoldable pub is_whitespace : ℕ → Bool
is_whitespace c =
    (Tests.leb 0x09 c && Tests.leb c 0x0d)
    || Tests.◌==◌ c 0x20
    || Tests.◌==◌ c 0x85
    || Tests.◌==◌ c 0xa0
    || Tests.◌==◌ c 0x1680
    || (Tests.leb 0x2000 c && Tests.leb c 0x200a)
    || Tests.◌==◌ c 0x2028
    || Tests.◌==◌ c 0x2029
    || Tests.◌==◌ c 0x202f
    || Tests.◌==◌ c 0x205f
    || Tests.◌==◌ c 0x3000

-- `s.trim().is_empty()`
unfoldable pub is_blank : Str → Bool
unfolding is_whitespace
is_blank [] = true
is_blank (c ∷ cs) = is_whitespace c && is_blank cs

-- `s.len()`, in bytes of UTF-8
unfoldable pub byte_len : Str → ℕ
byte_len [] = 0
byte_len (c ∷ cs) =
    (Tests.if◌then◌else◌ (Tests.ltb c 0x80) 1
      (Tests.if◌then◌else◌ (Tests.ltb c 0x800) 2 (Tests.if◌then◌else◌ (Tests.ltb c 0x10000) 3 4)))
    + byte_len cs

-- the decimal digits of a number below 10 ^ n
unfoldable pub digits : ℕ → ℕ → Str
digits Prim.Native.Nat.zero v = []
digits (Prim.Native.Nat.suc n) v =
    Tests.if◌then◌else◌ (Tests.ltb v 10) ((48 + v) ∷ []) (digits n (v / 10) ++ ((48 + v % 10) ∷ []))
