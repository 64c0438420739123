-- ===== src/Script/Walk.antt =====
-- The walks over a script end: every element is at least one byte.
use kaspa_portal.Base.{
  ◌⊎◌, ℕ, zero, suc, ◌+◌, ◌==◌, ◌<◌, ◌≤◌, ◌≡◌, refl, sym, inl, inr, Bool, true, false, ◌&&◌, Option,
  none, some, [], ◌∷◌, length, get_elem?, leb, if◌then◌else◌, Bool-cases, Option-cases, arith,
}
use kaspa_portal.Base.Bytes.{Bytes, from_le_bytes}
use kaspa_portal.Base.Checked.{checked_add, and_then}
use kaspa_portal.Base.Computes.{and_then_sound, Gives-checked_add}
use kaspa_portal.Base.Outcome.{Result, ok, err}
use kaspa_portal.Script.{
  Element, slice, little, read_header, read_data, read_element, ScriptItem, plain_opcode,
  next_script_item, classify_element, find_preceding_from, find_preceding_script_integer,
  preceding_integer, ScriptError, truncated_item, returns, passes, find_round, after_round,
}

slice_end :
    (script : Bytes) (start end : ℕ) (bytes : Bytes)
    → slice script start end ≡ some bytes
    → (start ≤ end) × (end ≤ length script)
unfolding slice
slice_end script start end bytes h = elim (Bool-cases (leb start end && leb end (length script))) [
  | inl t ↦ (ground arith, ground arith)
  | inr f ↦
      let absent : slice script start end ≡ none = rw f refl in
      let no : ⊥ = cc (absent, h) in elim no [ ]
]

-- Each kind of header is at least one byte.
kinds_positive :
    (a b c d : Bool) (one : Option ℕ) (two four : Option Bytes) (code : ℕ) (header : ℕ × ℕ)
    → (if a
        then some (1, code)
        else if b
        then and_then one (λ size. some (2, size))
        else if c
        then and_then two (λ size. some (3, from_le_bytes size))
        else if d
        then and_then four (λ size. some (5, from_le_bytes size))
        else some (1, 0))
      ≡ some header
    → 1 ≤ header.0
kinds_positive true b c d one two four code header h = let e : 1 ≡ header.0 = cc (h) in omega arith
kinds_positive false true c d none two four code header h = let no : ⊥ = cc (h) in elim no [ ]
kinds_positive false true c d (some n) two four code header h =
    let e : 2 ≡ header.0 = cc (h) in omega arith
kinds_positive false false true d one none four code header h = let no : ⊥ = cc (h) in elim no [ ]
kinds_positive false false true d one (some n) four code header h =
    let e : 3 ≡ header.0 = cc (h) in omega arith
kinds_positive false false false true one two none code header h =
    let no : ⊥ = cc (h) in elim no [ ]
kinds_positive false false false true one two (some n) code header h =
    let e : 5 ≡ header.0 = cc (h) in omega arith
kinds_positive false false false false one two four code header h =
    let e : 1 ≡ header.0 = cc (h) in omega arith

header_positive :
    (code : ℕ) (script : Bytes) (at : ℕ) (header : ℕ × ℕ)
    → read_header code script at ≡ some header
    → 1 ≤ header.0
unfolding read_header
header_positive code script at header h =
    kinds_positive (leb 1 code && leb code 0x4b) (code == 0x4c) (code == 0x4d) (code == 0x4e)
      (get_elem? script (at + 1)) (little 2 script (at + 1)) (little 4 script (at + 1)) code header
      h

-- An element ends behind its offset, and within the script.
pub read_element-lt :
    (script : Bytes) (at : ℕ) (element : Element) (next : ℕ)
    → read_element script at ≡ some (element, next)
    → (at < next) × (next ≤ length script)
unfolding read_element read_data
read_element-lt script at element next h =
    let (code, _, h1) = and_then_sound (get_elem? script at) _ _ h in
    let (header, eh, h2) = and_then_sound (read_header code script at) _ _ h1 in
    let (start, es, h3) = and_then_sound (checked_add at header.0) _ _ h2 in
    let (end, ee, h4) = and_then_sound (checked_add start header.1) _ _ h3 in
    let (bytes, ed, h5) = and_then_sound (slice script start end) _ _ h4 in
    let within = slice_end script start end bytes ed in
    let one = header_positive code script at header eh in
    let begins = ((Gives-checked_add at header.0).sound start es).1 in
    let last : end ≡ next = cc (h5) in (omega arith, omega arith)

past_end :
    (script : Bytes) (position : ℕ) → length script ≤ position → get_elem? script position ≡ none
past_end [] position h = refl
past_end (b ∷ script) zero h = let no : ⊥ = omega arith in elim no [ ]
past_end (b ∷ script) (suc position) h = past_end script position (omega arith)

-- at the end there is nothing to find
find_at_end :
    (steps : ℕ) (script : Bytes) (target position : ℕ) (previous : ScriptItem)
    → length script ≤ position
    → find_preceding_from steps script target position previous ≡ ok none
unfolding find_preceding_from after_round find_round
find_at_end zero script target position previous h = refl
find_at_end (suc steps) script target position previous h = rw (past_end script position h) refl

-- A round returns, or passes an element: the next position is behind it.
round_cases :
    (script : Bytes) (target position : ℕ) (previous : ScriptItem)
    → ((result : Result ScriptError (Option ℕ)) × (find_round script target position previous
            (get_elem? script position)
          ≡ returns result))
      ⊎ ((next : ℕ) × (item : ScriptItem) × (find_round script target position previous
              (get_elem? script position)
            ≡ passes next item)
          × (position < next))
unfolding find_round next_script_item
round_cases script target position previous = elim (Option-cases (get_elem? script position)) [
  | inl h ↦ inl (ok none, rw h refl)
  | inr (current, h) ↦ elim (Bool-cases (current == target)) [
    | inl t ↦ inl (preceding_integer previous, rw (h, t) refl)
    | inr f ↦ elim (Option-cases (read_element script position)) [
      | inl g ↦ inl (err truncated_item, rw (h, f, g) refl)
      | inr (read, g) ↦ inr (
        read.1,
        classify_element read.0,
        rw (h, f, g) refl,
        (read_element-lt script position read.0 read.1 g).0,
      )
    ]
  ]
]

-- From any offset, as many steps as there are bytes behind it are enough.
find_preceding_from_enough :
    (m n : ℕ) (script : Bytes) (target position : ℕ) (previous : ScriptItem)
    → length script ≤ position + m
    → length script ≤ position + n
    → find_preceding_from m script target position previous
      ≡ find_preceding_from n script target position previous
unfolding find_preceding_from after_round
find_preceding_from_enough zero n script target position previous hm hn =
    sym (find_at_end n script target position previous (omega arith))
find_preceding_from_enough (suc m) zero script target position previous hm hn =
    find_at_end (suc m) script target position previous (omega arith)
find_preceding_from_enough (suc m) (suc n) script target position previous hm hn =
    elim (round_cases script target position previous) [
      | inl (result, h) ↦ rw h refl
      | inr (next, item, h, bound) ↦
          rw h (find_preceding_from_enough m n script target next item (omega arith) (omega arith))
    ]

-- The walk that looks for the integer in front of an opcode is never cut short: with any number of steps more than
-- the length of the script it returns the same.
pub find_preceding_script_integer_enough :
    (script : Bytes) (target more : ℕ)
    → find_preceding_script_integer script target
      ≡ find_preceding_from (length script + more) script target 0 plain_opcode
unfolding find_preceding_script_integer
find_preceding_script_integer_enough script target more =
    find_preceding_from_enough (length script) (length script + more) script target 0 plain_opcode
      (omega arith) (omega arith)
