-- ===== src/Script.antt =====
-- src/primitives/script.rs and src/contract/script: the elements of a script, the pushes that write them, and the
-- walks that look for an opcode.
pub mod ReadBack
pub mod Walk
pub mod Tests
use kaspa_portal.Base.{
  ℕ, zero, suc, ◌+◌, ◌-◌, ◌==◌, Bool, true, false, ◌&&◌, Option, none, some, List, [], ◌∷◌, ◌++◌,
  length, take, drop, get_elem?, leb, ltb, if◌then◌else◌, map,
}
use kaspa_portal.Base.Bytes.{Bytes, to_le_bytes, from_le_bytes}
use kaspa_portal.Base.Checked.{checked_add, and_then}
use kaspa_portal.Base.Outcome.{Result, ok, err}

pub record Element : Type 0 where
  pub opcode : ℕ
  pub bytes : Bytes

unfoldable pub is_push : Element → Bool
is_push element = leb element.opcode 0x4e

-- `script.get(start..end)`
unfoldable pub slice : Bytes → ℕ → ℕ → Option Bytes
slice script start end =
    if leb start end && leb end (length script)
    then some (take (end - start) (drop start script))
    else none

unfoldable pub little : ℕ → Bytes → ℕ → Option Bytes
little n script at = and_then (checked_add at n) (λ end. slice script at end)

-- the lengths of the header and of the data of an element, by its opcode
unfoldable pub read_header : ℕ → Bytes → ℕ → Option (ℕ × ℕ)
read_header opcode script at =
    if leb 1 opcode && leb opcode 0x4b
    then some (1, opcode)
    else if opcode == 0x4c
    then and_then (get_elem? script (at + 1)) (λ size. some (2, size))
    else if opcode == 0x4d
    then and_then (little 2 script (at + 1)) (λ size. some (3, from_le_bytes size))
    else if opcode == 0x4e
    then and_then (little 4 script (at + 1)) (λ size. some (5, from_le_bytes size))
    else some (1, 0)

-- the data of an element behind its header, and the offset past it
unfoldable pub read_data : ℕ → Bytes → ℕ → ℕ × ℕ → Option (Element × ℕ)
read_data opcode script at header = and_then (checked_add at header.0) (λ start.
    and_then (checked_add start header.1) (λ end.
      and_then (slice script start end)
        (λ bytes. some (record { opcode = opcode; bytes = bytes }, end))))

unfoldable pub read_element : Bytes → ℕ → Option (Element × ℕ)
read_element script at = and_then (get_elem? script at) (λ opcode.
    and_then (read_header opcode script at) (λ header. read_data opcode script at header))

-- what `push_data` writes in front of the data; `none` where it panics
unfoldable pub push_prefix : ℕ → Option Bytes
push_prefix size =
    if leb size 75
    then some (size ∷ [])
    else if leb size 255
    then some (0x4c ∷ size ∷ [])
    else if leb size 65535
    then some (0x4d ∷ to_le_bytes 2 size)
    else if ltb size 4_294_967_296
    then some (0x4e ∷ to_le_bytes 4 size)
    else none

unfoldable pub push_data : Bytes → Bytes → Option Bytes
push_data script bytes =
    and_then (push_prefix (length bytes)) (λ prefix. some (script ++ (prefix ++ bytes)))

-- `item_end`
unfoldable pub item_end : Bytes → ℕ → Option ℕ
item_end script offset = and_then (read_element script offset) (λ read. some read.1)

-- the loop of `contains_opcode_pair`
unfoldable pub contains_opcode_pair_from : ℕ → Bytes → ℕ → ℕ → ℕ → Bool
contains_opcode_pair_from zero script first second offset = false
contains_opcode_pair_from (suc steps) script first second offset = elim (get_elem? script offset) [
  | none ↦ false
  | some opcode ↦
      if opcode == first
        && elim (get_elem? script (offset + 1)) [ none ↦ false | some b ↦ b == second ]
      then true
      else elim (item_end script offset) [
        | none ↦ false
        | some next ↦ contains_opcode_pair_from steps script first second next
      ]
]

unfoldable pub contains_opcode_pair : Bytes → ℕ → ℕ → Bool
contains_opcode_pair script first second =
    contains_opcode_pair_from (length script) script first second 0

pub data ScriptItem : Type 0 where
  plain_opcode oversized_integer : ScriptItem
  integer : ℕ → ScriptItem

pub data ScriptError : Type 0 where
  truncated_item integer_exceeds : ScriptError

unfoldable pub classify_push : Bytes → ScriptItem
classify_push bytes =
    if ltb 8 (length bytes) then oversized_integer else integer (from_le_bytes bytes)

unfoldable pub classify_element : Element → ScriptItem
classify_element element =
    if is_push element
    then classify_push element.bytes
    else if leb 0x51 element.opcode && leb element.opcode 0x60
    then integer (element.opcode - 0x51 + 1)
    else plain_opcode

unfoldable pub next_script_item : Bytes → ℕ → Result ScriptError (ℕ × ScriptItem)
next_script_item script position = elim (read_element script position) [
  | none ↦ err truncated_item
  | some read ↦ ok (read.1, classify_element read.0)
]

-- what the loop of `find_preceding_script_integer` returns at the opcode that it looks for
unfoldable pub preceding_integer : ScriptItem → Result ScriptError (Option ℕ)
preceding_integer (integer value) = ok (some value)
preceding_integer oversized_integer = err integer_exceeds
preceding_integer plain_opcode = ok none

-- what one round of the loop comes to: a return, or the next position and the item that was passed
pub data Round : Type 0 where
  returns : Result ScriptError (Option ℕ) → Round
  passes : ℕ → ScriptItem → Round

unfoldable pub find_round : Bytes → ℕ → ℕ → ScriptItem → Option ℕ → Round
find_round script target position previous none = returns (ok none)
find_round script target position previous (some current) =
    if current == target
    then returns (preceding_integer previous)
    else elim (next_script_item script position) [
      | err error ↦ returns (err error)
      | ok read ↦ passes read.0 read.1
    ]

unfoldable pub after_round :
    Round → (ℕ → ScriptItem → Result ScriptError (Option ℕ)) → Result ScriptError (Option ℕ)
after_round (returns result) rest = result
after_round (passes position item) rest = rest position item

unfoldable pub find_preceding_from : ℕ → Bytes → ℕ → ℕ → ScriptItem → Result ScriptError (Option ℕ)
find_preceding_from zero script target position previous = ok none
find_preceding_from (suc steps) script target position previous =
    after_round (find_round script target position previous (get_elem? script position))
      (find_preceding_from steps script target)

unfoldable pub find_preceding_script_integer : Bytes → ℕ → Result ScriptError (Option ℕ)
find_preceding_script_integer script target =
    find_preceding_from (length script) script target 0 plain_opcode

-- `extract_cltv_locktime` and `extract_csv_sequence`
unfoldable pub extract_cltv_locktime : Bytes → Result ScriptError (Option ℕ)
extract_cltv_locktime script = find_preceding_script_integer script 0xb0

unfoldable pub extract_csv_sequence : Bytes → Result ScriptError (Option ℕ)
extract_csv_sequence script = find_preceding_script_integer script 0xb1
