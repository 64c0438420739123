-- ===== src/Script/Tests.antt =====
-- The theorems on scripts at concrete scripts.
use kaspa_portal.Base.{◌+◌, ◌≡◌, refl, some, [], ◌∷◌, length, arith}
use kaspa_portal.Base.Bytes.{Bytes, from_le_bytes}
use kaspa_portal.Base.Outcome.{ok}
use kaspa_portal.Script.{
  push_data, plain_opcode, find_preceding_from, find_preceding_script_integer, find_round,
  after_round, next_script_item, read_element, read_header, read_data, slice, classify_element,
  classify_push, is_push, preceding_integer,
}
use kaspa_portal.Script.ReadBack.{ReadsBack, push_data-ReadsBack}
use kaspa_portal.Script.Walk.{find_preceding_script_integer_enough}

push_data-ReadsBack_example :
    (pushed : Bytes) × (push_data (0x76 ∷ []) (7 ∷ 8 ∷ 9 ∷ []) ≡ some pushed)
    × ReadsBack (0x76 ∷ []) (7 ∷ 8 ∷ 9 ∷ []) pushed
push_data-ReadsBack_example =
    push_data-ReadsBack (0x76 ∷ []) (7 ∷ 8 ∷ 9 ∷ []) (omega arith) (omega arith)

-- push 5 and a check of the lock time
abbrev lock : Bytes
lock = 1 ∷ 5 ∷ 0xb0 ∷ []

find_preceding_script_integer_enough_example :
    find_preceding_script_integer lock 0xb0
    ≡ find_preceding_from (length lock + 7) lock 0xb0 0 plain_opcode
find_preceding_script_integer_enough_example = find_preceding_script_integer_enough lock 0xb0 7

lock_time : find_preceding_script_integer lock 0xb0 ≡ ok (some 5)
unfolding find_preceding_script_integer find_preceding_from find_round after_round next_script_item
    read_element read_header read_data slice classify_element classify_push is_push
    preceding_integer from_le_bytes
lock_time = refl
