-- ===== src/Kspt/Writer.antt =====
-- `Writer` of wire/io.rs: what it has written, and the length of its output buffer.
pub mod Emits
use kaspa_portal.Base.{
  ℕ, zero, suc, ◌+◌, ◌%◌, Bool, Option, none, some, [], ◌∷◌, ◌++◌, length, ltb, leb, if◌then◌else◌,
}
use kaspa_portal.Base.Bytes.{Bytes, to_le_bytes}
use kaspa_portal.Base.Outcome
use kaspa_portal.Base.Outcome.{Result, ok, err}
use kaspa_portal.Kspt.Model.{
  WireError, output_buffer_too_small, script_too_long, extended_script_length, max_script_size,
}

pub record Writer : Type 0 where
  pub written : Bytes
  pub capacity : ℕ

-- What a function that takes `&mut Writer` does to it.
abbrev pub Write : Type 0
Write = Writer → Result WireError Writer

infixl 5 ◌>>◌
abbrev pub ◌>>◌ : Write → Write → Write
◌>>◌ m k w = Outcome.◌>>=◌ (m w) k

pub done : Write
done w = ok w

-- `if !test { return Err(e) }`
pub ensure : Bool → WireError → Write
ensure b e w = if b then ok w else err e

pub bytes : Bytes → Write
bytes value w =
    if leb (length w.written + length value) w.capacity
    then ok (record w { written = w.written ++ value })
    else err output_buffer_too_small

pub u8 : ℕ → Write
u8 value = bytes (value ∷ [])

abbrev pub u16 : ℕ → Write
u16 value = bytes (to_le_bytes 2 value)

abbrev pub u32 : ℕ → Write
u32 value = bytes (to_le_bytes 4 value)

abbrev pub u64 : ℕ → Write
u64 value = bytes (to_le_bytes 8 value)

script_prefix : ℕ → Write
script_prefix len =
    if ltb len extended_script_length
    then u8 (len % 256)
    else (do u8 extended_script_length; u16 len)

-- A length that passed the first test fits u16.
pub script : Bytes → Write
script value = do
  ensure (leb (length value) max_script_size) script_too_long
  script_prefix (length value)
  bytes value

-- `for index in i..i + n`
unfoldable pub for_range : ℕ → ℕ → (ℕ → Write) → Write
for_range zero i body = done
for_range (suc n) i body = body i >> for_range n (i + 1) body

-- `if let Some(value) = option`
unfoldable pub if_some {ℓ} : {A : Type ℓ} → Option A → (A → Write) → Write
if_some none body = done
if_some (some value) body = body value
