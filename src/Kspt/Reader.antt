-- ===== src/Kspt/Reader.antt =====
-- `Reader` of wire/io.rs: it is the part of its data that is not read yet: `pos` never passes the end,
-- so `pos + count` overflows only where `count` is more than what remains, with the same error.
pub mod Parses
pub mod Shrinks
pub mod Yields
use kaspa_portal.Base.{ℕ, Bool, [], ◌∷◌, length, take, drop, leb, ◌==◌, if◌then◌else◌}
use kaspa_portal.Base.Bytes.{Bytes, from_le_bytes}
use kaspa_portal.Base.Outcome.{Result, ok, err}
use kaspa_portal.Kspt.Model.{
  WireError, buffer_too_short, script_too_long, non_canonical_encoding, extended_script_length,
  max_script_size,
}

abbrev pub Reader : Type 0 → Type 0
Reader A = Bytes → Result WireError (A × Bytes)

abbrev pub continue :
    {A B : Type 0} → Result WireError (A × Bytes) → (A → Reader B) → Result WireError (B × Bytes)
continue (ok (a, rest)) f = f a rest
continue (err e) f = err e

infixl 5 ◌>>=◌ ◌>>◌
abbrev pub ◌>>=◌ : {A B : Type 0} → Reader A → (A → Reader B) → Reader B
◌>>=◌ m f bs = continue (m bs) f

abbrev pub ◌>>◌ : {A B : Type 0} → Reader A → Reader B → Reader B
m >> k = m >>= λ _. k

pub pure : {A : Type 0} → A → Reader A
pure a bs = ok (a, bs)

-- `return Err(e)`
pub reject : {A : Type 0} → WireError → Reader A
reject e bs = err e

-- `if !test { return Err(e) }`
unfoldable pub ensure : Bool → WireError → Reader (Unit {0})
ensure b e bs = if b then ok (tt, bs) else err e

pub bytes : ℕ → Reader Bytes
bytes count bs =
    if leb count (length bs) then ok (take count bs, drop count bs) else err buffer_too_short

-- `bytes(1)?[0]`
pub u8 : Reader ℕ
u8 [] = err buffer_too_short
u8 (b ∷ bs) = ok (b, bs)

-- the little-endian word of `array::<N>()`
pub word : ℕ → Reader ℕ
word n = do b ← bytes n; pure (from_le_bytes b)

abbrev pub u16 : Reader ℕ
u16 = word 2

abbrev pub u32 : Reader ℕ
u32 = word 4

abbrev pub u64 : Reader ℕ
u64 = word 8

script_len : ℕ → Reader ℕ
script_len prefix =
    if prefix == extended_script_length
    then (do
      len ← u16
      -- Lengths below the marker have exactly one encoding: the short form.
      ensure (leb extended_script_length len) non_canonical_encoding
      pure len)
    else pure prefix

pub script : Reader Bytes
script = do
  prefix ← u8
  len ← script_len prefix
  ensure (leb len max_script_size) script_too_long
  bytes len
