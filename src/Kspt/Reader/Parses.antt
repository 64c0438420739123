-- ===== src/Kspt/Reader/Parses.antt =====
-- What a reader takes from the front of its data, whatever follows, with a rule for each way to build
-- a reader.
use kaspa_portal.Base.{
  ℕ, ◌≤◌, ◌<◌, ◌^◌, ◌≡◌, refl, Bool, true, false, [], ◌++◌, length, length-append, take-append,
  drop-append, append_assoc, arith, ltb, leb, le→leb, ltb→lt, ◌==◌, Bool-cases, inl, inr,
}
use kaspa_portal.Base.Bytes.{Bytes, to_le_bytes, length-to_le_bytes, from_le_bytes-to_le_bytes}
use kaspa_portal.Base.Outcome.{ok}
use kaspa_portal.Kspt.Model.{WireError, script_too_long, extended_script_length, max_script_size}
use kaspa_portal.Kspt.Reader.{
  Reader, ◌>>=◌, ◌>>◌, pure, ensure, bytes, u8, word, script_len, script,
}
use kaspa_portal.Kspt.Grammar.{script_len_bytes, script_bytes}
use kaspa_portal.Kspt.Grammar.Trailer.{byte}

-- `m` reads `a` from `bs`, and leaves what follows.
pub record Parses {A : Type 0} (m : Reader A) (bs : Bytes) (a : A) : Type 0 where
  pub before : (rest : Bytes) → m (bs ++ rest) ≡ ok (a, rest)

pub Parses-pure : {A : Type 0} (a : A) → Parses (pure a) [] a
unfolding pure
Parses-pure a = record { before = λ rest. refl }

module _ {A B : Type 0} {m : Reader A} (f : A → Reader B) {x : Bytes} {a : A} {b : B} where
  pub Parses->>= : {y : Bytes} → Parses m x a → Parses (f a) y b → Parses (m >>= f) (x ++ y) b
  Parses->>= {y} hm hf = record {
    before = λ rest. rw (append_assoc x y rest, hm.before (y ++ rest)) (hf.before rest);
  }

  -- The last step of a reader that takes no more bytes.
  pub Parses->>=_last : Parses m x a → Parses (f a) [] b → Parses (m >>= f) x b
  Parses->>=_last hm hf = record { before = λ rest. rw (hm.before rest) (hf.before rest) }

module _ {B : Type 0} (c : Bool) (e : WireError) {k : Reader B} {y : Bytes} {b : B} where
  pub Parses-ensure : c ≡ true → Parses k y b → Parses (ensure c e >> k) y b
  unfolding ensure
  Parses-ensure h hk = record { before = λ rest. rw h (hk.before rest) }

pub Parses-test : (c : Bool) (e : WireError) → c ≡ true → Parses (ensure c e) [] tt
unfolding ensure
Parses-test c e h = record { before = λ rest. rw h }

pub Parses-bytes : (bs : Bytes) (n : ℕ) → length bs ≡ n → Parses (bytes n) bs bs
unfolding bytes
Parses-bytes bs n h = record {
  before = λ rest. rw (
    ← h,
    le→leb (length bs) (length (bs ++ rest)) (omega (arith, length-append bs rest)),
    take-append,
    drop-append,
  );
}

pub Parses-u8 : (v : ℕ) → Parses u8 (byte v) v
unfolding u8 byte
Parses-u8 v = record { before = λ rest. refl }

pub Parses-word : (n v : ℕ) → v < 256 ^ n → Parses (word n) (to_le_bytes n v) v
unfolding word pure
Parses-word n v h = record {
  before = λ rest. rw (
    (Parses-bytes (to_le_bytes n v) n (length-to_le_bytes n v)).before rest,
    from_le_bytes-to_le_bytes n v h,
  );
}

-- A length behind its prefix byte.
long_len : (n : ℕ) → 255 ≤ n → n ≤ max_script_size → Parses (script_len 255) (to_le_bytes 2 n) n
unfolding script_len
long_len n lo hi =
    Parses->>=_last _ (Parses-word 2 n (omega arith))
      (Parses-ensure _ _ (le→leb _ _ lo) (Parses-pure n))

short_len : (n : ℕ) → n < 255 → Parses (script_len n) [] n
unfolding script_len
short_len n h = rw (ne n h) (Parses-pure n)
  where
    ne : (n : ℕ) → n < 255 → (n == 255) ≡ false
    ne n h = ground arith

pub Parses-script : (v : Bytes) → length v ≤ max_script_size → Parses script (script_bytes v) v
unfolding script script_bytes script_len_bytes
Parses-script v h = elim (Bool-cases (ltb (length v) extended_script_length)) [
  | inl short ↦
      rw short (Parses->>= _ (Parses-u8 _) (Parses->>= _ (short_len _ (ltb→lt _ _ short)) tail))
  | inr long ↦
      rw (long, append_assoc)
        (Parses->>= _ (Parses-u8 _) (Parses->>= _ (long_len _ (ground arith) h) tail))
]
  where
    tail : Parses (ensure (leb (length v) max_script_size) script_too_long >> bytes (length v)) v v
    tail = Parses-ensure _ _ (le→leb _ _ h) (Parses-bytes v _ refl)
