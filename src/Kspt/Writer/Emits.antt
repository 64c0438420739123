-- ===== src/Kspt/Writer/Emits.antt =====
-- What a write does, as a triple: the bytes that it adds, and the condition under which it passes
-- its tests; with a rule for each way to build a write.
use kaspa_portal.Base.{
  ℕ, zero, suc, ◌+◌, ◌≤◌, ◌≡◌, refl, ap, ◌∙◌, Bool, true, false, [], ◌∷◌, ◌++◌, length,
  length-append, append_assoc, append-nil, arith, Bool-cases, inl, inr,
}
use kaspa_portal.Base.Bytes.{Bytes}
use kaspa_portal.Base.Outcome.{ok, bind-eq-ok}
use kaspa_portal.Kspt.Model.{WireError}
use kaspa_portal.Kspt.Writer
use kaspa_portal.Kspt.Writer.{Writer, Write, ◌>>◌}
use kaspa_portal.Kspt.Model.{extended_script_length, max_script_size}
use kaspa_portal.Base.{ltb, ◌%◌, tests, leb→le, le→leb}
use kaspa_portal.Base.Bytes.{to_le_bytes}
use kaspa_portal.Kspt.Grammar.Conforms.{Range}
use kaspa_portal.Kspt.Grammar.Trailer.{byte}
use kaspa_portal.Kspt.Grammar.{concat_range, script_len_bytes, script_bytes}

unfoldable pub extend : Writer → Bytes → Writer
extend w bs = record w { written = w.written ++ bs }

abbrev pub Fits : Writer → Bytes → Type 0
Fits w bs = length w.written + length bs ≤ w.capacity

pub record Emits (m : Write) (bs : Bytes) (P : Type 0) : Type 0 where
  pub sound : (w w' : Writer) → Fits w [] → m w ≡ ok w' → P × (w' ≡ extend w bs) × Fits w bs
  pub complete : (w : Writer) → P → Fits w bs → m w ≡ ok (extend w bs)

extend_nil : (w : Writer) → extend w [] ≡ w
unfolding extend
extend_nil w = ap (λ l. record w { written = l }) (append-nil w.written)

extend-extend : (w : Writer) (a b : Bytes) → extend (extend w a) b ≡ extend w (a ++ b)
unfolding extend
extend-extend w a b = ap (λ l. record w { written = l }) (append_assoc w.written a b)

Fits-left : (w : Writer) (a b : Bytes) → Fits w (a ++ b) → Fits w a
Fits-left w a b h = omega (arith, length-append a b)

Fits-extend : (w : Writer) (a b : Bytes) → Fits w (a ++ b) → Fits (extend w a) b
unfolding extend
Fits-extend w a b h = omega (arith, length-append a b, length-append w.written a)

Fits-start : (w : Writer) (a : Bytes) → Fits w a → Fits (extend w a) []
unfolding extend
Fits-start w a h = omega (arith, length-append w.written a)

Fits-append : (w : Writer) (a b : Bytes) → Fits (extend w a) b → Fits w (a ++ b)
unfolding extend
Fits-append w a b h = omega (arith, length-append a b, length-append w.written a)

pub Emits-done : Emits Writer.done [] (Unit {0})
unfolding Writer.done
Emits-done = record {
  sound = λ w w' z h. (tt, cc (h, extend_nil w), z);
  complete = λ w p f. ap ok (cc (extend_nil w));
}

pub Emits-ensure : (b : Bool) (e : WireError) → Emits (Writer.ensure b e) [] (b ≡ true)
unfolding Writer.ensure
Emits-ensure true e = record {
  sound = λ w w' z h. (refl, cc (h, extend_nil w), z);
  complete = λ w p f. ap ok (cc (extend_nil w));
}
Emits-ensure false e = record { sound = λ w w' z h. cc; complete = λ w p f. cc }

pub Emits-bytes : (bs : Bytes) → Emits (Writer.bytes bs) bs (Unit {0})
unfolding Writer.bytes extend
Emits-bytes bs = record {
  sound = λ w w' z h. (tt, ground arith, ground arith);
  complete = λ w p f. ground arith;
}

module _ {m k : Write} {a b : Bytes} {P Q : Type 0} where
  pub Emits->> : Emits m a P → Emits k b Q → Emits (m >> k) (a ++ b) (P × Q)
  Emits->> em ek = record {
    sound = λ w w' z h.
        let (v, hk, hv) = bind-eq-ok (m w) k h in
        let (p, ev, fa) = em.sound w v z hv in
        let (q, e, fb) = ek.sound (extend w a) w' (Fits-start w a fa) (rw ev at hk) in
        ((p, q), e ∙ extend-extend w a b, Fits-append w a b fb);
    complete = λ w p f. rw (
      em.complete w p.0 (Fits-left w a b f),
      ek.complete (extend w a) p.1 (Fits-extend w a b f),
      extend-extend,
    );
  }

module _ {m : Write} {a : Bytes} {P : Type 0} where
  -- What follows a test may rely on it.
  pub Emits-ensure_then :
      (b : Bool) (e : WireError)
      → (b ≡ true → Emits m a P)
      → Emits (Writer.ensure b e >> m) a ((b ≡ true) × P)
  unfolding Writer.ensure
  Emits-ensure_then true e h = Emits->> (Emits-ensure true e) (h refl)
  Emits-ensure_then false e h = record { sound = λ w w' z h. cc; complete = λ w p f. cc (p.0) }

module _ {m : Write} {a : Bytes} {P Q : Type 0} where
  -- The condition in other words.
  pub Emits_iff : Emits m a P → (P → Q) → (Q → P) → Emits m a Q
  Emits_iff em to from = record {
    sound = λ w w' z h. let (p, e, f) = em.sound w w' z h in (to p, e, f);
    complete = λ w q f. em.complete w (from q) f;
  }

pub Emits-for_range :
    (n i : ℕ) (body : ℕ → Write) (f : ℕ → Bytes) (P : ℕ → Type 0)
    → ((j : ℕ) → Emits (body j) (f j) (P j))
    → Emits (Writer.for_range n i body) (concat_range n i f) (Range n i P)
unfolding Writer.for_range concat_range
Emits-for_range zero i body f P h = Emits-done
Emits-for_range (suc n) i body f P h = Emits->> (h i) (Emits-for_range n (i + 1) body f P h)

pub Emits-u8 : (v : ℕ) → Emits (Writer.u8 v) (byte v) (Unit {0})
unfolding Writer.u8 byte
Emits-u8 v = Emits-bytes (v ∷ [])

as_u8 : (n : ℕ) → ltb n extended_script_length ≡ true → n % 256 ≡ n
as_u8 n h = omega tests

Emits-script_prefix : (n : ℕ) → Emits (Writer.script_prefix n) (script_len_bytes n) (Unit {0})
unfolding Writer.script_prefix script_len_bytes
Emits-script_prefix n = elim (Bool-cases (ltb n extended_script_length)) [
  | inl short ↦ rw (short, as_u8 n short) (Emits-u8 n)
  | inr long ↦ rw long (
      Emits_iff (Emits->> (Emits-u8 255) (Emits-bytes (to_le_bytes 2 n))) (λ _. tt) (λ _. (tt, tt)))
]

pub Emits-script :
    (v : Bytes) → Emits (Writer.script v) (script_bytes v) (length v ≤ max_script_size)
unfolding Writer.script script_bytes
Emits-script v =
    Emits_iff
      (Emits->> (Emits-ensure _ _) (Emits->> (Emits-script_prefix (length v)) (Emits-bytes v)))
      (λ p. leb→le _ _ p.0) (λ q. (le→leb _ _ q, (tt, tt)))

pub ruleset emit_rules = (Emits->>, Emits-ensure, Emits-bytes, Emits-u8, Emits-script, Emits-done)
