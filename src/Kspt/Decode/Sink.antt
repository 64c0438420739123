-- ===== src/Kspt/Decode/Sink.antt =====
-- `DecodeSink` of wire/decode.rs, and the state of a decoder: what is left to read, and the sink.
pub mod Delivers
pub mod Ends
pub mod Runs
pub mod Log
use kaspa_portal.Base.{ℕ}
use kaspa_portal.Base.Bytes.{Bytes}
use kaspa_portal.Base.Outcome.{Result, ok, err}
use kaspa_portal.Kspt.Model.{
  WireError, DecodeError, wire, refused, Global, Input, Signature, Output, Derivation,
  Ms45Derivation, CovenantExecution,
}
use kaspa_portal.Kspt.Reader.{Reader}

-- A method of the sink takes `&mut self` and returns `Result<(), Self::Error>`.
abbrev pub Method : Type 0 → Type 0 → Type 0
Method E S = S → Result E (Unit {0}) × S

pub record DecodeSink (E S : Type 0) : Type 0 where
  pub global : Global → Method E S
  pub input : ℕ → Input → ℕ → Method E S
  pub signature : ℕ → ℕ → Signature → Method E S
  pub redeem : ℕ → Bytes → Method E S
  pub output : ℕ → Output → Method E S
  pub network : ℕ → Method E S
  pub stealth : Bytes → Method E S
  pub input_derivation : ℕ → Derivation → Method E S
  pub output_derivation : ℕ → Derivation → Method E S
  pub input_ms45 : ℕ → Ms45Derivation → Method E S
  pub output_ms45 : ℕ → Ms45Derivation → Method E S
  pub covenant : ℕ → ℕ → Bytes → Method E S
  pub covenant_execution : ℕ → CovenantExecution → Method E S

-- The sink keeps what it received before a failure. `stuck` is no outcome of the source.
pub data Outcome (E S A : Type 0) : Type 0 where
  done : A → Bytes → S → Outcome E S A
  failed : DecodeError E → S → Outcome E S A
  stuck : Outcome E S A

abbrev pub Decoder : Type 0 → Type 0 → Type 0 → Type 0
Decoder E S A = Bytes → S → Outcome E S A

abbrev pub continue : {E S A B : Type 0} → Outcome E S A → (A → Decoder E S B) → Outcome E S B
continue (done a rest s) f = f a rest s
continue (failed e s) f = failed e s
continue stuck f = stuck

infixl 5 ◌>>=◌ ◌>>◌
abbrev pub ◌>>=◌ : {E S A B : Type 0} → Decoder E S A → (A → Decoder E S B) → Decoder E S B
◌>>=◌ m f bs s = continue (m bs s) f

abbrev pub ◌>>◌ : {E S A B : Type 0} → Decoder E S A → Decoder E S B → Decoder E S B
m >> k = m >>= λ _. k

unfoldable pub pure : {E S A : Type 0} → A → Decoder E S A
pure a bs s = done a bs s

pub read : {E S A : Type 0} → Result WireError (A × Bytes) → S → Outcome E S A
read (ok (a, rest)) s = done a rest s
read (err e) s = failed (wire e) s

-- `?` on a WireError
unfoldable pub lift : {E S A : Type 0} → Reader A → Decoder E S A
unfolding read
lift m bs s = read (m bs) s

unfoldable pub answered :
    {E S A : Type 0} → Result E (Unit {0}) → S → (S → Outcome E S A) → Outcome E S A
answered (ok u) s k = k s
answered (err e) s k = failed (refused e) s

-- `.map_err(DecodeError::Sink)?` on a method of the sink
pub call : {E S : Type 0} → Method E S → Decoder E S (Unit {0})
unfolding answered
call method bs s = let (r, s') = method s in answered r s' (λ t. done tt bs t)
