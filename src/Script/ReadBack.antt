-- ===== src/Script/ReadBack.antt =====
-- What a push writes is read back as one element.
use kaspa_portal.Base.{
  lt→ltb, ℕ, zero, suc, ◌+◌, ◌-◌, ◌<◌, ◌≤◌, ◌^◌, ◌≡◌, refl, sym, ap, ◌∙◌, inl, inr, true, false,
  some, [], ◌∷◌, ◌++◌, append_assoc, append-nil, length, length-append, take-append, drop-append,
  get_elem?, leb, le→leb, le_or_lt, arith,
}
use kaspa_portal.Base.Bytes.{
  Bytes, to_le_bytes, from_le_bytes, length-to_le_bytes, from_le_bytes-to_le_bytes,
}
use kaspa_portal.Base.Checked.{and_then, u64_mod}
use kaspa_portal.Base.Computes.{Gives-checked_add}
use kaspa_portal.Script.{
  Element, is_push, slice, little, read_header, read_data, read_element, push_prefix, push_data,
}

get_at : (s : Bytes) (x : ℕ) (r : Bytes) → get_elem? (s ++ (x ∷ r)) (length s) ≡ some x
get_at [] x r = refl
get_at (y ∷ s) x r = get_at s x r

get_after : (s : Bytes) (x y : ℕ) (r : Bytes) → get_elem? (s ++ (x ∷ y ∷ r)) (length s + 1) ≡ some y
get_after [] x y r = refl
get_after (z ∷ s) x y r =
    let one : suc (length s) + 1 ≡ suc (length s + 1) = omega arith in rw one (get_after s x y r)

slice_middle :
    (a b c : Bytes) (start end : ℕ)
    → start ≡ length a
    → end ≡ length a + length b
    → slice (a ++ (b ++ c)) start end ≡ some b
unfolding slice
slice_middle a b c start end hs he =
    let size : length a + length b - length a ≡ length b = omega arith in
    let total = length-append a (b ++ c) in
    let rest = length-append b c in
    rw
      (
        hs,
        he,
        le→leb (length a) (length a + length b) (omega arith),
        le→leb (length a + length b) (length (a ++ (b ++ c))) (omega (arith, total, rest)),
        size,
        drop-append a (b ++ c),
        take-append b c,
      )
      refl

-- the bytes behind the first one of a push
slice_field :
    (s : Bytes) (x : ℕ) (b c : Bytes) (end : ℕ)
    → end ≡ length s + 1 + length b
    → slice (s ++ (x ∷ b ++ c)) (length s + 1) end ≡ some b
slice_field s x b c end he =
    let one = length-append s (x ∷ []) in
    ap (λ l. slice l (length s + 1) end) (sym (append_assoc s (x ∷ []) (b ++ c)))
    ∙ slice_middle (s ++ (x ∷ [])) b c (length s + 1) end (omega arith) (omega arith)

over : (k n : ℕ) → k < n → leb n k ≡ false
over k n h = ground arith

module _ (script bytes : Bytes) where
  -- The element at the end of the script is the data, and ends where the new script does.
  pub record ReadsBack (pushed : Bytes) : Type 0 where
    pub element : Element
    pub read : read_element pushed (length script) ≡ some (element, length pushed)
    pub same : element.bytes ≡ bytes
    pub push : is_push element ≡ true

module _ (script bytes : Bytes) (fits : length script + 5 + length bytes < u64_mod) where
  read_pushed :
      (code : ℕ) (rest : Bytes)
      → code ≤ 0x4e
      → length rest ≤ 4
      → read_header code (script ++ ((code ∷ rest) ++ bytes)) (length script)
        ≡ some (suc (length rest), length bytes)
      → ReadsBack script bytes (script ++ ((code ∷ rest) ++ bytes))
  unfolding read_element read_data is_push
  read_pushed code rest low short header =
      let lens = length-append script ((code ∷ rest) ++ bytes) in
      let lens2 = length-append rest bytes in
      let lens3 = length-append script (code ∷ rest) in
      let start = (Gives-checked_add (length script) (suc (length rest))).complete (omega arith) in
      let end =
        (Gives-checked_add (length script + suc (length rest)) (length bytes)).complete
          (omega arith) in
      let behind =
        ap
          (λ l.
            slice l (length script + suc (length rest))
              (length script + suc (length rest) + length bytes))
          (sym (append_assoc script (code ∷ rest) bytes)
            ∙ ap (λ l. (script ++ (code ∷ rest)) ++ l) (sym (append-nil bytes)))
        ∙ slice_middle (script ++ (code ∷ rest)) bytes [] _ _ (omega arith) (omega arith) in
      let last : length script + suc (length rest) + length bytes
          ≡ length (script ++ ((code ∷ rest) ++ bytes)) =
        omega arith in
      record {
        element = record { opcode = code; bytes = bytes };
        read = rw (get_at script code (rest ++ bytes), header, start, end, behind, last) refl;
        same = refl;
        push = le→leb code 0x4e low;
      }

  short_header :
      (at : ℕ) (pushed : Bytes) (size : ℕ) → size ≤ 75 → read_header size pushed at ≡ some (1, size)
  unfolding read_header
  short_header at pushed zero h = refl
  short_header at pushed (suc size) h =
      rw (le→leb 1 (suc size) (omega arith), le→leb (suc size) 75 h) refl

  -- A length of n bytes behind the opcode.
  little-length :
      (n code : ℕ)
      → n ≤ 4
      → length bytes < 256 ^ n
      → and_then {B = ℕ × ℕ}
          (little n (script ++ (code ∷ to_le_bytes n (length bytes) ++ bytes)) (length script + 1))
          (λ size. some (n + 1, from_le_bytes size))
        ≡ some (n + 1, length bytes)
  unfolding little
  little-length n code small low =
      let sum = (Gives-checked_add (length script + 1) n).complete (omega arith) in
      let field =
        slice_field script code (to_le_bytes n (length bytes)) bytes (length script + 1 + n)
          (ap (λ k. length script + 1 + k) (sym (length-to_le_bytes n (length bytes)))) in
      rw (sum, field, from_le_bytes-to_le_bytes n (length bytes) low) refl

  -- Data of less than 2 ^ 32 bytes can be pushed onto a script, and the element that is then read at
  -- the end of the old script is a push of it, which ends where the new script ends; the offsets fit
  -- 64 bits.
  pub push_data-ReadsBack :
      length bytes < 4_294_967_296
      → (pushed : Bytes) × (push_data script bytes ≡ some pushed) × ReadsBack script bytes pushed
  unfolding push_data push_prefix read_header
  push_data-ReadsBack low = elim (le_or_lt (length bytes) 75) [
    | inl h ↦ (
      script ++ ((length bytes ∷ []) ++ bytes),
      rw (le→leb (length bytes) 75 h) refl,
      read_pushed (length bytes) [] (omega arith) (omega arith)
          (short_header (length script) _ (length bytes) h),
    )
    | inr h75 ↦ elim (le_or_lt (length bytes) 255) [
      | inl h ↦ (
        script ++ ((0x4c ∷ length bytes ∷ []) ++ bytes),
        rw (over 75 (length bytes) h75, le→leb (length bytes) 255 h) refl,
        read_pushed 0x4c (length bytes ∷ []) (omega arith) (omega arith)
            (rw (get_after script 0x4c (length bytes) bytes) refl),
      )
      | inr h255 ↦ elim (le_or_lt (length bytes) 65535) [
        | inl h ↦ (
          script ++ ((0x4d ∷ to_le_bytes 2 (length bytes)) ++ bytes),
          rw
              (
                over 75 (length bytes) h75,
                over 255 (length bytes) h255,
                le→leb (length bytes) 65535 h,
              )
              refl,
          read_pushed 0x4d (to_le_bytes 2 (length bytes)) (omega arith)
              (rw (length-to_le_bytes 2 (length bytes)) (omega arith))
              (rw (length-to_le_bytes 2 (length bytes))
                (little-length 2 0x4d (omega arith) (omega arith))),
        )
        | inr h ↦ (
          script ++ ((0x4e ∷ to_le_bytes 4 (length bytes)) ++ bytes),
          rw
              (
                over 75 (length bytes) h75,
                over 255 (length bytes) h255,
                over 65535 (length bytes) h,
                lt→ltb (length bytes) 4_294_967_296 low,
              )
              refl,
          read_pushed 0x4e (to_le_bytes 4 (length bytes)) (omega arith)
              (rw (length-to_le_bytes 4 (length bytes)) (omega arith))
              (rw (length-to_le_bytes 4 (length bytes))
                (little-length 4 0x4e (omega arith) (omega arith))),
        )
      ]
    ]
  ]
