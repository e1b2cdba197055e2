-- ===== src/Fields/Packed/Merging.antt =====
-- What a write of some bits of a register (src/modbus_connection/model/fields.py) keeps of the others.
use modbus_connection.Prelude.{
  ℕ, ◌+◌, ◌-◌, ◌*◌, ◌/◌, ◌%◌, ◌^◌, ◌≤◌, ◌<◌, ◌≡◌, refl, sym, ap, ◌∙◌, ◌⊎◌, inl, inr, [], ◌∷◌, false,
  arith, ltb, ℤ, pos, negsuc, Bool-cases,
}
use modbus_connection.Errors.{ok, err, value_error}
use modbus_connection.Fields.Packed.{
  PackedBitsField, bits_of, put_bits, merge_packed, decode_packed,
}
use modbus_connection.Fields.Packed.Words.{
  parts, high_of, mid_of, low_of, parts_lem, low-lt, put-parts, bits-parts, bits_lem, below_at,
  above_at, parts-lt,
}

module _ {V : Type 0} (f : PackedBitsField V) (w raw : ℕ) (fits : raw < 2 ^ f.width) where
  put_lem :
      put_bits f w raw
      ≡ parts f.start f.width (high_of f.start f.width w) raw (low_of f.start f.width w)
  unfolding put_bits
  put_lem = put-parts f.start f.width w raw fits

  -- The bits that were put are read back.
  bits_of-put_bits : bits_of f (put_bits f w raw) ≡ raw
  unfolding bits_of
  bits_of-put_bits = rw put_lem (
      bits-parts f.start f.width (high_of f.start f.width w) raw (low_of f.start f.width w) fits
        (low-lt f.start f.width w))

  -- A field whose bits all stand below, or all above, is not touched.
  bits_of-put_bits_above :
      (g : PackedBitsField V)
      → f.start + f.width ≤ g.start
      → bits_of g (put_bits f w raw) ≡ bits_of g w
  unfolding bits_of
  bits_of-put_bits_above g h =
      rw
        (
          bits_lem g.start g.width (put_bits f w raw),
          bits_lem g.start g.width w,
          put_lem,
          above_at f.start f.width g.start (g.start - (f.start + f.width)) w raw (omega arith) fits,
        )
        refl

  bits_of-put_bits_below :
      (g : PackedBitsField V)
      → g.start + g.width ≤ f.start
      → bits_of g (put_bits f w raw) ≡ bits_of g w
  unfolding bits_of
  bits_of-put_bits_below g h =
      let low = low_of f.start f.width w in
      let d = f.start - (g.start + g.width) in
      let at = λ (q : ℕ).
        below_at f.start g.start g.width d q low (omega arith) (low-lt f.start f.width w) in
      rw (bits_lem g.start g.width (put_bits f w raw), bits_lem g.start g.width w, put_lem)
        (at (high_of f.start f.width w * 2 ^ f.width + raw)
          ∙ sym (at (high_of f.start f.width w * 2 ^ f.width + mid_of f.start f.width w))
          ∙ ap (λ (x : ℕ). x / 2 ^ g.start % 2 ^ g.width) (sym (parts_lem f.start f.width w)))

  put_bits-lt : f.start + f.width ≤ 16 → w < 65536 → put_bits f w raw < 65536
  put_bits-lt narrow word =
      rw put_lem
        (parts-lt 16 f.start f.width (16 - (f.start + f.width)) w raw (omega arith) fits word)

-- The fields share no bit.
abbrev pub Apart : {V : Type 0} → PackedBitsField V → PackedBitsField V → Type 0
Apart f g = (g.start + g.width ≤ f.start) ⊎ (f.start + f.width ≤ g.start)

-- The value is negative or needs more bits.
abbrev pub TooWide : ℕ → ℤ → Type 0
TooWide width (pos raw) = 2 ^ width ≤ raw
TooWide width (negsuc n) = Unit

-- Merging a value into a word either raises `ValueError`, where the value does not fit the field's
-- bits, or gives a word of 16 bits in which the field reads as the value; for a field inside 16 bits.
pub merge_packed_cases :
    {V : Type 0} (f : PackedBitsField V) (w : ℕ) (v : ℤ)
    → f.start + f.width ≤ 16
    → w < 65536
    → ((raw : ℕ) × (word : ℕ) × (v ≡ pos raw)
        × (raw < 2 ^ f.width)
        × (merge_packed f w v ≡ ok word)
        × (word < 65536)
        × (decode_packed f (word ∷ []) ≡ ok raw))
      ⊎ (TooWide f.width v × (merge_packed f w v ≡ err value_error))
unfolding merge_packed decode_packed
merge_packed_cases f w (negsuc n) narrow word = inr (tt, refl)
merge_packed_cases f w (pos raw) narrow word = elim (Bool-cases (ltb raw (2 ^ f.width))) [
  | inl e ↦
      let fits : raw < 2 ^ f.width = ground arith in
      inl (
        raw,
        put_bits f w raw,
        refl,
        fits,
        rw e refl,
        put_bits-lt f w raw fits narrow word,
        ap ok (bits_of-put_bits f w raw fits),
      )
  | inr e ↦ inr ((ground (arith, e)), rw e refl)
]

-- A merge into one field leaves the value of every field that shares no bit with it.
pub merge_packed-Apart :
    {V : Type 0} (f g : PackedBitsField V) (w : ℕ) (v : ℤ) (word : ℕ)
    → Apart f g
    → merge_packed f w v ≡ ok word
    → decode_packed g (word ∷ []) ≡ decode_packed g (w ∷ [])
unfolding merge_packed decode_packed
merge_packed-Apart f g w (negsuc n) word a h = cc
merge_packed-Apart f g w (pos raw) word a h = elim (Bool-cases (ltb raw (2 ^ f.width))) [
  | inl e ↦
      let fits : raw < 2 ^ f.width = ground arith in
      let same : word ≡ put_bits f w raw = ground (arith, h, e) in
      rw same (
        ap ok (elim a [
          | inl k ↦ bits_of-put_bits_below f w raw fits g k
          | inr k ↦ bits_of-put_bits_above f w raw fits g k
        ]))
  | inr e ↦ absurd (refused raw word e h)
]
  where
    refused :
        (raw word : ℕ) → ltb raw (2 ^ f.width) ≡ false → merge_packed f w (pos raw) ≡ ok word → ⊥
    refused raw word e h = ground (arith, e, h)
