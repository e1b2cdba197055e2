-- ===== src/Codec/Floats.antt =====
-- Floats over registers: src/modbus_connection/encode.py and decode.py against `struct`.
use modbus_connection.Prelude.{ℕ, ◌*◌, ◌<◌, ◌≡◌, refl, List, length, All}
use modbus_connection.Const.{WordOrder}
use modbus_connection.Errors.{ok}
use modbus_connection.Codec.{ordered, words_of_bytes}
use modbus_connection.Codec.Words.{ordered-ordered}
use modbus_connection.Codec.Strings.{bytes_of_words-words_of_bytes}
use modbus_connection.Codec.Widths.{Format, decode_float, encode_float}

-- What `struct` documents of a format of `2 * n` bytes: a packed value is that many bytes, and is
-- unpacked to the value `near` it that the format can hold.
pub record Packs {F : Type 0} (format : Format F) (n : ℕ) (value near : F) : Type 0 where
  pub raw : List ℕ
  pub packed : format.pack value ≡ ok raw
  pub wide : length raw ≡ n * 2
  pub bytes : All (λ (b : ℕ). b < 256) raw
  pub unpacked : format.unpack raw ≡ ok near

-- A float that `struct` can pack is read back, in either word order, as the value that its format
-- holds for it.
pub decode_float-encode_float :
    {F : Type 0} (format : Format F) (n : ℕ) (value near : F) (order : WordOrder)
    → Packs format n value near
    → (ws : List ℕ) × (encode_float format value order ≡ ok ws)
      × (decode_float format ws order ≡ ok near)
unfolding encode_float decode_float
decode_float-encode_float format n value near order p =
    let ws = ordered order (words_of_bytes p.raw) in
    (
      ws,
      rw (p.packed) refl,
      rw
          (
            decode_float,
            ordered-ordered order (words_of_bytes p.raw),
            (bytes_of_words-words_of_bytes n p.raw p.wide p.bytes).0,
          )
          p.unpacked,
    )
