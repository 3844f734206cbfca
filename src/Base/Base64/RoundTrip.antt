-- ===== src/Base/Base64/RoundTrip.antt =====
-- What is encoded is decoded again.
use sandkasten.Base.Tests.{◌==◌}
use sandkasten.Base.Lists.{All, length}
use sandkasten.Base.Base64.{
  digit, encode, digit_value, decode_quanta, is_line_end, without_line_ends, decode,
}
use Prim.Native.Nat.{ℕ, ◌+◌, ◌*◌, ◌/◌, ◌%◌, ◌<◌}
use mathlib.Core.Path.{◌≡◌, refl}
use mathlib.Core.Bool.{false}
use mathlib.Core.Option.{some}
use mathlib.Core.List.{List, [], ◌∷◌}
use native.Mathlib.Omega.{arith}

digit_value-digit : (n : ℕ) → n < 64 → digit_value (digit n) ≡ some n
unfolding digit_value digit
digit_value-digit n h = ground arith

digit_kept : (n : ℕ) → n < 64 → is_line_end (digit n) ≡ false
unfolding digit
digit_kept n h = ground arith

digit_unpadded : (n : ℕ) → n < 64 → (digit n == b'=') ≡ false
unfolding digit
digit_unpadded n h = ground arith

without_line_ends-encode :
    (s : List ℕ) → All (λ b. b < 256) s → without_line_ends (encode s) ≡ encode s
unfolding without_line_ends encode
without_line_ends-encode [] h = refl
without_line_ends-encode (a ∷ []) (ha, _) =
    rw (digit_kept (a / 4) (omega arith), digit_kept (a % 4 * 16) (omega arith)) refl
without_line_ends-encode (a ∷ b ∷ []) (ha, (hb, _)) =
    rw
      (
        digit_kept (a / 4) (omega arith),
        digit_kept (a % 4 * 16 + b / 16) (omega arith),
        digit_kept (b % 16 * 4) (omega arith),
      )
      refl
without_line_ends-encode (a ∷ b ∷ c ∷ s) (ha, (hb, (hc, h))) =
    rw
      (
        digit_kept (a / 4) (omega arith),
        digit_kept (a % 4 * 16 + b / 16) (omega arith),
        digit_kept (b % 16 * 4 + c / 64) (omega arith),
        digit_kept (c % 64) (omega arith),
        without_line_ends-encode s h,
      )
      refl

first_byte : (a b : ℕ) → a < 256 → b < 256 → a / 4 * 4 + (a % 4 * 16 + b / 16) / 16 ≡ a
first_byte a b ha hb = omega arith

second_byte :
    (a b c : ℕ)
    → b < 256
    → c < 256
    → (a % 4 * 16 + b / 16) % 16 * 16 + (b % 16 * 4 + c / 64) / 4 ≡ b
second_byte a b c hb hc = omega arith

third_byte : (b c : ℕ) → c < 256 → (b % 16 * 4 + c / 64) % 4 * 64 + c % 64 ≡ c
third_byte b c hc = omega arith

decode_quanta-encode : (s : List ℕ) → All (λ b. b < 256) s → decode_quanta (encode s) ≡ some s
unfolding decode_quanta encode
decode_quanta-encode [] h = refl
decode_quanta-encode (a ∷ []) (ha, _) =
    let e : a / 4 * 4 + a % 4 * 16 / 16 ≡ a = omega arith in
    rw (digit_value-digit (a / 4) (omega arith), digit_value-digit (a % 4 * 16) (omega arith), e)
      refl
decode_quanta-encode (a ∷ b ∷ []) (ha, (hb, _)) =
    let e : (a % 4 * 16 + b / 16) % 16 * 16 + b % 16 * 4 / 4 ≡ b = omega arith in
    rw
      (
        digit_unpadded (b % 16 * 4) (omega arith),
        digit_value-digit (a / 4) (omega arith),
        digit_value-digit (a % 4 * 16 + b / 16) (omega arith),
        digit_value-digit (b % 16 * 4) (omega arith),
        first_byte a b ha hb,
        e,
      )
      refl
decode_quanta-encode (a ∷ b ∷ c ∷ s) (ha, (hb, (hc, h))) =
    rw
      (
        digit_unpadded (c % 64) (omega arith),
        digit_value-digit (a / 4) (omega arith),
        digit_value-digit (a % 4 * 16 + b / 16) (omega arith),
        digit_value-digit (b % 16 * 4 + c / 64) (omega arith),
        digit_value-digit (c % 64) (omega arith),
        decode_quanta-encode s h,
        first_byte a b ha hb,
        second_byte a b c hb hc,
        third_byte b c hc,
      )
      refl

pub decode-encode : (s : List ℕ) → All (λ b. b < 256) s → decode (encode s) ≡ some s
unfolding decode
decode-encode s h = rw (without_line_ends-encode s h) (decode_quanta-encode s h)

-- Three bytes make four digits, the last ones padded.
pub length-encode : (s : List ℕ) → length (encode s) ≡ 4 * ((length s + 2) / 3)
unfolding encode
length-encode [] = omega arith
length-encode (a ∷ []) = omega arith
length-encode (a ∷ b ∷ []) = omega arith
length-encode (a ∷ b ∷ c ∷ s) = omega (arith, length-encode s)
