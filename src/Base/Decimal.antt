-- ===== src/Base/Decimal.antt =====
-- Numbers in decimal digits: fmt's %d, strconv.Itoa and strconv.Atoi.
use sandkasten.Base.Tests.{ltb, leb, ◌==◌, if◌then◌else◌, Bool-cases}
use sandkasten.Base.Lists.{length, length-append}
use sandkasten.Base.Int.{ℤ, pos, negsuc}
use sandkasten.Base.Text.{Bytes}
use Prim.Native.Nat.{ℕ, zero, suc, ◌+◌, ◌-◌, ◌*◌, ◌/◌, ◌%◌, ◌^◌, ◌≤◌}
use mathlib.Core.Path.{◌≡◌, refl, ◌∙◌}
use mathlib.Core.Logic.{inl, inr}
use mathlib.Core.Bool.{Bool, true, false, ◌&&◌}
use mathlib.Core.Option.{Option, none, some}
use mathlib.Core.List.{[], ◌∷◌, ◌++◌, append_assoc}
use native.Mathlib.Omega.{arith}

abbrev pub is_digit : ℕ → Bool
is_digit c = leb b'0' c && leb c b'9'

-- The digits of a number, on fuel that the number itself suffices for.
unfoldable pub digits : ℕ → ℕ → Bytes
digits zero n = (n % 10 + b'0') ∷ []
digits (suc fuel) n =
    let front = digits fuel (n / 10) in
    if ltb n 10 then (n + b'0') ∷ [] else front ++ (n % 10 + b'0') ∷ []

unfoldable pub decimal : ℕ → Bytes
unfolding digits
decimal n = digits n n

-- %d
unfoldable pub show_int : ℤ → Bytes
unfolding decimal
show_int (pos n) = decimal n
show_int (negsuc n) = b'-' ∷ decimal (suc n)

-- The number that the leading digits make, behind what was read of it.
unfoldable pub digits_value : ℕ → Bytes → ℕ
digits_value n [] = n
digits_value n (c ∷ s) =
    let rest = digits_value (n * 10 + (c - b'0')) s in if is_digit c then rest else n

-- A number in an int, if it fits.
abbrev pub fitting : Bool → ℕ → Option ℤ
fitting false n = if ltb n (2 ^ 63) then some (pos n) else none
fitting true zero = some (pos 0)
fitting true (suc n) = if ltb n (2 ^ 63) then some (negsuc n) else none

unfoldable pub all_digits : Bytes → Bool
all_digits [] = true
all_digits (c ∷ s) = is_digit c && all_digits s

abbrev whole_number : Bool → Bytes → Option ℤ
whole_number minus [] = none
whole_number minus (c ∷ s) =
    if all_digits (c ∷ s) then fitting minus (digits_value 0 (c ∷ s)) else none

-- strconv.Atoi: a sign and digits, nothing else, or an error.
unfoldable pub atoi : Bytes → Option ℤ
unfolding all_digits digits_value
atoi [] = none
atoi (c ∷ s) =
    if c == b'-'
    then whole_number true s
    else (if c == b'+' then whole_number false s else whole_number false (c ∷ s))

-- What does not go on with a digit.
abbrev pub ends_digits : Bytes → Bool
ends_digits [] = true
ends_digits (c ∷ s) = if is_digit c then false else true

digits_value-end : (n : ℕ) (s : Bytes) → ends_digits s ≡ true → digits_value n s ≡ n
unfolding digits_value
digits_value-end n [] h = refl
digits_value-end n (c ∷ s) h = ground arith

-- Reading goes on behind a number's digits: what is read before them moves up, and the number is added.
abbrev place : ℕ → ℕ → ℕ
place zero n = 10
place (suc fuel) n = if ltb n 10 then 10 else place fuel (n / 10) * 10

digit_step :
    (q n : ℕ) (s : Bytes)
    → digits_value (q + n / 10) ((n % 10 + b'0') ∷ s) ≡ digits_value (q * 10 + n) s
unfolding digits_value
digit_step q n s =
    let d : is_digit (n % 10 + 48) ≡ true = ground arith in
    let e : (q + n / 10) * 10 + (n % 10 + 48 - 48) ≡ q * 10 + n = omega arith in rw (d, e) refl

digits_value-digits :
    (fuel n m : ℕ) (s : Bytes)
    → n ≤ fuel
    → digits_value m (digits fuel n ++ s) ≡ digits_value (m * place fuel n + n) s
unfolding digits digits_value
digits_value-digits zero n m s h = ground arith
digits_value-digits (suc fuel) n m s h = elim (Bool-cases (ltb n 10)) [
  | inl e ↦ rw e (ground arith)
  | inr e ↦
      let sep : m * (place fuel (n / 10) * 10) ≡ m * place fuel (n / 10) * 10 = grind arith in
      rw e (
        rw (append_assoc, sep)
          (digits_value-digits fuel (n / 10) m ((n % 10 + b'0') ∷ s) (omega arith)
            ∙ digit_step (m * place fuel (n / 10)) n s))
]

pub digits_value-decimal :
    (n : ℕ) (s : Bytes) → ends_digits s ≡ true → digits_value 0 (decimal n ++ s) ≡ n
unfolding decimal
digits_value-decimal n s h =
    let e : 0 * place n n + n ≡ n = omega arith in
    digits_value-digits n n 0 s (omega arith) ∙ rw e (digits_value-end n s h)

all_digits-append :
    (s t : Bytes) → all_digits s ≡ true → all_digits t ≡ true → all_digits (s ++ t) ≡ true
unfolding all_digits
all_digits-append [] t h k = k
all_digits-append (c ∷ s) t h k = ground (arith, all_digits-append s t)

all_digits-digits : (fuel n : ℕ) → n ≤ fuel → all_digits (digits fuel n) ≡ true
unfolding digits all_digits
all_digits-digits zero n h = ground arith
all_digits-digits (suc fuel) n h = elim (Bool-cases (ltb n 10)) [
  | inl e ↦ rw e (ground arith)
  | inr e ↦ rw e (
      all_digits-append (digits fuel (n / 10)) ((n % 10 + b'0') ∷ [])
        (all_digits-digits fuel (n / 10) (omega arith)) (ground arith))
]

pub all_digits-decimal : (n : ℕ) → all_digits (decimal n) ≡ true
unfolding decimal
all_digits-decimal n = all_digits-digits n n (omega arith)

digits-length : (fuel n : ℕ) → 1 ≤ length (digits fuel n)
unfolding digits
digits-length zero n = omega arith
digits-length (suc fuel) n = elim (Bool-cases (ltb n 10)) [
  | inl e ↦ rw e (omega arith)
  | inr e ↦ rw e (rw length-append (omega arith))
]

pub decimal-length : (n : ℕ) → 1 ≤ length (decimal n)
unfolding decimal
decimal-length n = digits-length n n
