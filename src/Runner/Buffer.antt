-- ===== src/Runner/Buffer.antt =====
-- The buffer of terminal output (cmd/runner/helpers.go): what it keeps of what was written.
use sandkasten.Base.{
  ℕ, ◌+◌, ◌-◌, ◌≤◌, ◌≡◌, refl, ap, List, [], ◌∷◌, ◌++◌, length, drop, ltb, append_assoc, append-nil,
  length-append, length-drop, arith, Bool-cases, inl, inr, zero, suc,
}
use sandkasten.Base.Text.{Bytes}
use sandkasten.Runner.{RingBuffer, last_bytes, write_buffer}

pub write_all : RingBuffer → List Bytes → RingBuffer
write_all rb [] = rb
write_all rb (p ∷ ps) = write_all (write_buffer rb p) ps

unfoldable pub join_all : List Bytes → Bytes
join_all [] = []
join_all (p ∷ ps) = p ++ join_all ps

drop-append : (n : ℕ) (s t : Bytes) → n ≤ length s → drop n (s ++ t) ≡ drop n s ++ t
drop-append zero s t h = refl
drop-append (suc n) [] t h = absurd (omega arith)
drop-append (suc n) (c ∷ s) t h = drop-append n s t (omega arith)

drop-nil : (n : ℕ) → drop {A = ℕ} n [] ≡ []
drop-nil zero = refl
drop-nil (suc n) = refl

drop-drop : (m n : ℕ) (s : Bytes) → drop m (drop n s) ≡ drop (n + m) s
drop-drop m zero s = let e : 0 + m ≡ m = omega arith in rw e refl
drop-drop m (suc n) [] = let e : suc n + m ≡ suc (n + m) = omega arith in rw e (drop-nil m)
drop-drop m (suc n) (c ∷ s) =
    let e : suc n + m ≡ suc (n + m) = omega arith in rw e (drop-drop m n s)

last_bytes-drop : (n : ℕ) (s : Bytes) → last_bytes n s ≡ drop (length s - n) s
unfolding last_bytes
last_bytes-drop n s = elim (Bool-cases (ltb n (length s))) [
  | inl e ↦ rw e refl
  | inr e ↦ let z : length s - n ≡ 0 = ground arith in rw (e, z) refl
]

length-last_bytes : (n : ℕ) (s : Bytes) → length (last_bytes n s) ≤ n
length-last_bytes n s = omega (arith, length-drop (length s - n) s, ap length (last_bytes-drop n s))

-- Cutting early changes nothing: only the last bytes count.
last_bytes-append :
    (n : ℕ) (s t : Bytes) → last_bytes n (last_bytes n s ++ t) ≡ last_bytes n (s ++ t)
last_bytes-append n s t =
    let k : ℕ = length s - n in
    let len : length (drop k s ++ t) ≡ length s - k + length t =
      omega (arith, length-append (drop k s) t, length-drop k s) in
    let whole : length (s ++ t) ≡ length s + length t = length-append s t in
    let shorter : k + (length s - k + length t - n) ≡ length s + length t - n = omega arith in
    let fits : k ≤ length s = omega arith in
    rw
      (
        last_bytes-drop n s,
        last_bytes-drop n (drop k s ++ t),
        last_bytes-drop n (s ++ t),
        len,
        whole,
      )
      (rw (← drop-append k s t fits, drop-drop (length s - k + length t - n) k (s ++ t), shorter)
        refl)

-- However the terminal's output comes in pieces, the buffer holds the end of all that was written
-- since it was emptied, as much as fits, and never more than its capacity.
pub content-write_all :
    (rb : RingBuffer) (s : Bytes) (ps : List Bytes)
    → rb.content ≡ last_bytes rb.capacity s
    → ((write_all rb ps).content ≡ last_bytes rb.capacity (s ++ join_all ps))
      × (length (write_all rb ps).content ≤ rb.capacity)
unfolding write_all join_all write_buffer
content-write_all rb s [] h = (rw append-nil h, rw h (length-last_bytes rb.capacity s))
content-write_all rb s (p ∷ ps) h =
    rw (← append_assoc s p (join_all ps))
      (content-write_all (write_buffer rb p) (s ++ p) ps (rw h (last_bytes-append rb.capacity s p)))
