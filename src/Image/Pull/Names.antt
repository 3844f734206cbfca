-- ===== src/Image/Pull/Names.antt =====
-- The names that can be pulled against those that the session manager accepts.
use sandkasten.Base.{
  ◌≡◌, refl, ℕ, true, false, not, ◌&&◌, [], ◌∷◌, length, Bool-cases, inl, inr, ◌==◌, leb, arith,
}
use sandkasten.Base.Text.{Bytes, codes, str_eq, has_byte, has_prefix, contains}
use sandkasten.Session.{is_alnum, is_name_byte, all_bytes, matches_name, is_image_name_safe}
use sandkasten.Session.Images.{has_byte-matches_name}
use sandkasten.Image.Store.{is_pull_byte, matches_pull_name}

byte-dotless : (c : ℕ) → is_name_byte c ≡ (is_pull_byte c && not (c == b'.'))
unfolding is_name_byte is_alnum
byte-dotless c = ground arith

alnum-dotless : (c : ℕ) → is_alnum c ≡ true → (c == b'.') ≡ false
unfolding is_alnum
alnum-dotless c h = ground arith

-- Without a dot the two classes of bytes are one.
all_bytes-dotless :
    (s : Bytes) → all_bytes is_name_byte s ≡ (all_bytes is_pull_byte s && not (has_byte b'.' s))
unfolding all_bytes has_byte
all_bytes-dotless [] = refl
all_bytes-dotless (c ∷ s) = let ih = all_bytes-dotless s in let e = byte-dotless c in ground arith

contains-two : (s : Bytes) → has_byte b'.' s ≡ false → contains (codes "..") s ≡ false
unfolding contains has_prefix has_byte
contains-two [] h = refl
contains-two (c ∷ s) h = ground (arith, contains-two s)

matches-dotless : (s : Bytes) → matches_name s ≡ (matches_pull_name s && not (has_byte b'.' s))
unfolding matches_name matches_pull_name
matches-dotless [] = refl
matches-dotless (c ∷ s) = elim (Bool-cases (is_alnum c)) [
  | inl a ↦
      let e = all_bytes-dotless s in let d = alnum-dotless c a in unfold has_byte in ground arith
  | inr a ↦ rw a refl
]

matches-nonempty : (s : Bytes) → matches_name s ≡ true → str_eq s [] ≡ false
unfolding matches_name str_eq
matches-nonempty [] h = cc h
matches-nonempty (c ∷ s) h = refl

-- The manager accepts a name exactly if it can be pulled, holds no dot and is at most 64 bytes long.
pub is_image_name_safe-matches_pull_name :
    (s : Bytes)
    → is_image_name_safe s ≡ (matches_pull_name s && (not (has_byte b'.' s) && leb (length s) 64))
unfolding is_image_name_safe
is_image_name_safe-matches_pull_name s = elim (Bool-cases (matches_name s)) [
  | inl m ↦
      let two =
        contains-two s (has_byte-matches_name b'.' s (unfold is_name_byte is_alnum in refl) m) in
      let forward = has_byte-matches_name b'/' s (unfold is_name_byte is_alnum in refl) m in
      let back = has_byte-matches_name b'\\' s (unfold is_name_byte is_alnum in refl) m in
      let e = matches-dotless s in
      let nonempty : str_eq s [] ≡ false = matches-nonempty s m in ground arith
  | inr m ↦ let e = matches-dotless s in ground arith
]
