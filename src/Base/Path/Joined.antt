-- ===== src/Base/Path/Joined.antt =====
-- Clean, Join and Dir on absolute paths that are made of plain elements.
use sandkasten.Base.Tests.{◌==◌}
use sandkasten.Base.Lists.{All, All-append}
use sandkasten.Base.Text.{Bytes, str_eq, has_byte}
use sandkasten.Base.Path.{
  slash, split, keep_element, keep_elements, slashed, render_rooted, is_abs, clean, join,
  up_to_slash, dir,
}
use sandkasten.Base.Path.Rooted.{IsPlain}
use mathlib.Core.Path.{◌≡◌, refl, sym, ap, ◌∙◌}
use mathlib.Core.Bool.{true, false}
use mathlib.Core.List.{
  List, [], ◌∷◌, ◌++◌, reverse, reverse-cons, reverse-reverse, append_assoc, append-nil,
}
use native.Mathlib.Omega.{arith}

-- Splitting at a slash.
split-append :
    (c rest : Bytes)
    → has_byte slash c ≡ false
    → split slash (c ++ slash ∷ rest) ≡ c ∷ split slash rest
unfolding split has_byte
split-append [] rest l = refl
split-append (b ∷ c) rest l =
    let ih : split slash (c ++ slash ∷ rest) ≡ c ∷ split slash rest =
      split-append c rest (ground arith) in
    let n : (b == slash) ≡ false = ground arith in rw (n, ih) refl

split-whole : (c : Bytes) → has_byte slash c ≡ false → split slash c ≡ c ∷ []
unfolding split has_byte
split-whole [] l = refl
split-whole (b ∷ c) l =
    let ih : split slash c ≡ c ∷ [] = split-whole c (ground arith) in
    let n : (b == slash) ≡ false = ground arith in rw (n, ih) refl

pub slashed-append : (cs ds : List Bytes) → slashed (cs ++ ds) ≡ slashed cs ++ slashed ds
unfolding slashed
slashed-append [] ds = refl
slashed-append (c ∷ cs) ds =
    rw (slashed-append cs ds) (ap (◌∷◌ slash) (sym (append_assoc c (slashed cs) (slashed ds))))

-- The elements of a path, one of them in front.
split-slashed :
    (c : Bytes) (cs : List Bytes)
    → has_byte slash c ≡ false
    → All IsPlain cs
    → split slash (c ++ slashed cs) ≡ c ∷ cs
unfolding slashed
split-slashed c [] l p = rw (append-nil c) (split-whole c l)
split-slashed c (d ∷ cs) l (pd, ps) =
    rw (split-append c (d ++ slashed cs) l) (ap (◌∷◌ c) (split-slashed d cs pd.no_slash ps))

-- A slash behind it adds an empty element.
split-slashed_end :
    (c : Bytes) (cs : List Bytes)
    → has_byte slash c ≡ false
    → All IsPlain cs
    → split slash (c ++ (slashed cs ++ slash ∷ [])) ≡ c ∷ (cs ++ [] ∷ [])
unfolding slashed split
split-slashed_end c [] l p = split-append c [] l
split-slashed_end c (d ∷ cs) l (pd, ps) =
    rw
      (append_assoc d (slashed cs) (slash ∷ []), split-append c (d ++ (slashed cs ++ slash ∷ [])) l)
      (ap (◌∷◌ c) (split-slashed_end d cs pd.no_slash ps))

keep_element-IsPlain :
    (out : List Bytes) (c : Bytes) → IsPlain c → keep_element true out c ≡ c ∷ out
unfolding keep_element
keep_element-IsPlain out c p =
    let e = p.nonempty in let d = p.no_dot in let dd = p.no_dot_dot in ground arith

keep_elements-plain :
    (out cs ds : List Bytes)
    → All IsPlain cs
    → keep_elements true out (cs ++ ds) ≡ keep_elements true (reverse cs ++ out) ds
unfolding keep_elements
keep_elements-plain out [] ds p = refl
keep_elements-plain out (c ∷ cs) ds (pc, ps) =
    let turned : reverse cs ++ c ∷ out ≡ reverse (c ∷ cs) ++ out = sym (
      ap (λ (r : List Bytes). r ++ out) (reverse-cons c cs)
      ∙ append_assoc (reverse cs) (c ∷ []) out) in
    ap (λ (o : List Bytes). keep_elements true o (cs ++ ds)) (keep_element-IsPlain out c pc)
    ∙ (keep_elements-plain (c ∷ out) cs ds ps
        ∙ ap (λ (o : List Bytes). keep_elements true o ds) turned)

-- The elements that remain of plain ones, with an empty one behind them or without.
kept-plain :
    (cs ds : List Bytes)
    → All IsPlain cs
    → keep_elements true (reverse cs ++ []) ds ≡ reverse cs ++ []
    → reverse (keep_elements true [] ([] ∷ (cs ++ ds))) ≡ cs
unfolding keep_elements keep_element str_eq
kept-plain cs ds p e =
    ap reverse (keep_elements-plain [] cs ds p ∙ (e ∙ append-nil (reverse cs))) ∙ reverse-reverse cs

clean_rooted_lem :
    (s : Bytes) (parts : List Bytes)
    → split slash s ≡ parts
    → clean (slash ∷ s) ≡ render_rooted (reverse (keep_elements true [] ([] ∷ parts)))
unfolding clean is_abs split
clean_rooted_lem s parts e = rw e refl

-- Cleaning takes nothing from plain elements behind slashes.
pub clean-slashed :
    (c : Bytes) (cs : List Bytes)
    → All IsPlain (c ∷ cs)
    → clean (slashed (c ∷ cs)) ≡ slashed (c ∷ cs)
clean-slashed c cs p =
    let kept : reverse (keep_elements true [] ([] ∷ c ∷ cs)) ≡ c ∷ cs =
      ap (λ (l : List Bytes). reverse (keep_elements true [] ([] ∷ l))) (sym (append-nil (c ∷ cs)))
      ∙ kept-plain (c ∷ cs) [] p (unfold keep_elements in refl) in
    unfold slashed in
    (clean_rooted_lem (c ++ slashed cs) (c ∷ cs) (split-slashed c cs p.0.no_slash p.1)
      ∙ ap render_rooted kept)

-- A slash behind a path is dropped.
clean-end : (cs : List Bytes) → All IsPlain cs → clean (slashed cs ++ slash ∷ []) ≡ render_rooted cs
unfolding slashed
clean-end [] p =
    clean_rooted_lem [] ([] ∷ []) (unfold split in refl)
    ∙ unfold keep_elements keep_element str_eq in refl
clean-end (c ∷ cs) p =
    let kept : reverse (keep_elements true [] ([] ∷ c ∷ (cs ++ [] ∷ []))) ≡ c ∷ cs =
      kept-plain (c ∷ cs) ([] ∷ []) p (unfold keep_elements keep_element str_eq in refl) in
    ap (λ (t : Bytes). clean (slash ∷ t)) (append_assoc c (slashed cs) (slash ∷ []))
    ∙ (clean_rooted_lem (c ++ (slashed cs ++ slash ∷ [])) (c ∷ (cs ++ [] ∷ []))
          (split-slashed_end c cs p.0.no_slash p.1)
        ∙ ap render_rooted kept)

-- Joining an element on.
pub join-plain :
    (r : Bytes) (cs : List Bytes) (c : Bytes)
    → All IsPlain (r ∷ cs)
    → IsPlain c
    → join (slashed (r ∷ cs)) c ≡ slashed ((r ∷ cs) ++ c ∷ [])
join-plain r cs [] p pc = let e = pc.nonempty in unfold str_eq in cc e
join-plain r cs (b ∷ c) p pc =
    let longer : slashed ((r ∷ cs) ++ (b ∷ c) ∷ []) ≡ slashed (r ∷ cs) ++ slash ∷ b ∷ c =
      slashed-append (r ∷ cs) ((b ∷ c) ∷ [])
      ∙ unfold slashed in
        (ap (λ (t : Bytes). slash ∷ (r ++ slashed cs) ++ slash ∷ b ∷ t) (append-nil c)) in
    unfold join slashed in
    (ap clean (sym longer)
      ∙ clean-slashed r (cs ++ (b ∷ c) ∷ [])
          (p.0, All-append IsPlain cs ((b ∷ c) ∷ []) p.1 (pc, tt)))

-- The directory of a path.
up_to_slash-none : (c : Bytes) → has_byte slash c ≡ false → up_to_slash c ≡ []
unfolding up_to_slash has_byte
up_to_slash-none [] l = refl
up_to_slash-none (b ∷ c) l =
    let ih : up_to_slash c ≡ [] = up_to_slash-none c (ground arith) in
    let n : (b == slash) ≡ false = ground arith in rw (ih, n) refl

up_to_slash-last :
    (s c : Bytes) → has_byte slash c ≡ false → up_to_slash (s ++ slash ∷ c) ≡ s ++ slash ∷ []
unfolding up_to_slash
up_to_slash-last [] c l = rw (up_to_slash-none c l) refl
up_to_slash-last (x ∷ []) c l = rw (up_to_slash-none c l) refl
up_to_slash-last (x ∷ y ∷ s) c l = rw (up_to_slash-last (y ∷ s) c l) refl

pub dir-slashed :
    (cs : List Bytes) (c : Bytes)
    → All IsPlain cs
    → IsPlain c
    → dir (slashed (cs ++ c ∷ [])) ≡ render_rooted cs
unfolding dir slashed
dir-slashed cs c p pc =
    ap (λ (t : Bytes). clean (up_to_slash t))
      (slashed-append cs (c ∷ []) ∙ ap (λ (t : Bytes). slashed cs ++ slash ∷ t) (append-nil c))
    ∙ (ap clean (up_to_slash-last (slashed cs) c pc.no_slash) ∙ clean-end cs p)

-- Plain elements behind slashes, or the root alone, are clean.
pub clean_rooted_plain :
    (cs : List Bytes) → All IsPlain cs → clean (render_rooted cs) ≡ render_rooted cs
unfolding slashed
clean_rooted_plain [] p = clean-end [] tt
clean_rooted_plain (c ∷ cs) p = clean-slashed c cs p

pub split_rooted :
    (c : Bytes) (cs : List Bytes)
    → All IsPlain (c ∷ cs)
    → split slash (slashed (c ∷ cs)) ≡ [] ∷ c ∷ cs
split_rooted c cs p = unfold split slashed in (ap (◌∷◌ []) (split-slashed c cs p.0.no_slash p.1))
