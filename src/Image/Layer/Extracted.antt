-- ===== src/Image/Layer/Extracted.antt =====
-- Where the extraction of a layer writes.
use sandkasten.Base.{
  ◌≡◌, ◌≢◌, refl, sym, subst, ℕ, zero, suc, Bool, true, false, List, [], ◌∷◌, length, drop, All,
  Bool-cases, ◌⊎◌, inl, inr, arith,
}
use sandkasten.Base.Text.{Bytes, str_eq, has_byte, has_prefix, trim_prefix}
use sandkasten.Base.Path.{slash, split, join, base, last_element, dir, slashed}
use sandkasten.Base.Path.Rooted.{IsPlain, Lacks, split-Lacks}
use sandkasten.Image.Layer.{
  DiskCall, make_whiteout, make_dirs, remove_all, make_file, make_symlink, make_link, Disk,
  escapes_rootfs, archive_broken, Result, done, refused, EntryKind, directory, regular, other,
  symbolic, hard, Entry, Archive, opaque_marker, whiteout_mark, perform, drop_error, clear_target,
  extract_kind, extract_at, extract_entries, extract_layer,
}
use sandkasten.Image.Layer.Seen.{
  Carries, makes_symlink, Below, Below-Carries, Names, AllNames, Yields, Ends, Ends-bind, Ends-give,
  Ends-refuse,
}
use sandkasten.Image.Layer.Scoped.{Placed, parent, secure_target_path-Placed}

abbrev Any : {A : Type 0} → A → List DiskCall → Type 0
Any a h = Unit {0}

-- The name of a path is the slash, or has none.
last_element-Lacks :
    (out : Bytes) (cs : List Bytes)
    → All Lacks cs
    → (last_element out cs ≡ out) ⊎ Lacks (last_element out cs)
unfolding last_element
last_element-Lacks out [] l = inl refl
last_element-Lacks out (c ∷ cs) (l, ls) = elim (Bool-cases (str_eq c [])) [
  | inl e ↦ rw e (last_element-Lacks out cs ls)
  | inr e ↦ rw e (inr (named c cs l ls))
]
  where
    named : (c : Bytes) (cs : List Bytes) → Lacks c → All Lacks cs → Lacks (last_element c cs)
    named c [] l ls = l
    named c (d ∷ cs) l (ld, ls) = elim (Bool-cases (str_eq d [])) [
      | inl e ↦ rw e (named c cs l ls)
      | inr e ↦ rw e (named d cs ld ls)
    ]

drop-Lacks : (n : ℕ) (c : Bytes) → Lacks c → Lacks (drop n c)
unfolding has_byte
drop-Lacks zero c l = l
drop-Lacks (suc n) [] l = l
drop-Lacks (suc n) (b ∷ c) l = drop-Lacks n c (ground arith)

trim_prefix-Lacks : (p c : Bytes) → Lacks c → Lacks (trim_prefix p c)
unfolding trim_prefix
trim_prefix-Lacks p c l = elim (Bool-cases (has_prefix p c)) [
  | inl e ↦ rw e (drop-Lacks (length p) c l)
  | inr e ↦ rw e l
]

module _ (d : Disk) (r : Bytes) (rs : List Bytes) (plain : All IsPlain (r ∷ rs)) where
  abbrev Seen : List DiskCall → Unit {0} → List DiskCall → Type 0
  Seen h u h' = Carries d h h'

  performs :
      (c : DiskCall) (h : List DiskCall)
      → Names d (r ∷ rs) c h
      → AllNames d (r ∷ rs) h
      → Ends d (r ∷ rs) Any (perform d c h)
  unfolding perform
  performs c h n a = elim (Bool-cases (d.fails (c ∷ h))) [
    | inl e ↦ rw e ((n, a), λ q. cc q)
    | inr e ↦ rw e ((n, a), tt)
  ]

  -- Behind a call that makes no symbolic link, what was seen still counts.
  performs_on :
      (c : DiskCall) (g h : List DiskCall)
      → makes_symlink c ≡ false
      → Carries d g h
      → Names d (r ∷ rs) c h
      → AllNames d (r ∷ rs) h
      → Ends d (r ∷ rs) (Seen g) (perform d c h)
  unfolding perform
  performs_on c g h m k n a = elim (Bool-cases (d.fails (c ∷ h))) [
    | inl e ↦ rw e ((n, a), λ q. cc q)
    | inr e ↦ rw e ((n, a), λ p s. inr (m, k p s))
  ]

  clears :
      (t : Bytes) (h : List DiskCall)
      → Below d (r ∷ rs) h t
      → AllNames d (r ∷ rs) h
      → Ends d (r ∷ rs) (Seen h) (clear_target d t h)
  clears t h b n =
      Ends-bind d (r ∷ rs) (Seen h) (Seen h) _ _ h
        (performs_on (make_dirs (dir t)) h h refl (λ _ s. s) (t, b, inr refl) n)
        (λ _ h' n' k.
          performs_on (remove_all t) h h' refl k (Below-Carries d (r ∷ rs) h h' t k b) n')

  Ends-extract_kind :
      (t : Bytes) (k : EntryKind) (h : List DiskCall)
      → Below d (r ∷ rs) h t
      → AllNames d (r ∷ rs) h
      → Ends d (r ∷ rs) Any (extract_kind d (slashed (r ∷ rs)) t k h)
  Ends-extract_kind t directory h b n = performs (make_dirs t) h (t, b, inl refl) n
  Ends-extract_kind t regular h b n =
      Ends-bind d (r ∷ rs) (Seen h) Any _ _ h (clears t h b n)
        (λ _ h' n' k. performs (make_file t) h' (Below-Carries d (r ∷ rs) h h' t k b) n')
  Ends-extract_kind t (symbolic link) h b n =
      Ends-bind d (r ∷ rs) (Seen h) Any _ _ h (clears t h b n)
        (λ _ h' n' k. performs (make_symlink link t) h' (Below-Carries d (r ∷ rs) h h' t k b) n')
  Ends-extract_kind t (hard link) h b n =
      Ends-bind d (r ∷ rs) (Seen h) Any _ _ h (clears t h b n) λ _ h1 n1 k1.
        Ends-bind d (r ∷ rs) (Placed d r rs plain h1) Any _ _ h1
          (secure_target_path-Placed d r rs plain link h1 n1)
          λ (from, inside) h2 n2 (cs, q, e, c, i, k2).
            performs (make_link from t) h2
              (
                (cs, q, e, c),
                Below-Carries d (r ∷ rs) h1 h2 t k2 (Below-Carries d (r ∷ rs) h h1 t k1 b),
              )
              n2
  Ends-extract_kind t other h b n = Ends-give d (r ∷ rs) Any h tt n tt

  -- A whiteout's name, for a path that has one.
  whiteout-Names :
      (b : Bytes) (at : Bytes) (h : List DiskCall)
      → (b ≡ slash ∷ []) ⊎ Lacks b
      → has_prefix whiteout_mark b ≡ true
      → Below d (r ∷ rs) h at
      → Names d (r ∷ rs) (make_whiteout (join at (trim_prefix whiteout_mark b))) h
  whiteout-Names b at h (inl e) w below = unfold has_prefix in cc (e, w)
  whiteout-Names b at h (inr l) w below =
      (at, trim_prefix whiteout_mark b, below, trim_prefix-Lacks whiteout_mark b l, refl)

  base-Lacks : (p : Bytes) → (base p ≡ slash ∷ []) ⊎ Lacks (base p)
  unfolding base has_byte
  base-Lacks [] = inr refl
  base-Lacks (b ∷ p) = last_element-Lacks (slash ∷ []) (split slash (b ∷ p)) (split-Lacks (b ∷ p))

  Ends-extract_at :
      (k : EntryKind) (x : Bytes × Bytes) (g h : List DiskCall)
      → Placed d r rs plain g x h
      → AllNames d (r ∷ rs) h
      → Ends d (r ∷ rs) Any (extract_at d (slashed (r ∷ rs)) k x h)
  unfolding extract_at
  Ends-extract_at k (t, inside) g h ([], q, e, c, i, _) n =
      rw i (unfold base str_eq has_prefix in (Ends-extract_kind t k h ([], q, e, c) n))
  Ends-extract_at k (t, inside) g h (c ∷ cs, q, e, clear, i, _) n =
      let above : Below d (r ∷ rs) h (dir t) =
        subst (λ (x : Bytes). Below d (r ∷ rs) h (dir x)) (sym e)
          (parent d r rs plain h c cs q clear) in
      let name : Bytes = base inside in
      elim (Bool-cases (str_eq name opaque_marker)) [
        | inl o ↦ rw o (unfold drop_error in ((above, n), tt))
        | inr o ↦ elim (Bool-cases (has_prefix whiteout_mark name)) [
          | inl w ↦
              rw (o, w)
                (performs (make_whiteout (join (dir t) (trim_prefix whiteout_mark name))) h
                  (whiteout-Names name (dir t) h (base-Lacks inside) w above) n)
          | inr w ↦ rw (o, w) (Ends-extract_kind t k h (c ∷ cs, q, e, clear) n)
        ]
      ]

  Ends-extract_entries :
      (is_broken : Bool) (es : List Entry) (h : List DiskCall)
      → AllNames d (r ∷ rs) h
      → Ends d (r ∷ rs) Any (extract_entries d (slashed (r ∷ rs)) is_broken es h)
  unfolding extract_entries
  Ends-extract_entries true [] h n = Ends-refuse d (r ∷ rs) Any h archive_broken (λ q. cc q) n
  Ends-extract_entries false [] h n = Ends-give d (r ∷ rs) Any h tt n tt
  Ends-extract_entries is_broken (e ∷ es) h n =
      Ends-bind d (r ∷ rs) (Placed d r rs plain h) Any _ _ h
        (secure_target_path-Placed d r rs plain e.name h n)
        λ x h1 n1 p.
          Ends-bind d (r ∷ rs) Any Any _ _ h1 (Ends-extract_at e.kind x h h1 p n1)
            (λ _ h2 n2 _. Ends-extract_entries is_broken es h2 n2)

-- Whatever entries an archive holds, whatever symbolic links they make and whatever the disk answers,
-- extractLayer removes, writes and links only at paths that are the layer's root or the root and plain
-- elements behind it, and each of these elements it has looked at with lstat before, since it last made a
-- symbolic link, and it was shown to be none; it looks only at plain names in such directories. A
-- directory that it makes is such a path or the directory of one. A whiteout's path is such a
-- directory joined with a name without a slash, which may be `..`: it may then name the directory of the
-- root. It never ends with the error that a path leads out of the root. The root is an absolute path of
-- plain elements, and not `/`.
pub extract_layer-Names :
    (d : Disk) (r : Bytes) (rs : List Bytes) (a : Archive)
    → All IsPlain (r ∷ rs)
    → AllNames d (r ∷ rs) (extract_layer d (slashed (r ∷ rs)) a []).1
      × ((extract_layer d (slashed (r ∷ rs)) a []).0 ≢ refused escapes_rootfs)
unfolding extract_layer
extract_layer-Names d r rs a plain =
    let (n, y) = Ends-extract_entries d r rs plain a.is_broken a.entries [] tt in (n, ended _ _ y)
  where
    ended :
        (x : Result (Unit {0})) (h : List DiskCall)
        → Yields d (r ∷ rs) Any x h
        → x ≢ refused escapes_rootfs
    ended (done tt) h y = λ q. cc q
    ended (refused e) h y = λ q. y (cc q)
