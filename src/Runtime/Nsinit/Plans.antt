-- ===== src/Runtime/Nsinit/Plans.antt =====
-- Stages of nsinit against the calls that are planned for them.
use sandkasten.Base.{
  ◌≡◌, ◌≢◌, refl, sym, Bool, true, false, List, [], ◌∷◌, ◌++◌, append-nil, append_assoc,
}
use sandkasten.Runtime.Nsinit.{
  NsCall, private_root, unmount_detach, remove_all, find_interface, read_cgroup, sleep, Log,
  NsError, Ended, done, failed, Stage, give, refuse, go_on, ◌>>◌, when,
}

-- The calls that nsinit does not go on without.
abbrev pub is_needed : NsCall → Bool
is_needed (private_root path) = false
is_needed (unmount_detach path) = false
is_needed (remove_all path) = false
is_needed find_interface = false
is_needed read_cgroup = false
is_needed (sleep ms) = false
is_needed c = true

abbrev pub one_if : Bool → NsCall → List NsCall
one_if true c = c ∷ []
one_if false c = []

-- Those of them that succeeded, in their order.
abbrev pub needed : Log → List NsCall
needed [] = []
needed ((c, true) ∷ g) = needed g ++ one_if (is_needed c) c
needed ((c, false) ∷ g) = needed g

-- A stage that ends well has made the planned calls; one that fails has made a first part of them.
abbrev pub Made : List NsCall → Log → Ended × Log → Type 0
Made l g (done, g') = needed g' ≡ needed g ++ l
Made l g (failed e, g') =
    (made : List NsCall) × (rest : List NsCall) × (needed g' ≡ needed g ++ made)
    × (made ++ rest ≡ l)

-- The same, where a failure leaves at least one call of the plan undone.
abbrev pub Planned : List NsCall → Log → Ended × Log → Type 0
Planned l g (done, g') = needed g' ≡ needed g ++ l
Planned l g (failed e, g') =
    (made : List NsCall) × (rest : List NsCall) × (needed g' ≡ needed g ++ made)
    × (made ++ rest ≡ l)
    × (rest ≢ [])

abbrev pub Makes : Stage → List NsCall → Type 0
Makes m l = (g : Log) → Made l g (m g)

abbrev pub Plans : Stage → List NsCall → Type 0
Plans m l = (g : Log) → Planned l g (m g)

pub Makes-give : Makes give []
unfolding give
Makes-give g = sym (append-nil (needed g))

pub more : (xs ys : List NsCall) → ys ≢ [] → xs ++ ys ≢ []
more [] ys n = n
more (x ∷ xs) ys n = λ e. cc e

pub Makes-seq : (m n : Stage) (l r : List NsCall) → Makes m l → Makes n r → Makes (m >> n) (l ++ r)
unfolding ◌>>◌
Makes-seq m n l r pm pn g = follow (m g).0 (m g).1 (pm g)
  where
    shifted :
        (g1 : Log) (x : Ended × Log) → needed g1 ≡ needed g ++ l → Made r g1 x → Made (l ++ r) g x
    shifted g1 (done, g2) e p = rw (p, e) (append_assoc (needed g) l r)
    shifted g1 (failed err, g2) e (made, rest, p, q) = (
      l ++ made,
      rest,
      rw (p, e) (append_assoc (needed g) l made),
      rw (append_assoc l made rest, q) refl,
    )

    follow : (x : Ended) (g1 : Log) → Made l g (x, g1) → Made (l ++ r) g (go_on x n g1)
    follow done g1 p = shifted g1 (n g1) p (pn g1)
    follow (failed e) g1 (made, rest, p, q) =
        (made, rest ++ r, p, rw (sym q, append_assoc made rest r) refl)

pub Plans-seq :
    (m n : Stage) (l r : List NsCall) → Makes m l → Plans n r → r ≢ [] → Plans (m >> n) (l ++ r)
unfolding ◌>>◌
Plans-seq m n l r pm pn some_left g = follow (m g).0 (m g).1 (pm g)
  where
    shifted :
        (g1 : Log) (x : Ended × Log)
        → needed g1 ≡ needed g ++ l
        → Planned r g1 x
        → Planned (l ++ r) g x
    shifted g1 (done, g2) e p = rw (p, e) (append_assoc (needed g) l r)
    shifted g1 (failed err, g2) e (made, rest, p, q, left) = (
      l ++ made,
      rest,
      rw (p, e) (append_assoc (needed g) l made),
      rw (append_assoc l made rest, q) refl,
      left,
    )

    follow : (x : Ended) (g1 : Log) → Made l g (x, g1) → Planned (l ++ r) g (go_on x n g1)
    follow done g1 p = shifted g1 (n g1) p (pn g1)
    follow (failed e) g1 (made, rest, p, q) =
        (made, rest ++ r, p, rw (sym q, append_assoc made rest r) refl, more rest r some_left)

pub Makes-when :
    (b : Bool) (m : Stage) (c : NsCall) → Makes m (c ∷ []) → Makes (when b m) (one_if b c)
unfolding when
Makes-when true m c p = p
Makes-when false m c p = Makes-give

pub Makes-when_none : (b : Bool) (m : Stage) → Makes m [] → Makes (when b m) []
unfolding when
Makes-when_none true m p = p
Makes-when_none false m p = Makes-give

pub Makes-refuse : (e : NsError) (l : List NsCall) → Makes (refuse e) l
unfolding refuse
Makes-refuse e l g = ([], l, sym (append-nil (needed g)), refl)

pub unneeded :
    (c : NsCall) (b : Bool) (g : Log) → is_needed c ≡ false → needed ((c, b) ∷ g) ≡ needed g
unneeded c true g n = rw n (append-nil (needed g))
unneeded c false g n = refl

pub Made-from : (g' g : Log) (x : Ended × Log) → needed g' ≡ needed g → Made [] g' x → Made [] g x
Made-from g' g (done, h) e p = rw (p, e) refl
Made-from g' g (failed err, h) e (made, rest, p, q) = (made, rest, rw (p, e) refl, q)
