-- ===== src/Runtime/Host/Stages.antt =====
-- How to reason about an operation step by step, and what it leaves alone.
use sandkasten.Base.{◌≡◌, ◌⊎◌, refl, ◌∷◌, true, false, List, Bool-cases, inl, inr}
use sandkasten.Runtime.Host.{
  HostCall, Host, Kernel, Outcome, done, failed, Operation, give, perform, attempt_all, or_else,
  settle, effect, noted, go_on, ◌>>=◌,
}

module _ {A B : Type 0} (m : Operation A) (f : A → Operation B) (h : Host)
    (Z : Outcome B × Host → Type 0) where
  after :
      (r : Outcome A × Host)
      → ((c : HostCall) → r.0 ≡ failed c → Z (failed c, r.1))
      → ((a : A) → r.0 ≡ done a → Z (f a r.1))
      → Z (go_on r.0 f r.1)
  after (done a, h') bad good = good a refl
  after (failed c, h') bad good = bad c refl

  -- What holds of a failure of the first step, and of what follows its success.
  pub stage :
      ((c : HostCall) → (m h).0 ≡ failed c → Z (failed c, (m h).1))
      → ((a : A) → (m h).0 ≡ done a → Z (f a (m h).1))
      → Z ((m >>= f) h)
  unfolding ◌>>=◌
  stage bad good = after (m h) bad good

module _ {A B : Type 0} (k : Kernel) (cleanup : List HostCall) (m : Operation A)
    (f : A → Operation B) (h : Host) (Z : Outcome B × Host → Type 0) where
  settled :
      (r : Outcome A × Host)
      → ((c : HostCall) → r.0 ≡ failed c → Z (failed c, attempt_all k cleanup r.1))
      → ((a : A) → r.0 ≡ done a → Z (f a r.1))
      → Z (go_on (settle k cleanup r).0 f (settle k cleanup r).1)
  settled (done a, h') bad good = good a refl
  settled (failed c, h') bad good = bad c refl

  -- The same where a failure is cleaned up behind.
  pub stage_or_else :
      ((c : HostCall) → (m h).0 ≡ failed c → Z (failed c, attempt_all k cleanup (m h).1))
      → ((a : A) → (m h).0 ≡ done a → Z (f a (m h).1))
      → Z ((or_else k cleanup m >>= f) h)
  unfolding ◌>>=◌ or_else
  stage_or_else bad good = settled (m h) bad good

-- A relation between the host before and after.
pub record HostRelation : Type 1 where
  pub rel : Host → Host → Type 0
  pub rel_refl : (h : Host) → rel h h
  pub rel_trans : (g h i : Host) → rel g h → rel h i → rel g i

pub data Keeps (r : HostRelation) {A : Type 0} (m : Operation A) : Type 0 where
  keeps : ((h : Host) → r.rel h (m h).1) → Keeps r m

pub kept :
    {r : HostRelation} {A : Type 0} (m : Operation A) → Keeps r m → (h : Host) → r.rel h (m h).1
kept m (keeps e) = e

module _ {r : HostRelation} {A B : Type 0} where
  on_outcome :
      (x : Outcome A) (f : A → Operation B)
      → ((a : A) → Keeps r (f a))
      → (h : Host) → r.rel h (go_on x f h).1
  on_outcome (done a) f kf h = kept (f a) (kf a) h
  on_outcome (failed c) f kf h = r.rel_refl h

  pub Keeps-bind :
      (m : Operation A) (f : A → Operation B)
      → Keeps r m
      → ((a : A) → Keeps r (f a))
      → Keeps r (m >>= f)
  unfolding ◌>>=◌
  Keeps-bind m f km kf = keeps λ h.
      r.rel_trans h (m h).1 (go_on (m h).0 f (m h).1).1 (kept m km h)
        (on_outcome (m h).0 f kf (m h).1)

pub Keeps-give : {r : HostRelation} {A : Type 0} (a : A) → Keeps r (give a)
unfolding give
Keeps-give {r} a = keeps r.rel_refl

-- A call that keeps to the relation in both outcomes.
abbrev pub IsKeptBy : HostRelation → Kernel → HostCall → Type 0
IsKeptBy r k c = (h : Host) → r.rel h (noted k c h) × r.rel h (effect k c (noted k c h))

pub Keeps-perform :
    {r : HostRelation} (k : Kernel) (c : HostCall) → IsKeptBy r k c → Keeps r (perform k c)
unfolding perform
Keeps-perform {r} k c e = keeps λ h. both h (Bool-cases (k.fails (c ∷ h.calls)))
  where
    both :
        (h : Host)
        → (k.fails (c ∷ h.calls) ≡ true) ⊎ (k.fails (c ∷ h.calls) ≡ false)
        → r.rel h (perform k c h).1
    both h (inl b) = rw b ((e h).0)
    both h (inr b) = rw b ((e h).1)
