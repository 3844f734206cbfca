-- ===== src/World/Action/Follows.antt =====
-- What an action does to the world in every run, one rule for each way to build an action. An
-- invariant `P` is the preorder `λ v w. P v → P w`.
use sandkasten.Base.{◌∷◌, Bool, true, false, if◌then◌else◌}
use sandkasten.World.{World, History, Event, Error, Result, ok, err}
use sandkasten.World.Action.{
  Action, pure, fail, gets, attempt, call, modify, ignore, call_or_fail, continue, ◌>>=◌,
}

-- A relation between the world before and the world after, which every external call keeps.
pub record Preorder : Type 1 where
  pub rel : World → World → Type 0
  pub rel_refl : (w : World) → rel w w
  pub rel_trans : (u v w : World) → rel u v → rel v w → rel u w
  pub rel_call : (e : Event) (w : World) → rel w (record w { history = e ∷ w.history })

pub data Follows (p : Preorder) {A : Type 0} (m : Action A) : Type 0 where
  every : ((w : World) → p.rel w (m w).1) → Follows p m

pub at : {p : Preorder} {A : Type 0} (m : Action A) → Follows p m → (w : World) → p.rel w (m w).1
at m (every h) = h

module _ {p : Preorder} {A : Type 0} where
  pub Follows-pure : (a : A) → Follows p (pure a)
  unfolding pure
  Follows-pure a = every p.rel_refl

  pub Follows-fail : (e : Error) → Follows p (fail {A = A} e)
  unfolding fail
  Follows-fail e = every p.rel_refl

  pub Follows-gets : (f : World → A) → Follows p (gets f)
  unfolding gets
  Follows-gets f = every p.rel_refl

  pub Follows-attempt : (m : Action A) → Follows p m → Follows p (attempt m)
  unfolding attempt
  Follows-attempt m km = every (at m km)

  pub Follows-call : (e : Event) (answer : History → A) → Follows p (call e answer)
  unfolding call
  Follows-call e answer = every (p.rel_call e)

  pub Follows-if :
      (b : Bool) (m n : Action A) → Follows p m → Follows p n → Follows p (if b then m else n)
  Follows-if true m n km kn = km
  Follows-if false m n km kn = kn

pub Follows-modify :
    {p : Preorder} (f : World → World) → ((w : World) → p.rel w (f w)) → Follows p (modify f)
unfolding modify
Follows-modify f h = every h

module _ {p : Preorder} {A B : Type 0} where
  Follows-continue :
      (r : Result A) (f : A → Action B)
      → ((a : A) → Follows p (f a))
      → (w : World) → p.rel w (continue r f w).1
  Follows-continue (ok a) f kf w = at (f a) (kf a) w
  Follows-continue (err e) f kf w = p.rel_refl w

  pub Follows-bind :
      (m : Action A) (f : A → Action B)
      → Follows p m
      → ((a : A) → Follows p (f a))
      → Follows p (m >>= f)
  unfolding ◌>>=◌
  Follows-bind m f km kf = every λ w.
      let (r, w') = m w in
      p.rel_trans w w' (continue r f w').1 (at m km w) (Follows-continue r f kf w')

pub Follows-ignore : {p : Preorder} {A : Type 0} (m : Action A) → Follows p m → Follows p (ignore m)
unfolding ignore
Follows-ignore m km =
    Follows-bind (attempt m) (λ _. pure tt) (Follows-attempt m km) (λ _. Follows-pure tt)

pub Follows-call_or_fail :
    {p : Preorder} (e : Event) (fails : History → Bool) (error : Error)
    → Follows p (call_or_fail e fails error)
unfolding call_or_fail
Follows-call_or_fail e fails error =
    Follows-bind (call e fails) _ (Follows-call e fails)
      λ b. Follows-if b (fail error) (pure tt) (Follows-fail error) (Follows-pure tt)

pub ruleset follows_rules = (
  Follows-pure, Follows-fail, Follows-gets, Follows-attempt, Follows-call, Follows-if, Follows-bind,
  Follows-ignore, Follows-call_or_fail,
)
