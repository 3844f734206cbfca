-- ===== src/World/Action.antt =====
-- Functions of the daemon as actions: they read and change the world, and return a value or an
-- error. What was done before an error stays done.
pub mod Follows
use sandkasten.Base.{◌∷◌, Bool, if◌then◌else◌}
use sandkasten.World.{World, History, Event, Error, Result, ok, err}

abbrev pub Action : Type 0 → Type 0
Action A = World → Result A × World

module _ {A : Type 0} where
  unfoldable pub pure : A → Action A
  pure a w = (ok a, w)

  unfoldable pub fail : Error → Action A
  fail e w = (err e, w)

  unfoldable pub gets : (World → A) → Action A
  gets f w = (ok (f w), w)

  -- `r, err := f()`: the error becomes a value.
  unfoldable pub attempt : Action A → Action (Result A)
  attempt m w = let (r, w') = m w in (ok r, w')

  -- An external call: it is entered in the history, and answered.
  unfoldable pub call : Event → (History → A) → Action A
  call e answer w = let h = e ∷ w.history in (ok (answer h), record w { history = h })

unfoldable pub modify : (World → World) → Action (Unit {0})
modify f w = (ok tt, f w)

module _ {A B : Type 0} where
  abbrev pub continue : Result A → (A → Action B) → Action B
  continue (ok a) f w = f a w
  continue (err e) f w = (err e, w)

  infixl 5 ◌>>=◌ ◌>>◌
  -- Opening this opens the primitive actions too.
  unfoldable pub ◌>>=◌ : Action A → (A → Action B) → Action B
  unfolding pure fail gets attempt call modify
  ◌>>=◌ m f w = let (r, w') = m w in continue r f w'

  abbrev pub ◌>>◌ : Action A → Action B → Action B
  m >> n = m >>= λ _. n

-- `_ = f()`: the error is dropped.
unfoldable pub ignore : {A : Type 0} → Action A → Action (Unit {0})
unfolding ◌>>=◌
ignore m = attempt m >> pure tt

-- A call that reports only whether it failed.
unfoldable pub call_or_fail : Event → (History → Bool) → Error → Action (Unit {0})
call_or_fail e fails error = do failed ← call e fails; if failed then fail error else pure tt
