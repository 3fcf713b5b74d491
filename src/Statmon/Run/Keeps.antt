-- ===== src/Statmon/Run/Keeps.antt =====
-- An invariant of a state under actions: one rule for each way to build an action.
use ndp_auto_offload.Base.{◌≡◌, refl, ⊤, Bool, true, false, List, [], ◌∷◌, Outcome, ok, err, panic}
use ndp_auto_offload.Statmon.Run.{
  Run, returns, fails, panics, Action, bind_run, ◌>>=◌, pure, gets, modify, lift, when, for_each,
  Leaves,
}

-- Where the action starts with `P`, every state that it leaves has `P`.
pub record Keeps {S A : Type 0} (P : S → Type 0) (m : Action S A) : Type 0 where
  pub at : (s : S) → P s → Leaves P (m s)

module _ {S : Type 0} {P : S → Type 0} where
  pub Keeps-modify : (f : S → S) → ((s : S) → P s → P (f s)) → Keeps P (modify f)
  unfolding modify
  Keeps-modify f k = record { at = k }

  pub Keeps-when : (b : Bool) (m : Action S ⊤) → Keeps P m → Keeps P (when b m)
  unfolding when
  Keeps-when true m k = k
  Keeps-when false m k = record { at = λ s h. h }

module _ {S A : Type 0} {P : S → Type 0} where
  pub Keeps-gets : (f : S → A) → Keeps P (gets f)
  unfolding gets
  Keeps-gets f = record { at = λ s h. h }

  pub Keeps-pure : (a : A) → Keeps P (pure a)
  unfolding pure
  Keeps-pure a = record { at = λ s h. h }

  pub Keeps-lift : (o : Outcome A) → Keeps P (lift o)
  unfolding lift
  Keeps-lift (ok a) = record { at = λ s h. h }
  Keeps-lift (err e) = record { at = λ s h. h }
  Keeps-lift (panic q) = record { at = λ s h. tt }

module _ {S A B : Type 0} {P : S → Type 0} where
  Leaves-bind :
      (r : Run S A) (f : A → Action S B)
      → Leaves P r
      → ((a : A) → Keeps P (f a))
      → Leaves P (bind_run r f)
  Leaves-bind (returns a s) f h k = (k a).at s h
  Leaves-bind (fails e s) f h k = h
  Leaves-bind (panics q) f h k = tt

  pub Keeps-bind :
      (m : Action S A) (f : A → Action S B)
      → Keeps P m
      → ((a : A) → Keeps P (f a))
      → Keeps P (m >>= f)
  unfolding ◌>>=◌
  Keeps-bind m f km kf = record { at = λ s h. Leaves-bind (m s) f (km.at s h) kf }

  -- The rest of the block may use what the computation gave.
  pub Keeps-bind-lift :
      (o : Outcome A) (f : A → Action S B)
      → ((a : A) → o ≡ ok a → Keeps P (f a))
      → Keeps P (lift o >>= f)
  unfolding ◌>>=◌ lift
  Keeps-bind-lift (ok a) f k = record { at = λ s h. (k a refl).at s h }
  Keeps-bind-lift (err e) f k = record { at = λ s h. h }
  Keeps-bind-lift (panic q) f k = record { at = λ s h. tt }

module _ {S X : Type 0} {P : S → Type 0} where
  pub Keeps-for_each :
      (f : X → Action S ⊤) (xs : List X) → ((x : X) → Keeps P (f x)) → Keeps P (for_each f xs)
  unfolding for_each
  Keeps-for_each f [] k = Keeps-pure tt
  Keeps-for_each f (x ∷ xs) k = Keeps-bind (f x) _ (k x) (λ _. Keeps-for_each f xs k)

pub ruleset keeps =
    (Keeps-pure, Keeps-gets, Keeps-lift, Keeps-when, Keeps-modify, Keeps-bind, Keeps-for_each)
