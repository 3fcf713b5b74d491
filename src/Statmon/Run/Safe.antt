-- ===== src/Statmon/Run/Safe.antt =====
-- Methods that never panic from a state with a property, and that leave states with it.
use ndp_auto_offload.Base.{
  ⊤, if◌then◌else◌, Bool, true, false, List, [], ◌∷◌, Option, none, some, Error, Outcome, ok, err,
  panic, or_err, ◌>>=◌,
}
use ndp_auto_offload.Statmon.Run.{
  Run, returns, fails, panics, Action, bind_run, pure, gets, modify, lift, when, for_each,
  map_state, zoom,
}
use ndp_auto_offload.Statmon.Run

-- An outcome that is no panic.
abbrev pub IsCalm : {A : Type 0} → Outcome A → Type 0
IsCalm (panic q) = ⊥
IsCalm (err e) = ⊤
IsCalm (ok a) = ⊤

-- A run that is no panic, and that ends in a state with the property.
abbrev pub EndsIn : {S A : Type 0} → (S → Type 0) → Run S A → Type 0
EndsIn P (panics q) = ⊥
EndsIn P (fails e s) = P s
EndsIn P (returns a s) = P s

pub record IsSafe {S A : Type 0} (P : S → Type 0) (m : Action S A) : Type 0 where
  pub run : (s : S) → P s → EndsIn P (m s)

module _ {S A : Type 0} (P : S → Type 0) where
  pub EndsIn-if :
      (b : Bool) (r t : Run S A) → EndsIn P r → EndsIn P t → EndsIn P (if b then r else t)
  EndsIn-if true r t h k = h
  EndsIn-if false r t h k = k

  pub EndsIn-Option :
      {X : Type 0} (o : Option X) (r : Run S A) (f : X → Run S A)
      → EndsIn P r
      → ((x : X) → EndsIn P (f x))
      → EndsIn P (elim o [ none ↦ r | some x ↦ f x ])
  EndsIn-Option none r f h k = h
  EndsIn-Option (some x) r f h k = k x

  pub EndsIn-Outcome :
      {X : Type 0} (o : Outcome X) (f : X → Run S A) (s : S)
      → IsCalm o
      → ((x : X) → EndsIn P (f x))
      → P s
      → EndsIn P (elim o [ ok x ↦ f x | err e ↦ fails e s | panic q ↦ panics q ])
  EndsIn-Outcome (panic q) f s c k h = elim c [ ]
  EndsIn-Outcome (err e) f s c k h = h
  EndsIn-Outcome (ok x) f s c k h = k x

pub or_err-IsCalm : {A : Type 0} (e : Error) (o : Option A) → IsCalm (or_err e o)
or_err-IsCalm e (some a) = tt
or_err-IsCalm e none = tt

pub >>=-IsCalm :
    {A B : Type 0} (m : Outcome A) (f : A → Outcome B)
    → IsCalm m
    → ((a : A) → IsCalm (f a))
    → IsCalm (m >>= f)
>>=-IsCalm (panic q) f h k = elim h [ ]
>>=-IsCalm (err e) f h k = tt
>>=-IsCalm (ok a) f h k = k a

pub EndsIn-map_state :
    {S T A : Type 0} (P : S → Type 0) (Q : T → Type 0) (f : S → T) (r : Run S A)
    → EndsIn P r
    → ((s : S) → P s → Q (f s))
    → EndsIn Q (map_state f r)
EndsIn-map_state P Q f (panics q) h k = elim h [ ]
EndsIn-map_state P Q f (fails e s) h k = k s h
EndsIn-map_state P Q f (returns a s) h k = k s h

module _ {S A : Type 0} {P : S → Type 0} where
  pub lift-IsSafe : (o : Outcome A) → IsCalm o → IsSafe P (lift o)
  unfolding lift
  lift-IsSafe (panic q) k = elim k [ ]
  lift-IsSafe (err e) k = record { run = λ s h. h }
  lift-IsSafe (ok a) k = record { run = λ s h. h }

  pub gets-IsSafe : (f : S → A) → IsSafe P (gets f)
  unfolding gets
  gets-IsSafe f = record { run = λ s h. h }

  pub pure-IsSafe : (a : A) → IsSafe P (pure a)
  unfolding pure
  pure-IsSafe a = record { run = λ s h. h }

module _ {S : Type 0} {P : S → Type 0} where
  pub modify-IsSafe : (f : S → S) → ((s : S) → P s → P (f s)) → IsSafe P (modify f)
  unfolding modify
  modify-IsSafe f k = record { run = k }

  pub when-IsSafe : (b : Bool) (m : Action S ⊤) → IsSafe P m → IsSafe P (when b m)
  unfolding when
  when-IsSafe false m k = record { run = λ s h. h }
  when-IsSafe true m k = k

module _ {S A B : Type 0} {P : S → Type 0} where
  bind_run-EndsIn :
      (r : Run S A) (f : A → Action S B)
      → EndsIn P r
      → ((a : A) → IsSafe P (f a))
      → EndsIn P (bind_run r f)
  bind_run-EndsIn (panics q) f h k = elim h [ ]
  bind_run-EndsIn (fails e s) f h k = h
  bind_run-EndsIn (returns a s) f h k = (k a).run s h

  pub >>=-IsSafe :
      (m : Action S A) (f : A → Action S B)
      → IsSafe P m
      → ((a : A) → IsSafe P (f a))
      → IsSafe P (Run.◌>>=◌ m f)
  unfolding Run.◌>>=◌
  >>=-IsSafe m f km kf = record { run = λ s h. bind_run-EndsIn (m s) f (km.run s h) kf }

module _ {S X : Type 0} {P : S → Type 0} where
  pub for_each-IsSafe :
      (f : X → Action S ⊤) (xs : List X) → ((x : X) → IsSafe P (f x)) → IsSafe P (for_each f xs)
  unfolding for_each
  for_each-IsSafe f [] k = pure-IsSafe tt
  for_each-IsSafe f (x ∷ xs) k = >>=-IsSafe (f x) _ (k x) (λ _. for_each-IsSafe f xs k)

pub ruleset safe = (
  lift-IsSafe, gets-IsSafe, pure-IsSafe, modify-IsSafe, when-IsSafe, >>=-IsSafe, for_each-IsSafe,
  or_err-IsCalm, >>=-IsCalm,
)
