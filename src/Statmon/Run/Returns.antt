-- ===== src/Statmon/Run/Returns.antt =====
-- Inversion of the runs that end well.
use ndp_auto_offload.Base.{refl, ◌≡◌, Outcome, ok, err, panic}
use ndp_auto_offload.Statmon.Run.{Run, returns, fails, panics, Action, bind_run, lift}

-- A block that ends well ended well at its first line.
pub bind_returns :
    {S A B : Type 0} (m : Run S A) (f : A → Action S B) (b : B) (u : S)
    → bind_run m f ≡ returns b u
    → (a : A) × (t : S) × (m ≡ returns a t) × (f a t ≡ returns b u)
bind_returns (returns a t) f b u h = (a, t, refl, h)
bind_returns (fails e t) f b u h = cc
bind_returns (panics p) f b u h = cc

pub lift_returns : {S A : Type 0} (o : Outcome A) (s t : S) (a : A) → lift o s ≡ returns a t → s ≡ t
unfolding lift
lift_returns (ok x) s t a h = cc
lift_returns (err e) s t a h = cc
lift_returns (panic p) s t a h = cc

pub returns-injective :
    {S A : Type 0} (a b : A) (s t : S) → returns a s ≡ returns b t → (b ≡ a) × (t ≡ s)
returns-injective a b s t h = (cc, cc)

pub lift_ok : {S A : Type 0} (o : Outcome A) (s t : S) (a : A) → lift o s ≡ returns a t → o ≡ ok a
unfolding lift
lift_ok (ok x) s t a h = cc
lift_ok (err e) s t a h = cc
lift_ok (panic p) s t a h = cc
