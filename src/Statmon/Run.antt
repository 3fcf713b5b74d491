-- ===== src/Statmon/Run.antt =====
-- A method of the monitor: state, errors that `?` passes up, and panics. What was written before an
-- error stays written. A panic carries no state: the release profile aborts the process.
pub mod Keeps
pub mod Safe
pub mod Returns
use ndp_auto_offload.Base.{
  ⊤, Bool, List, [], ◌∷◌, Outcome, ok, err, panic, Error, Panic, if◌then◌else◌,
}

pub data Run (S A : Type 0) : Type 0 where
  returns : A → S → Run S A
  fails : Error → S → Run S A
  panics : Panic → Run S A

abbrev pub Action : Type 0 → Type 0 → Type 0
Action S A = S → Run S A

abbrev pub bind_run : {S A B : Type 0} → Run S A → (A → Action S B) → Run S B
bind_run (returns a s) f = f a s
bind_run (fails e s) f = fails e s
bind_run (panics p) f = panics p

infixl 5 ◌>>=◌ ◌>>◌
unfoldable pub ◌>>=◌ : {S A B : Type 0} → Action S A → (A → Action S B) → Action S B
◌>>=◌ m f s = bind_run (m s) f

abbrev pub ◌>>◌ : {S A B : Type 0} → Action S A → Action S B → Action S B
m >> k = m >>= λ _. k

unfoldable pub pure : {S A : Type 0} → A → Action S A
pure a s = returns a s

unfoldable pub gets : {S A : Type 0} → (S → A) → Action S A
gets f s = returns (f s) s

unfoldable pub modify : {S : Type 0} → (S → S) → Action S ⊤
modify f s = returns tt (f s)

-- A computation without state, in a method.
unfoldable pub lift : {S A : Type 0} → Outcome A → Action S A
lift (ok a) s = returns a s
lift (err e) s = fails e s
lift (panic p) s = panics p

unfoldable pub when : {S : Type 0} → Bool → Action S ⊤ → Action S ⊤
when b m s = if b then m s else returns tt s

-- A run on a part of the state, put back into the whole.
abbrev pub map_state : {S T A : Type 0} → (S → T) → Run S A → Run T A
map_state f (returns a s) = returns a (f s)
map_state f (fails e s) = fails e (f s)
map_state f (panics p) = panics p

-- A method of a part of the state.
unfoldable pub zoom : {S T A : Type 0} → (S → T) → (T → S → S) → Action T A → Action S A
zoom get put m s = map_state (λ t. put t s) (m (get s))

unfoldable pub for_each : {S X : Type 0} → (X → Action S ⊤) → List X → Action S ⊤
for_each f [] = pure tt
for_each f (x ∷ xs) = f x >> for_each f xs

-- Every state that the run leaves, after an error too, has `P`.
abbrev pub Leaves : {S A : Type 0} → (S → Type 0) → Run S A → Type 0
Leaves P (returns a s) = P s
Leaves P (fails e s) = P s
Leaves P (panics p) = ⊤
