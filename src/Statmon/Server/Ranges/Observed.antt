-- ===== src/Statmon/Server/Ranges/Observed.antt =====
-- The ticks of statmon/src/main.rs in a range and outside of one, at one integer statistic.
use mathlib.Core.Path.{subst}
use ndp_auto_offload.Base
use ndp_auto_offload.Base.{
  All, inl, inr, Bool-cases, zero, ok-injective, some-eq, refl, sym, ap, ◌∙◌, ◌≡◌, ◌<◌, ◌^◌, ⊤, ℕ,
  suc, true, false, List, [], ◌∷◌, ◌++◌, map, length, get_elem?, Option, none, some, Outcome, ok,
  ◌>>=◌, arith,
}
use ndp_auto_offload.Base.Int.{ℤ, pos}
use ndp_auto_offload.Base.Words.{Profile, release, IsI64}
use ndp_auto_offload.Statmon.Value.{FloatOps, StatValue, float, int}
use ndp_auto_offload.Statmon.Stat.{Stat, reset, update_aggregate}
use ndp_auto_offload.Statmon.Host.{Round, Crates}
use ndp_auto_offload.Statmon.Run.{Run, returns, fails, panics, for_each, pure}
use ndp_auto_offload.Statmon.Run
use ndp_auto_offload.Statmon.Run.Returns.{bind_returns, returns-injective}
use ndp_auto_offload.Statmon.Stats.{Stats}
use ndp_auto_offload.Statmon.Monitor.{update}
use ndp_auto_offload.Statmon.Monitor.Slots.{update_slot, update_idle}
use ndp_auto_offload.Statmon.Table.{IsInt}
use ndp_auto_offload.Statmon.Range.{observe, observe_all, observe_all-IsRange, IsRange}
use ndp_auto_offload.Statmon.Server.{panic_on_error, timer_tick, timer}
use ndp_auto_offload.Statmon.Server.Ranges.Ticks.{update-in_range}

abbrev int_of : {F : Type 0} → StatValue F → ℤ
int_of (int v) = v
int_of (float v) = pos 0

abbrev found_value : {F : Type 0} → Option (Stat F) → ℤ
found_value none = pos 0
found_value (some x) = int_of x.value_now

-- The present value of an integer statistic.
abbrev pub value_of : {F C : Type 0} → ℕ → Stats F C → ℤ
value_of i s = found_value (get_elem? s.stats i)

abbrev pub and_then : {S : Type 0} → Run S ⊤ → (S → List S) → List S
and_then (returns a t) f = t ∷ f t
and_then (fails e t) f = []
and_then (panics q) f = []

module _ {F : Type 0} ⦃fl : FloatOps F⦄ where
  observe-now : (p : Profile) (x y : Stat F) (w : ℤ) → observe p x w ≡ ok y → y.value_now ≡ int w
  unfolding observe update_aggregate
  observe-now p x y w h = ground arith

  pub observe-IsInt :
      (p : Profile) (x y : Stat F) (w : ℤ) → observe p x w ≡ ok y → IsInt y.value_now
  observe-IsInt p x y w h = rw (observe-now p x y w h) tt

  pub observe_all-append :
      (p : Profile) (x y z : Stat F) (vs : List ℤ) (w : ℤ)
      → observe_all p x vs ≡ ok y
      → observe p y w ≡ ok z
      → observe_all p x (vs ++ w ∷ []) ≡ ok z
  unfolding observe_all
  observe_all-append p x y z [] w h k = rw (ok-injective h, k) refl
  observe_all-append p x y z (v ∷ vs) w h k =
      let (x', first, rest) = Base.>>=-eq-ok (observe p x v) _ h in
      rw first (observe_all-append p x' y z vs w rest k)

  pub appended-IsRange :
      (x y : Stat F) (n : ℤ) (vs : List ℤ) (w : ℤ)
      → x.value_now ≡ int n
      → All IsI64 (vs ++ w ∷ [])
      → length (vs ++ w ∷ []) < 2 ^ 63
      → observe_all release (reset x) (vs ++ w ∷ []) ≡ ok y
      → IsRange (vs ++ w ∷ []) y
  appended-IsRange x y n [] w e small short run =
      let (t, made, range) = observe_all-IsRange x n w [] e small.0 short in
      subst (IsRange (w ∷ [])) (ok-injective (sym made ∙ run)) range
  appended-IsRange x y n (v ∷ vs) w e small short run =
      let (t, made, range) = observe_all-IsRange x n v (vs ++ w ∷ []) e small.0 short in
      subst (IsRange (v ∷ vs ++ w ∷ [])) (ok-injective (sym made ∙ run)) range

module _ {F C : Type 0} ⦃fl : FloatOps F⦄ where
  -- The states that the ticks leave, one after the other.
  unfoldable pub states : Profile → Crates → List (Round C) → Stats F C → List (Stats F C)
  states p crates [] s = []
  states p crates (r ∷ rounds) s = and_then (timer_tick p crates r s) (states p crates rounds)

  pub observed_value :
      (p : Profile) (x y : Stat F) (w : ℤ) (i : ℕ) (t : Stats F C)
      → observe p x w ≡ ok y
      → get_elem? t.stats i ≡ some y
      → value_of i t ≡ w
  observed_value p x y w i t h at = rw (at, observe-now p x y w h) refl

  on_error_returns :
      (m : Run (Stats F C) ⊤) (t : Stats F C) → panic_on_error m ≡ returns tt t → m ≡ returns tt t
  on_error_returns (returns a s) t h = h
  on_error_returns (fails e s) t h = cc
  on_error_returns (panics q) t h = cc

  tick_returns :
      (p : Profile) (crates : Crates) (r : Round C) (rounds : List (Round C)) (s v : Stats F C)
      → timer p crates (r ∷ rounds) s ≡ returns tt v
      → (t : Stats F C) × (timer_tick p crates r s ≡ returns tt t)
        × (update p crates r s ≡ returns tt t)
        × (timer p crates rounds t ≡ returns tt v)
  unfolding timer for_each Run.◌>>=◌ timer_tick
  tick_returns p crates r rounds s v h =
      let (_, t, first, rest) = bind_returns (timer_tick p crates r s) _ tt v h in
      (t, first, on_error_returns (update p crates r s) t first, rest)

  no_ticks :
      (p : Profile) (crates : Crates) (s v : Stats F C) → timer p crates [] s ≡ returns tt v → v ≡ s
  unfolding timer for_each pure
  no_ticks p crates s v h = (returns-injective tt tt s v h).1

  -- Ticks in a range observe their values.
  pub timer_slot :
      (p : Profile) (crates : Crates) (rounds : List (Round C)) (s v : Stats F C) (i : ℕ)
      (x : Stat F)
      → timer p crates rounds s ≡ returns tt v
      → s.in_range ≡ true
      → get_elem? s.stats (suc i) ≡ some x
      → IsInt x.value_now
      → (y : Stat F) × (observe_all p x (map (value_of (suc i)) (states p crates rounds s)) ≡ ok y)
        × (get_elem? v.stats (suc i) ≡ some y)
        × IsInt y.value_now
  unfolding observe_all states
  timer_slot p crates [] s v i x run open_range at h = (
    x,
    refl,
    ap (λ (z : Stats F C). get_elem? z.stats (suc i)) (no_ticks p crates s v run) ∙ at,
    h,
  )
  timer_slot p crates (r ∷ rounds) s v i x run open_range at h =
      let (t, ticked, updated, rest) = tick_returns p crates r rounds s v run in
      let (w, y, observed, there) = update_slot p crates r s t i x updated open_range at h in
      let still : t.in_range ≡ true = update-in_range true p crates r s t updated open_range in
      let (z, all, place, kind) =
        timer_slot p crates rounds t v i y rest still there (observe-IsInt p x y w observed) in
      (z, rw (ticked, observed_value p x y w (suc i) t observed there, observed) all, place, kind)

  -- Ticks outside of a range leave the aggregates alone.
  pub idle_slot :
      (p : Profile) (crates : Crates) (rounds : List (Round C)) (s v : Stats F C) (i : ℕ)
      (x : Stat F) (vs : List ℤ)
      → timer p crates rounds s ≡ returns tt v
      → s.in_range ≡ false
      → get_elem? s.stats (suc i) ≡ some x
      → IsInt x.value_now
      → IsRange vs x
      → (y : Stat F) × (get_elem? v.stats (suc i) ≡ some y) × IsRange vs y
  idle_slot p crates [] s v i x vs run closed at h range =
      (x, ap (λ (z : Stats F C). get_elem? z.stats (suc i)) (no_ticks p crates s v run) ∙ at, range)
  idle_slot p crates (r ∷ rounds) s v i x vs run closed at h range =
      let (t, _, updated, rest) = tick_returns p crates r rounds s v run in
      let (w, there) = update_idle p crates r s t i x updated closed at h in
      idle_slot p crates rounds t v i _ vs rest
        (update-in_range false p crates r s t updated closed) there tt
        (record { low = range.low; high = range.high; sum = range.sum; cnt = range.cnt })

  pub update_kept :
      (p : Profile) (crates : Crates) (r : Round C) (s t : Stats F C) (i : ℕ) (x : Stat F)
      → update p crates r s ≡ returns tt t
      → get_elem? s.stats (suc i) ≡ some x
      → IsInt x.value_now
      → (y : Stat F) × (n : ℤ) × (get_elem? t.stats (suc i) ≡ some y) × (y.value_now ≡ int n)
  update_kept p crates r s t i x run at h = elim (Bool-cases s.in_range) [
    | inl e ↦
        let (w, y, observed, there) = update_slot p crates r s t i x run e at h in
        (y, w, there, observe-now p x y w observed)
    | inr e ↦ let (w, there) = update_idle p crates r s t i x run e at h in (_, w, there, refl)
  ]
