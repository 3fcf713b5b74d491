-- ===== src/Statmon/Server/Ranges/Whole.antt =====
-- A whole range of statmon/src/main.rs and stats.rs: `[`, ticks of the timer, `]`, and more ticks.
use mathlib.Core.Path.{subst}
use mathlib.Core.List.{map-append}
use ndp_auto_offload.Base.{
  All, zero, some-eq, refl, sym, ap, ◌∙◌, ◌≡◌, ◌<◌, ◌^◌, ℕ, suc, true, List, [], ◌∷◌, ◌++◌, ◌-◌,
  map, length, get_elem?, some,
}
use ndp_auto_offload.Base.Int.{ℤ}
use ndp_auto_offload.Base.Words.{Profile, release, IsI64}
use ndp_auto_offload.Statmon.Value.{FloatOps}
use ndp_auto_offload.Statmon.Which.{WhichStat, as_usize}
use ndp_auto_offload.Statmon.Stat.{Stat, reset}
use ndp_auto_offload.Statmon.Host.{Round, Crates}
use ndp_auto_offload.Statmon.Run.{returns}
use ndp_auto_offload.Statmon.Stats.{Stats}
use ndp_auto_offload.Statmon.Monitor.Slots.{update_slot}
use ndp_auto_offload.Statmon.Table.{IsInt, IsIntSlot}
use ndp_auto_offload.Statmon.Range.{IsRange}
use ndp_auto_offload.Statmon.Server.{Reply, timer, handle_byte}
use ndp_auto_offload.Statmon.Server.Ranges.{handle_byte_open, handle_byte_close}
use ndp_auto_offload.Statmon.Server.Ranges.Ticks.{timer-in_range}
use ndp_auto_offload.Statmon.Server.Ranges.Observed.{
  value_of, states, appended-IsRange, observe_all-append, timer_slot, idle_slot, update_kept,
  observed_value, observe-IsInt,
}

get_elem?-map :
    {A B : Type 0} (f : A → B) (xs : List A) (i : ℕ) (a : A)
    → get_elem? xs i ≡ some a
    → get_elem? (map f xs) i ≡ some (f a)
get_elem?-map f [] i a h = cc
get_elem?-map f (x ∷ xs) zero a h = ap some (ap f (some-eq h))
get_elem?-map f (x ∷ xs) (suc i) a h = get_elem?-map f xs i a h

-- The slots behind that of the load average.
later_slot : (which : WhichStat) → IsIntSlot which → as_usize which ≡ suc (as_usize which - 1)
unfolding as_usize
later_slot WhichStat.load_avg1min h = elim h [ ]
later_slot _ h = refl

module _ {F : Type 0} ⦃fl : FloatOps F⦄ where
  reset-now : (x : Stat F) → (reset x).value_now ≡ x.value_now
  unfolding reset
  reset-now x = refl

module _ {F C : Type 0} ⦃fl : FloatOps F⦄ where
  -- The values of a statistic at the ends of the updates of a range.
  abbrev pub range_values :
      Profile → Crates → WhichStat → List (Round C) → Stats F C → Stats F C → List ℤ
  range_values p crates which rounds t u =
      map (value_of (as_usize which)) (states p crates rounds t ++ u ∷ [])

  range_lem :
      (crates : Crates) (r1 r2 : Round C) (rounds later : List (Round C)) (s t v u w : Stats F C)
      (first second : Reply) (i : ℕ) (x : Stat F)
      → get_elem? s.stats (suc i) ≡ some x
      → IsInt x.value_now
      → handle_byte release crates r1 b'[' s ≡ returns first t
      → timer release crates rounds t ≡ returns tt v
      → handle_byte release crates r2 b']' v ≡ returns second u
      → timer release crates later u ≡ returns tt w
      → All IsI64
          (map (value_of (suc i)) (states release crates rounds t) ++ value_of (suc i) u ∷ [])
      → length (map (value_of (suc i)) (states release crates rounds t) ++ value_of (suc i) u ∷ [])
        < 2 ^ 63
      → (y : Stat F) × (get_elem? w.stats (suc i) ≡ some y)
        × IsRange
            (map (value_of (suc i)) (states release crates rounds t) ++ value_of (suc i) u ∷ [])
            y
  range_lem crates r1 r2 rounds later s t v u w first second i x at h opened run closed idle small
        short =
      let (m, updated, _, et) = handle_byte_open release crates r1 s t first opened in
      let (x1, n, at1, e1) = update_kept release crates r1 s m i x updated at h in
      let slot = λ (z : Stats F C). get_elem? z.stats (suc i) in
      let at2 : slot t ≡ some (reset x1) =
        ap slot et ∙ get_elem?-map reset m.stats (suc i) x1 at1 in
      let open_t : t.in_range ≡ true = ap (λ (z : Stats F C). z.in_range) et in
      let (y1, all, at3, kind) =
        timer_slot release crates rounds t v i (reset x1) run open_t at2
          (subst IsInt (sym (reset-now x1 ∙ e1)) tt) in
      let open_v : v.in_range ≡ true = timer-in_range true release crates rounds t v run open_t in
      let (m2, updated2, _, eu) = handle_byte_close release crates r2 v u second closed in
      let (w2, y2, observed, at4) =
        update_slot release crates r2 v m2 i y1 updated2 open_v at3 kind in
      let at5 : slot u ≡ some y2 = ap slot eu ∙ at4 in
      let value : value_of (suc i) u ≡ w2 =
        observed_value release y1 y2 w2 (suc i) u observed at5 in
      let range =
        appended-IsRange x1 y2 n (map (value_of (suc i)) (states release crates rounds t))
          (value_of (suc i) u) e1 small short
          (observe_all-append release (reset x1) y1 y2 _ (value_of (suc i) u) all
            (rw value observed)) in
      idle_slot release crates later u w i y2 _ idle (ap (λ (z : Stats F C). z.in_range) eu) at5
        (observe-IsInt release y1 y2 w2 observed) range

  -- Of an integer statistic, in a release build: where the host answers `[`, any number of ticks, `]`
  -- and any number of further ticks, the statistic has at the end the least and the greatest of the
  -- values that it had at the ends of the ticks in the range and of the update that `]` makes, their
  -- sum modulo 2 ^ 64 as an i64, and their number, if these values are in the range of i64 and are
  -- fewer than 2 ^ 63.
  pub whole-IsRange :
      (crates : Crates) (r1 r2 : Round C) (rounds later : List (Round C)) (s t v u w : Stats F C)
      (first second : Reply) (which : WhichStat) (x : Stat F)
      → IsIntSlot which
      → get_elem? s.stats (as_usize which) ≡ some x
      → IsInt x.value_now
      → handle_byte release crates r1 b'[' s ≡ returns first t
      → timer release crates rounds t ≡ returns tt v
      → handle_byte release crates r2 b']' v ≡ returns second u
      → timer release crates later u ≡ returns tt w
      → All IsI64 (range_values release crates which rounds t u)
      → length (range_values release crates which rounds t u) < 2 ^ 63
      → (y : Stat F) × (get_elem? w.stats (as_usize which) ≡ some y)
        × IsRange (range_values release crates which rounds t u) y
  whole-IsRange crates r1 r2 rounds later s t v u w first second which x slot at h opened run closed
        idle small short =
      let e = later_slot which slot in
      let i = as_usize which - 1 in
      let vs : range_values release crates which rounds t u
          ≡ map (value_of (suc i)) (states release crates rounds t) ++ value_of (suc i) u ∷ [] =
        ap (λ j. map (value_of j) (states release crates rounds t ++ u ∷ [])) e
        ∙ map-append _ _ _ in
      let (y, there, range) =
        range_lem crates r1 r2 rounds later s t v u w first second i x
          (ap (get_elem? s.stats) (sym e) ∙ at) h opened run closed idle
          (subst (All IsI64) vs small) (subst (λ l. length l < 2 ^ 63) vs short) in
      (y, ap (get_elem? w.stats) e ∙ there, subst (λ l. IsRange l y) (sym vs) range)
