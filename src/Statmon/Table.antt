-- ===== src/Statmon/Table.antt =====
-- The kinds of the statistics of statmon/src/stats.rs: a float or an integer in each slot, under the
-- operations on one slot and on the whole table.
use ndp_auto_offload.Base.{
  >>=-eq-ok, ok-injective, ap, ⊤, ℕ, zero, suc, ◌≡◌, ◌≢◌, refl, ◌∙◌, List, [], ◌∷◌, map, length,
  length-map, length-update_at, All, update_at, ok, arith,
}
use ndp_auto_offload.Base.Int.{ℤ, pos, ◌+ℤ◌, min_ℤ, max_ℤ}
use ndp_auto_offload.Base.Words.{Profile, release, wrap_i64, fit_i64-eq-wrap}
use ndp_auto_offload.Statmon.Value.{
  FloatOps, StatValue, float, int, minval, maxval, zeroval, set_min, set_max, set_add,
}
use ndp_auto_offload.Statmon.Which.{WhichStat, as_usize}
use ndp_auto_offload.Statmon.Stat
use ndp_auto_offload.Statmon.Stat.{Stat, reset, update_aggregate}
use ndp_auto_offload.Statmon.Init.{stats_init}
use ndp_auto_offload.Statmon.Stats.{set_now}
use ndp_auto_offload.Statmon.Monitor.{aggregate_all}

abbrev pub IsInt : {F : Type 0} → StatValue F → Type 0
IsInt (float v) = ⊥
IsInt (int v) = ⊤

abbrev pub IsFloat : {F : Type 0} → StatValue F → Type 0
IsFloat (float v) = ⊤
IsFloat (int v) = ⊥

-- The four values of a statistic have one kind.
pub record IsIntStat {F : Type 0} (s : Stat F) : Type 0 where
  pub now : IsInt s.value_now
  pub low : IsInt s.value_min
  pub high : IsInt s.value_max
  pub sum : IsInt s.value_sum

pub record IsFloatStat {F : Type 0} (s : Stat F) : Type 0 where
  pub now : IsFloat s.value_now
  pub low : IsFloat s.value_min
  pub high : IsFloat s.value_max
  pub sum : IsFloat s.value_sum

-- 54 statistics, of which the first alone is a float.
abbrev pub IsTable : {F : Type 0} → List (Stat F) → Type 0
IsTable [] = ⊥
IsTable (s ∷ stats) = IsFloatStat s × All IsIntStat stats × (length stats ≡ 53)

-- Every slot but that of the load average.
abbrev pub IsIntSlot : WhichStat → Type 0
IsIntSlot WhichStat.load_avg1min = ⊥
IsIntSlot which = ⊤

IsIntSlot→ne : (which : WhichStat) → IsIntSlot which → as_usize which ≢ 0
unfolding as_usize
IsIntSlot→ne WhichStat.load_avg1min h = elim h [ ]
IsIntSlot→ne _ h = omega arith

update_at-IsIntStat :
    {F : Type 0} (i : ℕ) (v : ℤ) (stats : List (Stat F))
    → All IsIntStat stats
    → All IsIntStat (update_at i (λ s. record s { value_now = int v }) stats)
update_at-IsIntStat i v [] h = tt
update_at-IsIntStat zero v (s ∷ stats) h =
    (record { now = tt; low = h.0.low; high = h.0.high; sum = h.0.sum }, h.1)
update_at-IsIntStat (suc i) v (s ∷ stats) h = (h.0, update_at-IsIntStat i v stats h.1)

update_at-IsTable :
    {F : Type 0} (i : ℕ) (v : ℤ) (stats : List (Stat F))
    → i ≢ 0
    → IsTable stats
    → IsTable (update_at i (λ s. record s { value_now = int v }) stats)
update_at-IsTable i v [] ne h = elim h [ ]
update_at-IsTable zero v (s ∷ stats) ne h = absurd (ne refl)
update_at-IsTable (suc i) v (s ∷ stats) ne h =
    (h.0, update_at-IsIntStat i v stats h.1, length-update_at i _ stats ∙ h.2)

-- An integer stored in any slot but the load average keeps the kinds.
pub set_now-IsTable :
    {F : Type 0} (which : WhichStat) (v : ℤ) (stats : List (Stat F))
    → IsIntSlot which
    → IsTable stats
    → IsTable (set_now which (int v) stats)
unfolding set_now
set_now-IsTable which v stats slot =
    update_at-IsTable (as_usize which) v stats (IsIntSlot→ne which slot)

pub set_now-float-IsTable :
    {F : Type 0} (v : F) (stats : List (Stat F))
    → IsTable stats
    → IsTable (set_now WhichStat.load_avg1min (float v) stats)
unfolding set_now as_usize
set_now-float-IsTable v [] h = elim h [ ]
set_now-float-IsTable v (s ∷ stats) h =
    (record { now = tt; low = h.0.low; high = h.0.high; sum = h.0.sum }, h.1, h.2)

module _ {F : Type 0} ⦃fl : FloatOps F⦄ where
  reset-IsIntStat : (stats : List (Stat F)) → All IsIntStat stats → All IsIntStat (map reset stats)
  unfolding reset minval maxval zeroval
  reset-IsIntStat [] h = tt
  reset-IsIntStat (s ∷ stats) h = ground (arith, reset-IsIntStat stats h.1)

  pub reset-IsTable : (stats : List (Stat F)) → IsTable stats → IsTable (map reset stats)
  unfolding reset minval maxval zeroval
  reset-IsTable [] h = elim h [ ]
  reset-IsTable (s ∷ stats) h = ground (arith, reset-IsIntStat stats h.1, length-map reset stats)

  merge_min : StatValue F → StatValue F → StatValue F
  merge_min (float m) (float v) = float (fl.min m v)
  merge_min (int m) (int v) = int (min_ℤ m v)
  merge_min m v = m

  merge_max : StatValue F → StatValue F → StatValue F
  merge_max (float m) (float v) = float (fl.max m v)
  merge_max (int m) (int v) = int (max_ℤ m v)
  merge_max m v = m

  merge_sum : StatValue F → StatValue F → StatValue F
  merge_sum (float m) (float v) = float (fl.add m v)
  merge_sum (int m) (int v) = int (wrap_i64 (m +ℤ v))
  merge_sum m v = m

  -- What one update adds to an aggregate, where the kinds agree.
  pub aggregated : Stat F → Stat F
  unfolding merge_min merge_max merge_sum
  aggregated s = record s {
    value_min = merge_min s.value_min s.value_now;
    value_max = merge_max s.value_max s.value_now;
    value_sum = merge_sum s.value_sum s.value_now;
    value_cnt = wrap_i64 (s.value_cnt +ℤ pos 1);
  }

  pub update_aggregate_int :
      (s : Stat F) → IsIntStat s → update_aggregate release s ≡ ok (aggregated s)
  unfolding update_aggregate aggregated set_min set_max set_add
  update_aggregate_int s h = grind (arith, fit_i64-eq-wrap)

  pub update_aggregate_float :
      (s : Stat F) → IsFloatStat s → update_aggregate release s ≡ ok (aggregated s)
  unfolding update_aggregate aggregated set_min set_max set_add
  update_aggregate_float s h = grind (arith, fit_i64-eq-wrap)

  aggregated-IsIntStat : (s : Stat F) → IsIntStat s → IsIntStat (aggregated s)
  unfolding aggregated
  aggregated-IsIntStat s h = ground arith

  aggregated-IsFloatStat : (s : Stat F) → IsFloatStat s → IsFloatStat (aggregated s)
  unfolding aggregated
  aggregated-IsFloatStat s h = ground arith

  map-aggregated-IsIntStat :
      (stats : List (Stat F)) → All IsIntStat stats → All IsIntStat (map aggregated stats)
  map-aggregated-IsIntStat [] h = tt
  map-aggregated-IsIntStat (s ∷ stats) h =
      (aggregated-IsIntStat s h.0, map-aggregated-IsIntStat stats h.1)

  pub aggregated-IsTable : (stats : List (Stat F)) → IsTable stats → IsTable (map aggregated stats)
  aggregated-IsTable [] h = elim h [ ]
  aggregated-IsTable (s ∷ stats) h = (
    aggregated-IsFloatStat s h.0,
    map-aggregated-IsIntStat stats h.1,
    length-map aggregated stats ∙ h.2,
  )

  aggregate_all_int :
      (stats : List (Stat F))
      → All IsIntStat stats
      → aggregate_all release stats ≡ ok (map aggregated stats)
  unfolding aggregate_all
  aggregate_all_int [] h = refl
  aggregate_all_int (s ∷ stats) h =
      ground (arith, update_aggregate_int s h.0, aggregate_all_int stats h.1)

  -- A release build aggregates a table of the right kinds without a panic.
  pub aggregate_all-eq-map :
      (stats : List (Stat F))
      → IsTable stats
      → aggregate_all release stats ≡ ok (map aggregated stats)
  unfolding aggregate_all
  aggregate_all-eq-map [] h = elim h [ ]
  aggregate_all-eq-map (s ∷ stats) h =
      ground (arith, update_aggregate_float s h.0, aggregate_all_int stats h.1)

module _ {F : Type 0} ⦃fl : FloatOps F⦄ where
  -- In every build, what an aggregation gives has the kind that it was given.
  update_aggregate-IsIntStat :
      (p : Profile) (s t : Stat F) → IsIntStat s → update_aggregate p s ≡ ok t → IsIntStat t
  unfolding update_aggregate set_min set_max set_add
  update_aggregate-IsIntStat p s t h e = ground arith

  update_aggregate-IsFloatStat :
      (p : Profile) (s t : Stat F) → IsFloatStat s → update_aggregate p s ≡ ok t → IsFloatStat t
  unfolding update_aggregate set_min set_max set_add
  update_aggregate-IsFloatStat p s t h e = ground arith

  aggregate_all-IsIntStat :
      (p : Profile) (stats new_stats : List (Stat F))
      → All IsIntStat stats
      → aggregate_all p stats ≡ ok new_stats
      → All IsIntStat new_stats × (length new_stats ≡ length stats)
  unfolding aggregate_all
  aggregate_all-IsIntStat p [] r h e = ground arith
  aggregate_all-IsIntStat p (s ∷ stats) r h e =
      let (t, et, e') = >>=-eq-ok (update_aggregate p s) _ e in
      let (ts, ets, e'') = >>=-eq-ok (aggregate_all p stats) _ e' in
      let (kinds, len) = aggregate_all-IsIntStat p stats ts h.1 ets in
      rw (← ok-injective e'') ((update_aggregate-IsIntStat p s t h.0 et, kinds), ap suc len)

  pub aggregate_all-IsTable :
      (p : Profile) (stats new_stats : List (Stat F))
      → IsTable stats
      → aggregate_all p stats ≡ ok new_stats
      → IsTable new_stats
  unfolding aggregate_all
  aggregate_all-IsTable p [] r h e = elim h [ ]
  aggregate_all-IsTable p (s ∷ stats) r h e =
      let (t, et, e') = >>=-eq-ok (update_aggregate p s) _ e in
      let (ts, ets, e'') = >>=-eq-ok (aggregate_all p stats) _ e' in
      let (kinds, len) = aggregate_all-IsIntStat p stats ts h.1 ets in
      rw (← ok-injective e'') (update_aggregate-IsFloatStat p s t h.0 et, kinds, len ∙ h.2)

pub stats_init-IsTable : (F : Type 0) ⦃fl : FloatOps F⦄ → IsTable {F = F} stats_init
unfolding stats_init Stat.int Stat.float minval maxval
stats_init-IsTable F = ground arith
