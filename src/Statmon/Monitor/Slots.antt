-- ===== src/Statmon/Monitor/Slots.antt =====
-- One integer statistic under `Stats::update` of statmon/src/stats.rs: what the update reads for it,
-- and how it is aggregated.
use ndp_auto_offload.Base.{
  >>=-eq-ok, ok-injective, some-eq, refl, sym, ap, ◌∙◌, ◌≡◌, ℕ, zero, suc, Bool, true, false, List,
  [], ◌∷◌, map, get_elem?, update_at, some, ok,
}
use ndp_auto_offload.Base.Int.{ℤ, pos}
use ndp_auto_offload.Base.Words.{Profile}
use ndp_auto_offload.Statmon.Value.{FloatOps, StatValue, float, int}
use ndp_auto_offload.Statmon.Which.{WhichStat, as_usize}
use ndp_auto_offload.Statmon.Stat.{Stat, update_aggregate}
use ndp_auto_offload.Statmon.Host.{Round, Crates}
use ndp_auto_offload.Statmon.Run.{◌>>=◌, gets, modify, lift, when, returns}
use ndp_auto_offload.Statmon.Run.Returns.{bind_returns, lift_ok, lift_returns, returns-injective}
use ndp_auto_offload.Statmon.Stats.{Stats, set_now}
use ndp_auto_offload.Statmon.Monitor.{aggregate_all, aggregate, read_all, update}
use ndp_auto_offload.Statmon.Monitor.Reads.{read_all-Keeps}
use ndp_auto_offload.Statmon.Table.{IsInt}
use ndp_auto_offload.Statmon.Range.{observe}

-- A statistic without its present value.
blank : {F : Type 0} → Stat F → Stat F
blank s = record s { value_now = int (pos 0) }

-- A statistic in the place `i` has an integer.
abbrev HasInt : {F : Type 0} → ℕ → List (Stat F) → Type 0
HasInt {F} i stats = (x : Stat F) → get_elem? stats i ≡ some x → IsInt x.value_now

module _ {F : Type 0} where
  blank_update :
      (i : ℕ) (v : StatValue F) (stats : List (Stat F))
      → map blank (update_at i (λ s. record s { value_now = v }) stats) ≡ map blank stats
  unfolding blank
  blank_update i v [] = refl
  blank_update zero v (s ∷ stats) = refl
  blank_update (suc i) v (s ∷ stats) = ap (λ l. blank s ∷ l) (blank_update i v stats)

  HasInt-update :
      (i j : ℕ) (v : ℤ) (stats : List (Stat F))
      → HasInt i stats
      → HasInt i (update_at j (λ s. record s { value_now = int v }) stats)
  HasInt-update i j v [] h = h
  HasInt-update zero zero v (s ∷ stats) h = λ x e. rw (← some-eq e) tt
  HasInt-update (suc i) zero v (s ∷ stats) h = h
  HasInt-update zero (suc j) v (s ∷ stats) h = h
  HasInt-update (suc i) (suc j) v (s ∷ stats) h = HasInt-update i j v stats h

  HasInt-load :
      (i : ℕ) (v : F) (stats : List (Stat F))
      → HasInt (suc i) stats
      → HasInt (suc i) (set_now WhichStat.load_avg1min (float v) stats)
  unfolding set_now as_usize
  HasInt-load i v [] h = h
  HasInt-load i v (s ∷ stats) h = h

  same_place :
      (i : ℕ) (olds news : List (Stat F)) (x : Stat F)
      → map blank news ≡ map blank olds
      → get_elem? olds i ≡ some x
      → (y : Stat F) × (get_elem? news i ≡ some y) × (blank y ≡ blank x)
  same_place i [] news x e h = cc
  same_place i (o ∷ olds) [] x e h = cc
  same_place zero (o ∷ olds) (n ∷ news) x e h = (n, refl, cc)
  same_place (suc i) (o ∷ olds) (n ∷ news) x e h = same_place i olds news x (cc) h

  -- Two statistics that differ in their values alone.
  revalued :
      (x y : Stat F)
      → blank y ≡ blank x
      → IsInt y.value_now
      → (w : ℤ) × (y ≡ record x { value_now = int w })
  unfolding blank
  revalued x y e h = int_value y.value_now h
    where
      int_value :
          (v : StatValue F)
          → IsInt v
          → (w : ℤ) × (record y { value_now = v } ≡ record x { value_now = int w })
      int_value (float v) k = elim k [ ]
      int_value (int w) k = (w, ap (λ (s : Stat F). record s { value_now = int w }) e)

module _ {F : Type 0} ⦃fl : FloatOps F⦄ where
  aggregate_slot :
      (p : Profile) (stats news : List (Stat F)) (i : ℕ) (x : Stat F)
      → aggregate_all p stats ≡ ok news
      → get_elem? stats i ≡ some x
      → (y : Stat F) × (update_aggregate p x ≡ ok y) × (get_elem? news i ≡ some y)
  unfolding aggregate_all
  aggregate_slot p [] news i x e h = cc
  aggregate_slot p (s ∷ stats) news zero x e h =
      let (t, et, e') = >>=-eq-ok (update_aggregate p s) _ e in
      let (ts, ets, e'') = >>=-eq-ok (aggregate_all p stats) _ e' in
      (t, rw (← some-eq h) et, rw (← ok-injective e'') refl)
  aggregate_slot p (s ∷ stats) news (suc i) x e h =
      let (t, et, e') = >>=-eq-ok (update_aggregate p s) _ e in
      let (ts, ets, e'') = >>=-eq-ok (aggregate_all p stats) _ e' in
      rw (← ok-injective e'') (aggregate_slot p stats ts i x ets h)

abbrev IsRead : {F : Type 0} → List (Stat F) → ℕ → Bool → List (Stat F) → Bool → Type 0
IsRead blanks i b stats r = (map blank stats ≡ blanks) × HasInt (suc i) stats × (r ≡ b)

module _ {F C : Type 0} ⦃fl : FloatOps F⦄ where
  read_slot :
      (p : Profile) (crates : Crates) (r : Round C) (s m : Stats F C) (i : ℕ) (x : Stat F)
      → read_all p crates r s ≡ returns tt m
      → get_elem? s.stats (suc i) ≡ some x
      → IsInt x.value_now
      → (w : ℤ) × (get_elem? m.stats (suc i) ≡ some (record x { value_now = int w }))
        × (m.in_range ≡ s.in_range)
  unfolding set_now
  read_slot p crates r s m i x run at h =
      let P = IsRead (map blank s.stats) i s.in_range in
      let before : P s.stats s.in_range = (refl, (λ y e. rw (← some-eq (sym at ∙ e)) h), refl) in
      let (same, kind, flag) : P m.stats m.in_range = rw run at (
        (read_all-Keeps P
            (λ which v stats b k. (
              blank_update (as_usize which) (int v) stats ∙ k.0,
              HasInt-update (suc i) (as_usize which) v stats k.1,
              k.2,
            ))
            (λ v stats b k. (
              blank_update (as_usize WhichStat.load_avg1min) (float v) stats ∙ k.0,
              HasInt-load i v stats k.1,
              k.2,
            ))
            p crates r).at
          s before) in
      let (y, there, e) = same_place (suc i) s.stats m.stats x same at in
      let (w, is) = revalued x y e (kind y there) in (w, there ∙ ap some is, flag)

  aggregate_returns :
      (p : Profile) (s t : Stats F C)
      → aggregate p s ≡ returns tt t
      → (news : List (Stat F)) × (aggregate_all p s.stats ≡ ok news)
        × (t ≡ record s { stats = news })
  unfolding aggregate ◌>>=◌ gets modify
  aggregate_returns p s t h =
      let (news, s', first, rest) = bind_returns (lift (aggregate_all p s.stats) s) _ tt t h in
      let same : s ≡ s' = lift_returns _ s s' news first in
      (news, lift_ok _ s s' news first, rw same (returns-injective tt tt _ t rest).1)

  -- An update in a range observes the value that it reads.
  pub update_slot :
      (p : Profile) (crates : Crates) (r : Round C) (s t : Stats F C) (i : ℕ) (x : Stat F)
      → update p crates r s ≡ returns tt t
      → s.in_range ≡ true
      → get_elem? s.stats (suc i) ≡ some x
      → IsInt x.value_now
      → (w : ℤ) × (y : Stat F) × (observe p x w ≡ ok y) × (get_elem? t.stats (suc i) ≡ some y)
  unfolding update ◌>>=◌ gets when observe
  update_slot p crates r s t i x run open_range at h =
      let (_, m, first, rest) = bind_returns (read_all p crates r s) _ tt t run in
      let (w, there, flag) = read_slot p crates r s m i x first at h in
      let rest' : aggregate p m ≡ returns tt t = rw (flag ∙ open_range) at rest in
      let (news, made, e) = aggregate_returns p m t rest' in
      let (y, observed, place) = aggregate_slot p m.stats news (suc i) _ made there in
      (w, y, observed, ap (λ (z : Stats F C). get_elem? z.stats (suc i)) e ∙ place)

  -- Outside of a range it only stores it.
  pub update_idle :
      (p : Profile) (crates : Crates) (r : Round C) (s t : Stats F C) (i : ℕ) (x : Stat F)
      → update p crates r s ≡ returns tt t
      → s.in_range ≡ false
      → get_elem? s.stats (suc i) ≡ some x
      → IsInt x.value_now
      → (w : ℤ) × (get_elem? t.stats (suc i) ≡ some (record x { value_now = int w }))
  unfolding update ◌>>=◌ gets when
  update_idle p crates r s t i x run closed at h =
      let (_, m, first, rest) = bind_returns (read_all p crates r s) _ tt t run in
      let (w, there, flag) = read_slot p crates r s m i x first at h in
      let e : m ≡ t = (returns-injective tt tt t m (sym (rw (flag ∙ closed) at rest))).1 in
      (w, ap (λ (z : Stats F C). get_elem? z.stats (suc i)) (sym e) ∙ there)
