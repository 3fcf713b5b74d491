-- ===== src/Faasmspeed/Phases/Sync.antt =====
-- The barrier keeps the tasks of faasmspeed/src/main.rs in the same phase.
use ndp_auto_offload.Base.{
  sym, ◌∙◌, ◌≡◌, ◌≢◌, ◌⊎◌, inl, inr, arith, length, length-append, ℕ, suc, ◌<◌, ◌≤◌, ◌==◌,
  if◌then◌else◌, List, ◌∷◌, ◌++◌, All,
}
use native.Mathlib.Decide.{dec_lt}
use ndp_auto_offload.Faasmspeed.Phases.Parties.{Barrier}
use ndp_auto_offload.Faasmspeed.Phases.Sums.{
  sum, sum-append, sum_full, sum_zero, All-pick, All-put, All-map, All-both,
}
use ndp_auto_offload.Faasmspeed.Phases.{Stage, running, waiting}

-- A party runs behind as many barriers as there were generations, or waits in the generation that it
-- is in, or has only to wake up from the one before.
unfoldable pub InStep : ℕ → Stage → Type 0
InStep gen (running k) = k ≡ gen
InStep gen (waiting k g) = (g ≡ k) × ((gen ≡ k) ⊎ (gen ≡ suc k))

unfoldable pub waits_in : ℕ → Stage → ℕ
waits_in gen (running k) = 0
waits_in gen (waiting k g) = if g == gen then 1 else 0

waits_in_le : (gen : ℕ) (p : Stage) → waits_in gen p ≤ 1
unfolding waits_in
waits_in_le gen (running k) = ground arith
waits_in_le gen (waiting k g) = ground arith

pub waits_in_own : (gen k : ℕ) → waits_in gen (waiting k gen) ≡ 1
unfolding waits_in
waits_in_own gen k = ground arith

waits_in_other : (gen k g : ℕ) → gen ≢ g → waits_in gen (waiting k g) ≡ 0
unfolding waits_in
waits_in_other gen k g h = ground arith

InStep-pass : (gen k g : ℕ) → gen ≢ g → InStep gen (waiting k g) → InStep gen (running (suc k))
unfolding InStep
InStep-pass gen k g h (q, at) = ground (arith, at)

-- A party that waits wakes up in the next generation.
InStep-suc :
    (gen : ℕ) (p : Stage)
    → InStep gen p × (waits_in gen p ≡ 1)
    → InStep (suc gen) p × (waits_in (suc gen) p ≡ 0)
unfolding waits_in InStep
InStep-suc gen (running k) w = ground (arith, w.1)
InStep-suc gen (waiting k g) ((q, at), w) = ((q, inr (ground (arith, w, q))), ground (arith, w, q))

module _ {B : Type 0} ⦃bar : Barrier B⦄ where
  pub record Together (b : B) (ps : List Stage) : Type 0 where
    pub in_step : All (InStep (bar.generation b)) ps
    pub counted : bar.arrived b ≡ sum (waits_in (bar.generation b)) ps
    pub parties : length ps ≡ bar.size
    pub room : bar.arrived b < bar.size

  pub Together-at :
      (b : B) (gen : ℕ)
      → bar.generation b ≡ gen
      → (ps : List Stage) → All (InStep gen) ps
      → bar.arrived b ≡ sum (waits_in gen) ps
      → length ps ≡ bar.size
      → bar.arrived b < bar.size
      → Together b ps
  Together-at b gen e ps i c l r = record {
    in_step = rw e i;
    counted = rw e c;
    parties = l;
    room = r;
  }

  module _ (b : B) (xs ys : List Stage) where
    abbrev gen : ℕ
    gen = bar.generation b

    abbrev Woken : Stage → Type 0
    Woken p = InStep (suc gen) p × (waits_in (suc gen) p ≡ 0)

    woken :
        (ps : List Stage) → All (InStep gen) ps → All (λ p. waits_in gen p ≡ 1) ps → All Woken ps
    woken ps h k = All-map _ Woken ps (InStep-suc gen) (All-both _ _ ps h k)

    length_same :
        (p q : Stage) → length (xs ++ p ∷ ys) ≡ bar.size → length (xs ++ q ∷ ys) ≡ bar.size
    length_same p q h = omega (arith, h, length-append xs (p ∷ ys), length-append xs (q ∷ ys))

    pub Together-pass :
        (k g : ℕ)
        → gen ≢ g
        → Together b (xs ++ waiting k g ∷ ys)
        → Together b (xs ++ running (suc k) ∷ ys)
    unfolding waits_in
    Together-pass k g h t =
        let (left, at, right) = All-pick (InStep gen) xs ys (waiting k g) t.in_step in
        record {
          in_step = All-put (InStep gen) xs ys _ left (InStep-pass gen k g h at) right;
          counted = omega (
            arith,
            t.counted,
            waits_in_other gen k g h,
            sum-append (waits_in gen) xs (waiting k g ∷ ys),
            sum-append (waits_in gen) xs (running (suc k) ∷ ys),
          );
          parties = length_same (waiting k g) (running (suc k)) t.parties;
          room = t.room;
        }

    arrive_early :
        (k : ℕ)
        → suc (bar.arrived b) < bar.size
        → Together b (xs ++ running k ∷ ys)
        → Together (bar.arrive b) (xs ++ waiting k gen ∷ ys)
    unfolding InStep waits_in
    arrive_early k early t =
        let (left, at, right) = All-pick (InStep gen) xs ys (running k) t.in_step in
        Together-at (bar.arrive b) gen (bar.early-generation b early) _
          (All-put (InStep gen) xs ys (waiting k gen) left (sym at, inl (sym at)) right)
          (omega (
            arith,
            t.counted,
            bar.early-arrived b early,
            waits_in_own gen k,
            sum-append (waits_in gen) xs (running k ∷ ys),
            sum-append (waits_in gen) xs (waiting k gen ∷ ys),
          ))
          (length_same (running k) (waiting k gen) t.parties)
          (omega (arith, early, bar.early-arrived b early))

    All-waits_in :
        (k : ℕ)
        → suc (bar.arrived b) ≡ bar.size
        → Together b (xs ++ running k ∷ ys)
        → All (λ p. waits_in gen p ≡ 1) xs × All (λ p. waits_in gen p ≡ 1) ys
    unfolding waits_in
    All-waits_in k last t =
        let (xs_most, xs_all) = sum_full (waits_in gen) xs (waits_in_le gen) in
        let (ys_most, ys_all) = sum_full (waits_in gen) ys (waits_in_le gen) in
        let split = sum-append (waits_in gen) xs (running k ∷ ys) in
        let long = length-append xs (running k ∷ ys) in
        (
          xs_all (omega (arith, last, t.parties, t.counted, xs_most, ys_most, split, long)),
          ys_all (omega (arith, last, t.parties, t.counted, xs_most, ys_most, split, long)),
        )

    arrive_last :
        (k : ℕ)
        → suc (bar.arrived b) ≡ bar.size
        → Together b (xs ++ running k ∷ ys)
        → Together (bar.arrive b) (xs ++ waiting k gen ∷ ys)
    unfolding InStep waits_in
    arrive_last k last t =
        let (left, at, right) = All-pick (InStep gen) xs ys (running k) t.in_step in
        let (left_wait, right_wait) = All-waits_in k last t in
        let own = InStep-suc gen (waiting k gen) ((sym at, inl (sym at)), waits_in_own gen k) in
        let all =
          All-put Woken xs ys (waiting k gen) (woken xs left left_wait) own
            (woken ys right right_wait) in
        Together-at (bar.arrive b) (suc gen) (bar.last-generation b last) _
          (All-map Woken (InStep (suc gen)) _ (λ p h. h.0) all)
          (bar.last-arrived b last
            ∙ sym (sum_zero (waits_in (suc gen)) _ (All-map Woken _ _ (λ p h. h.1) all)))
          (length_same (running k) (waiting k gen) t.parties)
          (omega (arith, last, bar.last-arrived b last))

    pub Together-arrive :
        (k : ℕ)
        → Together b (xs ++ running k ∷ ys)
        → Together (bar.arrive b) (xs ++ waiting k gen ∷ ys)
    Together-arrive k t = elim (dec_lt (suc (bar.arrived b)) bar.size) [
      | yes early ↦ arrive_early k early t
      | no late ↦ arrive_last k (omega (arith, late, t.room)) t
    ]
