-- ===== src/Faasmspeed/Phases/Share.antt =====
-- The part of its requests that faasmspeed/src/main.rs offloads, from the choices to the counters.
use ndp_auto_offload.Base.{
  ap, refl, ◌∙◌, ◌≡◌, arith, length, length-map, map, ℕ, suc, ◌*◌, ◌<◌, Bool, true, false, List, [],
  ◌∷◌, Option, some, Outcome, ok,
}
use Prim.Native.Nat.{min}
use ndp_auto_offload.Base.Int.{pos_part}
use ndp_auto_offload.Base.Words.{Profile, u64_mod}
use ndp_auto_offload.Faasmspeed.Schedule.{Choice, Generator, Plan, generate}
use ndp_auto_offload.Faasmspeed.Schedule.Plain.{offered}
use ndp_auto_offload.Faasmspeed.Schedule.Fraction.{IsUsable, generate_total, generate_fraction}
use ndp_auto_offload.Faasmspeed.Phases.Parties.{Barrier}
use ndp_auto_offload.Faasmspeed.Phases.Sums.{sum}
use ndp_auto_offload.Faasmspeed.Phases.{System, Reach, new_system}
use ndp_auto_offload.Faasmspeed.Phases.Tally.{is_ndp}
use ndp_auto_offload.Faasmspeed.Phases.Monitoring.{passed}
use ndp_auto_offload.Faasmspeed.Phases.Totals.{requests_of, counters_end}

-- The forms of the requests that the loop chooses.
abbrev pub chosen_forms : List Choice → List Bool
chosen_forms cs = map (λ c. c.1) cs

ndp-offered : (cs : List Choice) → sum is_ndp (chosen_forms cs) ≡ offered cs
unfolding offered
ndp-offered [] = refl
ndp-offered ((w, true) ∷ cs) = omega (arith, ndp-offered cs)
ndp-offered ((w, false) ∷ cs) = omega (arith, ndp-offered cs)

same_choices :
    (cs ds : List Choice) (g h : Generator) (r : Option (Outcome (List Choice × Generator)))
    → r ≡ some (ok (cs, g))
    → r ≡ some (ok (ds, h))
    → cs ≡ ds
same_choices cs ds g h r p q = cc

positive_product : (m d : ℕ) → 0 < m → 0 < d → 0 < m * d
positive_product m d hm hd = grind arith

module _ (f : ℕ) (p : Profile) (plan : Plan) (d m : ℕ) (u : IsUsable plan d) (some_rounds : 0 < m)
    (cs : List Choice) (g : Generator)
    (made : generate (suc (suc f)) p plan (m * d) ≡ some (ok (cs, g))) where
  choices_length : length cs ≡ m * d
  choices_length =
      let (ds, h, run, long, _) =
        generate_total f p plan d (m * d) 0 u (positive_product m d some_rounds u.positive) in
      ap length (same_choices cs ds g h _ made run) ∙ long

  choices_offered : offered cs ≡ m * min (pos_part plan.offload_frac_num) d
  choices_offered =
      let (ds, h, run, part, _) = generate_fraction f p plan d m u in
      ap offered (same_choices cs ds g h _ made run) ∙ part

  module _ {B : Type 0} ⦃bar : Barrier B⦄ (size : bar.size ≡ 2) (fits : m * d < u64_mod) where
    -- Of a run for one function whose loop chose `m` whole rounds, at least one, of `d` requests, `d` the denominator
    -- and fewer than 2 ^ 64 requests in all, the counters at the end give the share that the options
    -- ask for: `total_requests` is m d, and `ndp_requests` is m times the numerator, or all if the
    -- numerator is larger, whatever the order of the steps.
    pub counters_share :
        (s : System B)
        → Reach false (new_system bar.fresh (chosen_forms cs ∷ [])) s
        → passed s.main.stage ≡ 4
        → (s.shared.total_requests ≡ m * d)
          × (s.shared.ndp_requests ≡ m * min (pos_part plan.offload_frac_num) d)
    counters_share s r four =
        let whole : requests_of (chosen_forms cs ∷ []) ≡ m * d =
          omega (arith, length-map (λ c. c.1) cs, choices_length) in
        let small : requests_of (chosen_forms cs ∷ []) < u64_mod = omega (arith, whole, fits) in
        let (total, _, ndp, _) = counters_end false (chosen_forms cs ∷ []) size small s r four in
        (total ∙ whole, omega (arith, ndp, ndp-offered cs, choices_offered))
