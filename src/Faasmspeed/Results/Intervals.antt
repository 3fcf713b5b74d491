-- ===== src/Faasmspeed/Results/Intervals.antt =====
-- The backwards loop of `async_main` in faasmspeed/src/main.rs that makes start times into intervals.
use ndp_auto_offload.Base.{
  ℕ, zero, suc, ◌-◌, ◌≤◌, ◌≡◌, refl, ◌∙◌, sym, ap, arith, List, [], ◌∷◌, map, length, get_elem?,
  set, Outcome, ok, err, panic, ◌>>=◌, or_panic, out_of_bounds,
}
use ndp_auto_offload.Base.Words.{Profile, sub_uint, u128_mod}
use ndp_auto_offload.Faasmspeed.Report.Quantiles.{IsSorted}
use ndp_auto_offload.Faasmspeed.Results.{
  RequestResult, sort_by_key, subtract_previous, intervals_from, fill_first, intervals,
}
use ndp_auto_offload.Faasmspeed.Results.Sorting.{sort_by_key_lem}

abbrev pub started : RequestResult → ℕ
started r = r.start_time

-- Each result with the time since the one before it.
unfoldable pub gaps : ℕ → List RequestResult → List RequestResult
gaps last [] = []
gaps last (r ∷ rs) = record r { start_time = r.start_time - last } ∷ gaps r.start_time rs

-- The first result as it is, the others with the time since the one before.
unfoldable pub spaced : List RequestResult → List RequestResult
spaced [] = []
spaced (r ∷ rs) = r ∷ gaps r.start_time rs

bind_assoc :
    {A B C : Type 0} (m : Outcome A) (f : A → Outcome B) (g : B → Outcome C)
    → ((m >>= f) >>= g) ≡ (m >>= λ a. (f a >>= g))
bind_assoc (ok a) f g = refl
bind_assoc (err e) f g = refl
bind_assoc (panic e) f g = refl

bind_ok : {A : Type 0} (m : Outcome A) → m ≡ (m >>= λ a. ok a)
bind_ok (ok a) = refl
bind_ok (err e) = refl
bind_ok (panic e) = refl

bind_ext :
    {A B : Type 0} (m : Outcome A) {f g : A → Outcome B}
    → ((a : A) → f a ≡ g a)
    → (m >>= f) ≡ (m >>= g)
bind_ext (ok a) h = h a
bind_ext (err e) h = refl
bind_ext (panic e) h = refl

subtract_previous-tail :
    (p : Profile) (i : ℕ) (r : RequestResult) (rs : List RequestResult)
    → subtract_previous p (suc i) (r ∷ rs) ≡ (subtract_previous p i rs >>= λ rs'. ok (r ∷ rs'))
unfolding subtract_previous
subtract_previous-tail p i r rs =
    bind_ext (or_panic out_of_bounds (get_elem? rs i)) (λ prev.
      bind_ext (or_panic out_of_bounds (get_elem? rs (suc i))) (λ this. sym (
        bind_assoc (sub_uint u128_mod p this.start_time prev.start_time)
          (λ d. ok (set rs (suc i) (record this { start_time = d }))) (λ rs'. ok (r ∷ rs'))))
      ∙ sym (bind_assoc (or_panic out_of_bounds (get_elem? rs (suc i))) _ (λ rs'. ok (r ∷ rs'))))
    ∙ sym (bind_assoc (or_panic out_of_bounds (get_elem? rs i)) _ (λ rs'. ok (r ∷ rs')))

-- The loop over a list is the loop over its tail, then the step at its front.
intervals_from-tail :
    (p : Profile) (i : ℕ) (r : RequestResult) (rs : List RequestResult)
    → intervals_from p (suc i) (r ∷ rs)
      ≡ (intervals_from p i rs >>= λ rs'. subtract_previous p 0 (r ∷ rs'))
unfolding intervals_from
intervals_from-tail p zero r rs = sym (bind_ok (subtract_previous p 0 (r ∷ rs)))
intervals_from-tail p (suc i) r rs =
    ap (λ m. m >>= intervals_from p (suc i)) (subtract_previous-tail p i r rs)
    ∙ bind_assoc (subtract_previous p i rs) (λ rs'. ok (r ∷ rs')) (intervals_from p (suc i))
    ∙ bind_ext (subtract_previous p i rs) (λ rs'. intervals_from-tail p i r rs')
    ∙ sym (
        bind_assoc (subtract_previous p i rs) (intervals_from p i)
          (λ rs'. subtract_previous p 0 (r ∷ rs')))

sub_uint-le : (p : Profile) (a b : ℕ) → b ≤ a → sub_uint u128_mod p a b ≡ ok (a - b)
unfolding sub_uint
sub_uint-le p a b h = ground arith

subtract_front :
    (p : Profile) (r s : RequestResult) (rs : List RequestResult)
    → started r ≤ started s
    → subtract_previous p 0 (r ∷ s ∷ rs)
      ≡ ok (r ∷ record s { start_time = s.start_time - r.start_time } ∷ rs)
unfolding subtract_previous
subtract_front p r s rs h =
    ap (λ m. m >>= λ d. ok (r ∷ record s { start_time = d } ∷ rs))
      (sub_uint-le p (started s) (started r) h)

intervals_from-gaps :
    (p : Profile) (r : RequestResult) (rs : List RequestResult)
    → IsSorted (map started (r ∷ rs))
    → intervals_from p (length rs) (r ∷ rs) ≡ ok (r ∷ gaps r.start_time rs)
unfolding gaps intervals_from
intervals_from-gaps p r [] h = refl
intervals_from-gaps p r (s ∷ rs) h =
    intervals_from-tail p (length rs) r (s ∷ rs)
    ∙ ap (λ m. m >>= λ rs'. subtract_previous p 0 (r ∷ rs')) (intervals_from-gaps p s rs h.1)
    ∙ subtract_front p r s (gaps s.start_time rs) h.0

one_less : (n : ℕ) → suc n - 1 ≡ n
one_less n = omega arith

intervals_from-spaced :
    (p : Profile) (rs : List RequestResult)
    → IsSorted (map started rs)
    → intervals_from p (length rs - 1) rs ≡ ok (spaced rs)
unfolding spaced intervals_from
intervals_from-spaced p [] h = refl
intervals_from-spaced p (r ∷ rs) h =
    ap (λ i. intervals_from p i (r ∷ rs)) (one_less (length rs)) ∙ intervals_from-gaps p r rs h

pub intervals_lem :
    (p : Profile) (results : List RequestResult)
    → intervals p results
      ≡ ok (sort_by_key started (fill_first (spaced (sort_by_key started results))))
unfolding intervals
intervals_lem p results =
    let sorted = sort_by_key started results in
    ap (λ m. m >>= λ rs. ok (sort_by_key started (fill_first rs)))
      (intervals_from-spaced p sorted (sort_by_key_lem started results).0)
