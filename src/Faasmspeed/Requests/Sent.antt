-- ===== src/Faasmspeed/Requests/Sent.antt =====
-- What the requests of the first function in faasmspeed/src/main.rs carry, from the options on.
use mathlib.Core.Path.{subst}
use mathlib.Core.Option
use ndp_auto_offload.Base.{
  ℕ, zero, suc, ◌-◌, ◌%◌, ◌<◌, ◌^◌, ◌≡◌, refl, sym, ap, ◌∙◌, arith, not, true, false, Bool, Option,
  some, none, List, [], ◌∷◌, map, length, length-map, All, get_elem?, ok, err, panic, >>=-eq-ok,
  ok-injective, some-eq,
}
use ndp_auto_offload.Base.Int.{ℤ, pos, ◌+ℤ◌, ltb_ℤ}
use ndp_auto_offload.Base.Words.{Profile, fit_i32}
use ndp_auto_offload.Text.{Text}
use ndp_auto_offload.Faasmspeed.Options.{Options}
use ndp_auto_offload.Faasmspeed.Json.Reader.{IsContent, read_object}
use ndp_auto_offload.Faasmspeed.Json.Body.{call_fields}
use ndp_auto_offload.Faasmspeed.Schedule.{
  Looped, ◌>>=◌, Plan, Generator, Choice, generate, requests, next_request, pick, choose, first,
  reduce,
}
use ndp_auto_offload.Faasmspeed.Schedule.Fraction.{generate_total}
use ndp_auto_offload.Faasmspeed.Requests.{
  World, Request, Prepared, first_is_file, prepare, form, chosen_request, test_request, answered,
}
use ndp_auto_offload.Faasmspeed.Requests.Chosen.{
  built, both_forms, request_pool_lem, chosen_request-fields,
}
use ndp_auto_offload.Faasmspeed.Requests.First.{prepared, prepare_lem, test_request_lem}
use ndp_auto_offload.Faasmspeed.Requests.Run.{
  RateFloats, at_least_zero, total_requests, interval, plan_of, chosen_requests, run_requests,
  executed,
}

looped-eq-ok :
    {A B : Type 0} (m : Looped A) (f : A → Looped B) (b : B)
    → (m >>= f) ≡ some (ok b)
    → (a : A) × (m ≡ some (ok a)) × (f a ≡ some (ok b))
looped-eq-ok none f b h = cc
looped-eq-ok (some (ok a)) f b h = (a, refl, h)
looped-eq-ok (some (err e)) f b h = cc
looped-eq-ok (some (panic q)) f b h = cc

pick_in_pool :
    (plan : Plan) (g h : Generator) (v : ℤ) (c : Choice)
    → pick plan g v ≡ ok (c, h)
    → c.0 < plan.pool_len
unfolding pick choose
pick_in_pool plan g h v c e = ground arith

next_in_pool :
    (fuel : ℕ) (p : Profile) (plan : Plan) (g h : Generator) (c : Choice)
    → next_request fuel p plan g ≡ some (ok (c, h))
    → c.0 < plan.pool_len
unfolding next_request
next_in_pool fuel p plan g h c e =
    let (u, _, r1) = looped-eq-ok (some (fit_i32 p (g.ndp_var +ℤ pos 1))) _ (c, h) e in
    let (v, _, r2) = looped-eq-ok (reduce fuel p plan.offload_frac_den u) _ (c, h) r1 in
    pick_in_pool plan g h v c (some-eq r2)

-- The entries of the pool that the loop takes are there.
requests_in_pool :
    (fuel : ℕ) (p : Profile) (plan : Plan) (n : ℕ) (g h : Generator) (cs : List Choice)
    → requests fuel p plan n g ≡ some (ok (cs, h))
    → All (λ c. c.0 < plan.pool_len) cs
unfolding requests
requests_in_pool fuel p plan zero g h cs e =
    let none_made : [] ≡ cs =
      ap (λ (r : List Choice × Generator). r.0) (ok-injective (some-eq e)) in
    rw (← none_made) tt
requests_in_pool fuel p plan (suc n) g h cs e =
    let ((c, g'), one, rest) = looped-eq-ok (next_request fuel p plan g) _ (cs, h) e in
    let ((ds, h'), more, last) = looped-eq-ok (requests fuel p plan n g') _ (cs, h) rest in
    let both : c ∷ ds ≡ cs =
      ap (λ (r : List Choice × Generator). r.0) (ok-injective (some-eq last)) in
    rw (← both)
      ((next_in_pool fuel p plan g g' c one, requests_in_pool fuel p plan n g' h' ds more))

generate_in_pool :
    (fuel : ℕ) (p : Profile) (plan : Plan) (n : ℕ) (h : Generator) (cs : List Choice)
    → generate fuel p plan n ≡ some (ok (cs, h))
    → All (λ c. c.0 < plan.pool_len) cs
unfolding generate
generate_in_pool fuel p plan n h cs e =
    let (g, _, rest) = looped-eq-ok (some (first p plan)) _ (cs, h) e in
    requests_in_pool fuel p plan n g h cs rest

entry : {A : Type 0} (xs : List A) (i : ℕ) → i < length xs → (a : A) × (get_elem? xs i ≡ some a)
entry [] i h = elim h [ ]
entry (x ∷ xs) zero h = (x, refl)
entry (x ∷ xs) (suc i) h = entry xs i (omega arith)

chosen_request_made :
    (pool : List (Request × Request)) (c : Choice)
    → c.0 < length pool
    → (r : Request) × (chosen_request pool c ≡ ok r)
unfolding chosen_request
chosen_request_made pool (k, ndp) h =
    let (forms, at) = entry pool k h in (form ndp forms, rw at refl)

chosen_requests_made :
    (pool : List (Request × Request)) (cs : List Choice)
    → All (λ c. c.0 < length pool) cs
    → (rs : List Request) × (chosen_requests pool cs ≡ ok rs) × (length rs ≡ length cs)
unfolding chosen_requests
chosen_requests_made pool [] h = ([], refl, refl)
chosen_requests_made pool (c ∷ cs) h =
    let (r, one) = chosen_request_made pool c h.0 in
    let (rs, more, long) = chosen_requests_made pool cs h.1 in
    (r ∷ rs, rw (one, more) refl, ap suc long)

chosen_requests_at :
    (pool : List (Request × Request)) (cs : List Choice) (rs : List Request) (i : ℕ) (c : Choice)
    (r : Request)
    → chosen_requests pool cs ≡ ok rs
    → get_elem? cs i ≡ some c
    → chosen_request pool c ≡ ok r
    → get_elem? rs i ≡ some r
unfolding chosen_requests
chosen_requests_at pool [] rs i c r e at one = cc
chosen_requests_at pool (d ∷ cs) rs zero c r e at one =
    let (q, first, rest) = >>=-eq-ok (chosen_request pool d) _ e in
    let (qs, _, last) = >>=-eq-ok (chosen_requests pool cs) _ rest in
    let same : q ≡ r = ok-injective (sym first ∙ ap (chosen_request pool) (some-eq at) ∙ one) in
    rw (← ok-injective last) (ap some same)
chosen_requests_at pool (d ∷ cs) rs (suc i) c r e at one =
    let (q, _, rest) = >>=-eq-ok (chosen_request pool d) _ e in
    let (qs, more, last) = >>=-eq-ok (chosen_requests pool cs) _ rest in
    rw (← ok-injective last) (chosen_requests_at pool cs qs i c r more at one)

choice_at :
    (cs : List Choice) (i k : ℕ)
    → Option.map (λ (c : Choice). c.0) (get_elem? cs i) ≡ some k
    → (ndp : Bool) × (get_elem? cs i ≡ some (k, ndp))
choice_at [] i k h = cc
choice_at ((j, ndp) ∷ cs) zero k h = (ndp, ap (λ n. some (n, ndp)) (some-eq h))
choice_at (c ∷ cs) (suc i) k h = choice_at cs i k h

All-get {κ} :
    {A : Type 0} (P : A → Type κ) (xs : List A) (i : ℕ) (x : A)
    → All P xs
    → get_elem? xs i ≡ some x
    → P x
All-get P [] i x h e = cc
All-get P (y ∷ xs) zero x h e = subst P (some-eq e) h.0
All-get P (y ∷ xs) (suc i) x h e = All-get P xs i x h.1 e

run_lem :
    {F : Type 0} (fuel : ℕ) (p : Profile) (fl : RateFloats F) (w : World) (opts : Options F) (n : ℕ)
    (s : Prepared F) (t : Option Request) (cs : List Choice) (g : Generator) (rs : List Request)
    → opts.oneshot ≡ false
    → opts.dry_run ≡ false
    → prepare w opts 0 ≡ ok s
    → test_request opts s ≡ ok t
    → answered w t ≡ ok tt
    → total_requests fl s.requests_per_second opts.time ≡ ok n
    → interval fl s.requests_per_second ≡ ok tt
    → generate fuel p (plan_of opts s) n ≡ some (ok (cs, g))
    → chosen_requests s.pool cs ≡ ok rs
    → run_requests fuel p fl w opts 0 ≡ some (ok rs)
unfolding run_requests executed
run_lem fuel p fl w opts n s t cs g rs many_shots wet ready test reply planned ticking run made =
    rw (ready, test, reply, planned, ticking, run, made, wet, many_shots) refl

-- Of options with a URL, at least one input, inputs that are no file, a positive denominator `d`
-- below the largest i32, and a user, function and inputs that are valid contents of JSON strings:
-- if the run is neither a oneshot nor a dry one, the test request is answered, the rate times the
-- time rounds up to `n`, and tokio takes the rate's period, then in every build and on two turns of
-- fuel or more the task of the first function sends `n` requests behind the test request. For each
-- `i` below `n`, the request number `i` goes to the URL, and a reader of JSON finds in its body the
-- user, the function, and the input number `i`, counted round and round, `forbid_ndp` set just when
-- the choice number `i` of the loop does not allow offloading, and `is_storage` just when it is
-- forced.
pub run_requests_at :
    {F : Type 0} (f : ℕ) (p : Profile) (fl : RateFloats F) (w : World) (opts : Options F)
    (function : Text) (rps : F) (num : ℤ) (d n i : ℕ)
    → opts.oneshot ≡ false
    → opts.dry_run ≡ false
    → ((s : Prepared F) (t : Option Request)
        → prepare w opts 0 ≡ ok s
        → test_request opts s ≡ ok t
        → answered w t ≡ ok tt)
    → w.is_url opts.url ≡ true
    → first_is_file opts.input_data ≡ ok false
    → get_elem? opts.functions 0 ≡ some function
    → get_elem? opts.requests_per_second 0 ≡ some rps
    → get_elem? opts.offload_frac_num 0 ≡ some num
    → opts.offload_frac_den ≡ pos d
    → 0 < d
    → d < 2 ^ 31 - 1
    → 0 < length opts.input_data
    → fl.ceil_i64 (fl.mul rps opts.time) ≡ pos n
    → fl.has_period rps ≡ true
    → i < n
    → IsContent false opts.user
    → IsContent false function
    → All (IsContent false) opts.input_data
    → (s : Prepared F) × (cs : List Choice) × (g : Generator) × (rs : List Request) × (ndp : Bool)
      × (r : Request) × (input : Text) × (prepare w opts 0 ≡ ok s)
      × (generate (suc (suc f)) p (plan_of opts s) n ≡ some (ok (cs, g)))
      × (run_requests (suc (suc f)) p fl w opts 0 ≡ some (ok rs))
      × (length rs ≡ n)
      × (get_elem? cs i ≡ some (i % length opts.input_data, ndp))
      × (get_elem? opts.input_data (i % length opts.input_data) ≡ some input)
      × (get_elem? rs i ≡ some r)
      × (r.url ≡ opts.url)
      × (read_object 5 r.body
          ≡ some (call_fields opts.user function input (not ndp) (ltb_ℤ opts.offload_frac_den num)))
unfolding total_requests interval at_least_zero plan_of prepared
run_requests_at f p fl w opts function rps num d n i many_shots wet answers url first ef er en den
      positive small some_input whole_ period h hu hf hi =
    let s = prepared opts function rps num in
    let t = s.target in
    let pool = map (both_forms t) opts.input_data in
    let (input0, at0) = entry opts.input_data 0 some_input in
    let test = built t (not (ltb_ℤ (pos 0) num)) input0 in
    let ready : prepare w opts 0 ≡ ok s = prepare_lem w opts function rps num url first ef er en in
    let len : length pool ≡ length opts.input_data = length-map (both_forms t) opts.input_data in
    let plan = plan_of opts s in
    let tested : test_request opts s ≡ ok (some test) =
      test_request_lem opts function rps num input0 at0 ∙ rw wet refl in
    let (cs, g, run, long, which) =
      generate_total f p plan d n i
        (record { den = den; positive = positive; small = small; pool = omega (arith, len) }) h in
    let (ndp, chosen) = choice_at cs i (i % length pool) which in
    let (input, there) = entry opts.input_data (i % length opts.input_data) (grind arith) in
    let (rs, made, many) =
      chosen_requests_made pool cs (generate_in_pool (suc (suc f)) p plan n g cs run) in
    let (r, one, to, body) =
      chosen_request-fields w t url opts.input_data pool (i % length opts.input_data) ndp input
        (request_pool_lem w t url opts.input_data) there hu hf
        (All-get (IsContent false) opts.input_data _ input hi there) in
    let placed : get_elem? cs i ≡ some (i % length opts.input_data, ndp) =
      subst (λ k. get_elem? cs i ≡ some (i % k, ndp)) len chosen in
    (
      s,
      cs,
      g,
      rs,
      ndp,
      r,
      input,
      ready,
      run,
      run_lem (suc (suc f)) p fl w opts n s (some test) cs g rs many_shots wet ready tested
          (answers s (some test) ready tested) (rw whole_ refl) (rw period refl) run made,
      many ∙ long,
      placed,
      there,
      chosen_requests_at pool cs rs i (i % length opts.input_data, ndp) r made placed one,
      to,
      body,
    )
