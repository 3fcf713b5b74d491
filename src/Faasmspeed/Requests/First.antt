-- ===== src/Faasmspeed/Requests/First.antt =====
-- The preparation of the first function in faasmspeed/src/main.rs, behind `get_opts`.
use ndp_auto_offload.Base.{
  Bool-cases, inl, inr, none, if◌then◌else◌, refl, ap, ◌≡◌, ◌≢◌, not, true, false, some, List, [],
  ◌∷◌, map, get_elem?, ok,
}
use ndp_auto_offload.Base.Int.{ℤ, pos, ltb_ℤ}
use ndp_auto_offload.Text.{Text}
use ndp_auto_offload.Faasmspeed.Options.{Options}
use ndp_auto_offload.Faasmspeed.Options.Complete.{IsComplete}
use ndp_auto_offload.Faasmspeed.Requests.{
  World, Target, Prepared, first_is_file, input_data, expect, prepare, test_request,
}
use ndp_auto_offload.Faasmspeed.Requests.Chosen.{
  get_elem?-map, built, both_forms, request_pool_lem, form_lem,
}

-- A list with a first entry has its entry 0.
first_of : {A : Type 0} (l : List A) → l ≢ [] → (x : A) × (rest : List A) × (l ≡ x ∷ rest)
first_of [] h = elim (h refl) [ ]
first_of (x ∷ rest) h = (x, rest, refl)

unfoldable pub prepared : {F : Type 0} → Options F → Text → F → ℤ → Prepared F
prepared opts function rps num =
    let target : Target = record {
      url = opts.url;
      timeout = opts.timeout;
      user = opts.user;
      function = function;
      force_ndp = ltb_ℤ opts.offload_frac_den num;
    } in
    record {
      requests_per_second = rps;
      offload_frac_num = num;
      target = target;
      pool = map (both_forms target) opts.input_data;
    }

pub prepare_lem :
    {F : Type 0} (w : World) (opts : Options F) (function : Text) (rps : F) (num : ℤ)
    → w.is_url opts.url ≡ true
    → first_is_file opts.input_data ≡ ok false
    → get_elem? opts.functions 0 ≡ some function
    → get_elem? opts.requests_per_second 0 ≡ some rps
    → get_elem? opts.offload_frac_num 0 ≡ some num
    → prepare w opts 0 ≡ ok (prepared opts function rps num)
unfolding prepare prepared input_data expect
prepare_lem w opts function rps num valid first ef er en = rw ef (
    rw er (
      rw en (
        rw first (
          rw (request_pool_lem w (prepared opts function rps num).target valid opts.input_data)
            refl))))

-- The test request is that of the first input.
pub test_request_lem :
    {F : Type 0} (opts : Options F) (function : Text) (rps : F) (num : ℤ) (input : Text)
    → get_elem? opts.input_data 0 ≡ some input
    → test_request opts (prepared opts function rps num)
      ≡ ok (
          if opts.dry_run
          then none
          else some (built (prepared opts function rps num).target (not (ltb_ℤ (pos 0) num)) input))
unfolding prepared test_request
test_request_lem opts function rps num input h =
    let t = (prepared opts function rps num).target in
    elim (Bool-cases opts.dry_run) [
      | inl dry ↦ rw dry refl
      | inr sends ↦
          rw (sends, get_elem?-map (both_forms t) opts.input_data 0, h)
            (ap (λ r. ok (some r)) (form_lem t input (ltb_ℤ (pos 0) num)))
    ]

-- Of options as `get_opts` completes them, the first function is prepared without a panic if its
-- input is no file and the address is a URL: its pool has both forms of each input, and its test
-- request is that of the first input, which forbids offloading just when the numerator is not
-- positive; a dry run makes no test request.
pub prepare_first :
    {F : Type 0} (w : World) (opts : Options F)
    → IsComplete opts
    → w.is_url opts.url ≡ true
    → first_is_file opts.input_data ≡ ok false
    → (s : Prepared F) × (input : Text) × (prepare w opts 0 ≡ ok s)
      × (s.pool ≡ map (both_forms s.target) opts.input_data)
      × (get_elem? opts.input_data 0 ≡ some input)
      × (test_request opts s
          ≡ ok (
              if opts.dry_run
              then none
              else some (built s.target (not (ltb_ℤ (pos 0) s.offload_frac_num)) input)))
unfolding prepared test_request
prepare_first w opts c valid first =
    let (function, _, qf) = first_of opts.functions c.functions in
    let (rps, _, qr) = first_of opts.requests_per_second c.requests_per_second in
    let (num, _, qn) = first_of opts.offload_frac_num c.offload_frac_num in
    let (input, _, qi) = first_of opts.input_data c.input_data in
    let s = prepared opts function rps num in
    (
      s,
      input,
      prepare_lem w opts function rps num valid first (ap (λ l. get_elem? l 0) qf)
          (ap (λ l. get_elem? l 0) qr) (ap (λ l. get_elem? l 0) qn),
      refl,
      ap (λ l. get_elem? l 0) qi,
      test_request_lem opts function rps num input (ap (λ l. get_elem? l 0) qi),
    )
