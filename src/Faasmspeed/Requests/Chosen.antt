-- ===== src/Faasmspeed/Requests/Chosen.antt =====
-- The body of the request that a choice of the loop in faasmspeed/src/main.rs sends.
use ndp_auto_offload.Base.{
  refl, ap, sym, ◌∙◌, ok-injective, ◌≡◌, ℕ, suc, zero, not, Bool, true, false, some, List, [], ◌∷◌,
  map, get_elem?, ok,
}
use mathlib.Core.Option
use ndp_auto_offload.Text.{Text}
use ndp_auto_offload.Faasmspeed.Json.{make_json_call}
use ndp_auto_offload.Faasmspeed.Json.Reader.{IsContent, read_object}
use ndp_auto_offload.Faasmspeed.Json.Body.{call_fields, make_json_call-fields}
use ndp_auto_offload.Faasmspeed.Requests.{
  World, Target, Request, make_request, make_form, request_pool, form, chosen_request,
}

pub get_elem?-map :
    {A B : Type 0} (f : A → B) (xs : List A) (i : ℕ)
    → get_elem? (map f xs) i ≡ Option.map f (get_elem? xs i)
get_elem?-map f [] i = refl
get_elem?-map f (x ∷ xs) zero = refl
get_elem?-map f (x ∷ xs) (suc i) = get_elem?-map f xs i

-- A request whose address can be built.
abbrev pub built : Target → Bool → Text → Request
built t forbid_ndp input = record {
  url = t.url;
  body = make_json_call t.user t.function input forbid_ndp t.force_ndp;
  timeout = t.timeout;
}

abbrev pub both_forms : Target → Text → Request × Request
both_forms t input = (built t true input, built t false input)

pub form_lem :
    (t : Target) (input : Text) (ndp : Bool)
    → form ndp (both_forms t input) ≡ built t (not ndp) input
form_lem t input true = refl
form_lem t input false = refl

module _ (w : World) (t : Target) (valid : w.is_url t.url ≡ true) where
  pub request_pool_lem :
      (inputs : List Text) → request_pool w t inputs ≡ ok (map (both_forms t) inputs)
  unfolding request_pool make_form make_request
  request_pool_lem [] = refl
  request_pool_lem (i ∷ is) = rw valid (rw (request_pool_lem is) refl)

  -- Of a target whose address is a URL, and whose user, function and inputs are valid contents of
  -- JSON strings, the request of a choice goes to that address, and a reader of JSON finds in its
  -- body the user, the function and the input that was chosen, `forbid_ndp` set just when the choice
  -- does not allow offloading, and `is_storage` just when it is forced.
  pub chosen_request-fields :
      (inputs : List Text) (pool : List (Request × Request)) (which : ℕ) (ndp : Bool) (input : Text)
      → request_pool w t inputs ≡ ok pool
      → get_elem? inputs which ≡ some input
      → IsContent false t.user
      → IsContent false t.function
      → IsContent false input
      → (r : Request) × (chosen_request pool (which, ndp) ≡ ok r)
        × (r.url ≡ t.url)
        × (read_object 5 r.body ≡ some (call_fields t.user t.function input (not ndp) t.force_ndp))
  unfolding chosen_request
  chosen_request-fields inputs pool which ndp input made at hu hf hi =
      let same : map (both_forms t) inputs ≡ pool =
        ok-injective (sym (request_pool_lem inputs) ∙ made) in
      let entry : get_elem? pool which ≡ some (both_forms t input) =
        ap (λ l. get_elem? l which) (sym same)
        ∙ get_elem?-map (both_forms t) inputs which
        ∙ ap (Option.map (both_forms t)) at in
      (
        built t (not ndp) input,
        rw entry (ap ok (form_lem t input ndp)),
        refl,
        make_json_call-fields t.user t.function input (not ndp) t.force_ndp hu hf hi,
      )
