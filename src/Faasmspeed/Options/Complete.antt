-- ===== src/Faasmspeed/Options/Complete.antt =====
-- What `get_opts` of faasmspeed/src/main.rs promises of the options.
use ndp_auto_offload.Base.{
  ◌≡◌, ◌≢◌, refl, true, List, [], ◌∷◌, ◌++◌, Bool-cases, inl, inr, if◌then◌else◌,
}
use ndp_auto_offload.Base.Int.{pos}
use ndp_auto_offload.Text.{Text, codes, starts_with, strip_prefix}
use ndp_auto_offload.Faasmspeed.Options.{Options, or_default, get_opts}

-- Each of the lists that are indexed by the number of a function has a first entry, and the address
-- has its scheme.
pub record IsComplete {F : Type 0} (o : Options F) : Type 0 where
  pub input_data : o.input_data ≢ []
  pub requests_per_second : o.requests_per_second ≢ []
  pub functions : o.functions ≢ []
  pub offload_frac_num : o.offload_frac_num ≢ []
  pub url : starts_with (codes "http://") o.url ≡ true

or_default-ne : {A : Type 0} (d : A) (l : List A) → or_default d l ≢ []
unfolding or_default
or_default-ne d [] = cc
or_default-ne d (x ∷ xs) = cc

with_scheme :
    (u : Text)
    → starts_with
        (codes "http://")
        (if starts_with (codes "http://") u then u else codes "http://" ++ u)
      ≡ true
with_scheme u = elim (Bool-cases (starts_with (codes "http://") u)) [
  | inl t ↦ rw t t
  | inr f ↦ rw f (unfold starts_with strip_prefix in refl)
]

or_default_idem : {A : Type 0} (d : A) (l : List A) → or_default d (or_default d l) ≡ or_default d l
unfolding or_default
or_default_idem d [] = refl
or_default_idem d (x ∷ xs) = refl

-- The options that `get_opts` returns are complete, whatever the command line, and completing them
-- again changes nothing.
pub get_opts-IsComplete :
    {F : Type 0} (ten : F) (o : Options F)
    → IsComplete (get_opts ten o) × (get_opts ten (get_opts ten o) ≡ get_opts ten o)
unfolding get_opts
get_opts-IsComplete ten o = (
  record {
    input_data = or_default-ne [] o.input_data;
    requests_per_second = or_default-ne ten o.requests_per_second;
    functions = or_default-ne (codes "hello") o.functions;
    offload_frac_num = or_default-ne (pos 1) o.offload_frac_num;
    url = with_scheme o.url;
  },
  rw
      (
        with_scheme o.url,
        or_default_idem [] o.input_data,
        or_default_idem ten o.requests_per_second,
        or_default_idem (codes "hello") o.functions,
        or_default_idem (pos 1) o.offload_frac_num,
      )
      refl,
)
