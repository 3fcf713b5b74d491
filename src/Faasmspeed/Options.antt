-- ===== src/Faasmspeed/Options.antt =====
-- `struct Options` and `get_opts` of faasmspeed/src/main.rs. `F` is the type f64.
pub mod Complete
use ndp_auto_offload.Base.{ℕ, Bool, List, [], ◌∷◌, ◌++◌, if◌then◌else◌}
use ndp_auto_offload.Base.Int.{ℤ, pos}
use ndp_auto_offload.Text.{Text, codes, starts_with}

pub record Options (F : Type 0) : Type 0 where
  pub url : Text
  pub timeout : ℕ
  pub requests_per_second : List F
  pub time : F
  pub parallelism : ℕ
  pub user : Text
  pub functions : List Text
  pub oneshot : Bool
  pub csv : Bool
  pub dry_run : Bool
  pub offload_frac_num : List ℤ
  pub offload_frac_den : ℤ
  pub monitoring_hosts : Text
  pub input_data : List Text

-- `if list.is_empty() { list.push(default) }`
unfoldable pub or_default {ℓ} : {A : Type ℓ} → A → List A → List A
or_default d [] = d ∷ []
or_default d (x ∷ xs) = x ∷ xs

-- `get_opts` behind the parsing of the command line; `ten` is the literal 10.0.
unfoldable pub get_opts : {F : Type 0} → F → Options F → Options F
get_opts ten opts = record opts {
  input_data = or_default [] opts.input_data;
  requests_per_second = or_default ten opts.requests_per_second;
  functions = or_default (codes "hello") opts.functions;
  offload_frac_num = or_default (pos 1) opts.offload_frac_num;
  url = if starts_with (codes "http://") opts.url then opts.url else codes "http://" ++ opts.url;
}
