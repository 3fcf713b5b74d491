-- ===== src/Faasmspeed/Results/Division.antt =====
-- The loop of `async_main` in faasmspeed/src/main.rs that divides the responses.
use mathlib.Core.List.{Perm, perm_middle}
use mathlib.Core.List.Perm
use ndp_auto_offload.Base.{◌≡◌, refl, List, [], ◌∷◌, ◌++◌, map, append_assoc, append-nil}
use ndp_auto_offload.Text.{Text}
use ndp_auto_offload.Faasmspeed.Results.{RequestResult, Response, received, failed, divide}

-- The results among the responses, in their order; likewise the errors.
unfoldable pub results_of : List Response → List RequestResult
results_of [] = []
results_of (received r ∷ rs) = r ∷ results_of rs
results_of (failed e ∷ rs) = results_of rs

unfoldable pub errors_of : List Response → List Text
errors_of [] = []
errors_of (received r ∷ rs) = errors_of rs
errors_of (failed e ∷ rs) = e ∷ errors_of rs

divide-append :
    (rs : List Response) (results : List RequestResult) (errors : List Text)
    → divide rs (results, errors) ≡ (results ++ results_of rs, errors ++ errors_of rs)
unfolding divide results_of errors_of
divide-append [] results errors = rw (append-nil results, append-nil errors) refl
divide-append (received r ∷ rs) results errors =
    rw (divide-append rs (results ++ r ∷ []) errors, append_assoc) refl
divide-append (failed e ∷ rs) results errors =
    rw (divide-append rs results (errors ++ e ∷ []), append_assoc) refl

merged : (rs : List Response) → Perm (map received (results_of rs) ++ map failed (errors_of rs)) rs
unfolding results_of errors_of
merged [] = Perm.refl []
merged (received r ∷ rs) = Perm.cons (received r) (merged rs)
merged (failed e ∷ rs) =
    Perm.trans (perm_middle (map received (results_of rs)) (map failed (errors_of rs)))
      (Perm.cons (failed e) (merged rs))

-- No response is lost or counted twice, and the results and the errors keep their order.
pub divide_lem :
    (rs : List Response)
    → (divide rs ([], []) ≡ (results_of rs, errors_of rs))
      × Perm (map received (divide rs ([], [])).0 ++ map failed (divide rs ([], [])).1) rs
divide_lem rs = let e = divide-append rs [] [] in (e, rw e (merged rs))
