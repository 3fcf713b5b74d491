-- ===== src/Faasmspeed/Schedule/Cycle.antt =====
-- The sequence 1, 2, .., d, 1, 2, .. that `ndp_var` runs through, and how many of its members are
-- at most `k`. A place `u` below `d` stands for a next member of `u + 1`.
use Prim.Native.Nat.{min}
use ndp_auto_offload.Base.{
  ℕ, zero, suc, ◌+◌, ◌-◌, ◌*◌, ◌≤◌, ◌<◌, ◌≡◌, ◌∙◌, ap, leb, ◌==◌, if◌then◌else◌, arith,
}

-- The place behind the member `suc u`.
abbrev pub wrap : ℕ → ℕ → ℕ
wrap d v = if v == d then 0 else v

unfoldable pub place : ℕ → ℕ → ℕ → ℕ
place d zero u = u
place d (suc n) u = place d n (wrap d (suc u))

-- How many of the next `n` members are at most `k`.
unfoldable pub hits : ℕ → ℕ → ℕ → ℕ → ℕ
hits d k zero u = 0
hits d k (suc n) u = (if leb (suc u) k then 1 else 0) + hits d k n (wrap d (suc u))

place-add : (d a b u : ℕ) → place d (a + b) u ≡ place d b (place d a u)
unfolding place
place-add d zero b u = let e : 0 + b ≡ b = omega arith in rw e
place-add d (suc a) b u =
    let e : suc a + b ≡ suc (a + b) = omega arith in rw e (place-add d a b (wrap d (suc u)))

hits-add : (d k a b u : ℕ) → hits d k (a + b) u ≡ hits d k a u + hits d k b (place d a u)
unfolding place hits
hits-add d k zero b u = let e : 0 + b ≡ b = omega arith in rw e (omega arith)
hits-add d k (suc a) b u =
    let e : suc a + b ≡ suc (a + b) = omega arith in
    rw e (omega (arith, hits-add d k a b (wrap d (suc u))))

wrap_lt : (d v : ℕ) → v < d → wrap d v ≡ v
wrap_lt d v h = ground arith

wrap_self : (d : ℕ) → wrap d d ≡ 0
wrap_self d = ground arith

-- Within one round the places and the hits are those of a counter.
hits_within : (d k j u : ℕ) → u + j ≤ d → hits d k j u + min k u ≡ min k (u + j)
unfolding hits
hits_within d k zero u h = omega arith
hits_within d k (suc zero) u h = ground arith
hits_within d k (suc (suc j)) u h =
    rw (wrap_lt d (suc u) (omega arith))
      (ground (arith, hits_within d k (suc j) (suc u) (omega arith)))

place_within : (d j u : ℕ) → u + j < d → place d j u ≡ u + j
unfolding place
place_within d zero u h = omega arith
place_within d (suc j) u h =
    rw (wrap_lt d (suc u) (omega arith)) (omega (arith, place_within d j (suc u) (omega arith)))

place_full : (d j u : ℕ) → u + suc j ≡ d → place d (suc j) u ≡ 0
unfolding place
place_full d zero u e = let e' : suc u ≡ d = omega arith in rw e' (wrap_self d)
place_full d (suc j) u e =
    rw (wrap_lt d (suc u) (omega arith)) (place_full d j (suc u) (omega arith))

-- From a place below `d`, one round of `d` members leads back to it.
pub place_round : (d u : ℕ) → u < d → place d d u ≡ u
place_round d u h =
    let split : d ≡ suc (d - u - 1) + u = omega arith in
    ap (λ n. place d n u) split
    ∙ place-add d (suc (d - u - 1)) u u
    ∙ ap (place d u) (place_full d (d - u - 1) u (omega arith))
    ∙ place_within d u 0 (omega arith)
    ∙ omega arith

-- One round meets every member from 1 to `d` once.
pub hits_round : (d k u : ℕ) → u < d → hits d k d u ≡ min k d
hits_round d k u h =
    let j = d - u - 1 in
    let split : d ≡ suc j + u = omega arith in
    ap (λ n. hits d k n u) split
    ∙ hits-add d k (suc j) u u
    ∙ ap (λ v. hits d k (suc j) u + hits d k u v) (place_full d j u (omega arith))
    ∙ omega (arith, hits_within d k (suc j) u (omega arith), hits_within d k u 0 (omega arith))

-- So `m` rounds meet `m` times as many.
pub hits_rounds : (d k m u : ℕ) → u < d → hits d k (m * d) u ≡ m * min k d
hits_rounds d k zero u h = let e : 0 * d ≡ 0 = omega arith in rw e (unfold hits in omega arith)
hits_rounds d k (suc m) u h =
    let e : suc m * d ≡ d + m * d = omega arith in
    ap (λ n. hits d k n u) e
    ∙ hits-add d k d (m * d) u
    ∙ ap (λ v. hits d k d u + hits d k (m * d) v) (place_round d u h)
    ∙ grind (arith, hits_round d k u h, hits_rounds d k m u h)
