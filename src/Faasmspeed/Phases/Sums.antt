-- ===== src/Faasmspeed/Phases/Sums.antt =====
-- Sums over lists, and what holds of all members, at a list with one member picked out.
use ndp_auto_offload.Base.{map, ap, ℕ, ◌+◌, ◌≤◌, ◌≡◌, refl, arith, List, [], ◌∷◌, ◌++◌, All, length}

module _ {A : Type 0} where
  abbrev pub sum : (A → ℕ) → List A → ℕ
  sum w [] = 0
  sum w (x ∷ xs) = w x + sum w xs

  pub sum-append : (w : A → ℕ) (xs ys : List A) → sum w (xs ++ ys) ≡ sum w xs + sum w ys
  sum-append w [] ys = omega arith
  sum-append w (x ∷ xs) ys = omega (arith, sum-append w xs ys)

  pub sum_mono : (v w : A → ℕ) (xs : List A) → All (λ x. v x ≤ w x) xs → sum v xs ≤ sum w xs
  sum_mono v w [] h = omega arith
  sum_mono v w (x ∷ xs) h = omega (arith, h.0, sum_mono v w xs h.1)

  pub All-pick :
      (P : A → Type 0) (xs ys : List A) (x : A) → All P (xs ++ x ∷ ys) → All P xs × P x × All P ys
  All-pick P [] ys x h = (tt, h.0, h.1)
  All-pick P (y ∷ xs) ys x h =
      let (left, here, right) = All-pick P xs ys x h.1 in ((h.0, left), here, right)

  pub All-put :
      (P : A → Type 0) (xs ys : List A) (x : A) → All P xs → P x → All P ys → All P (xs ++ x ∷ ys)
  All-put P [] ys x left here right = (here, right)
  All-put P (y ∷ xs) ys x left here right = (left.0, All-put P xs ys x left.1 here right)

  pub All-map : (P Q : A → Type 0) (xs : List A) → ((x : A) → P x → Q x) → All P xs → All Q xs
  All-map P Q [] k h = tt
  All-map P Q (x ∷ xs) k h = (k x h.0, All-map P Q xs k h.1)

  pub All-both : (P Q : A → Type 0) (xs : List A) → All P xs → All Q xs → All (λ x. P x × Q x) xs
  All-both P Q [] h k = tt
  All-both P Q (x ∷ xs) h k = ((h.0, k.0), All-both P Q xs h.1 k.1)

  -- A sum of parts that are at most 1 is all of them only if each is 1.
  pub sum_full :
      (w : A → ℕ) (xs : List A)
      → ((x : A) → w x ≤ 1)
      → (sum w xs ≤ length xs) × (sum w xs ≡ length xs → All (λ x. w x ≡ 1) xs)
  sum_full w [] most = (omega arith, λ h. tt)
  sum_full w (x ∷ xs) most =
      let (below, all) = sum_full w xs most in
      (
        omega (arith, below, most x),
        λ h. (omega (arith, h, below, most x), all (omega (arith, h, below, most x))),
      )

  pub sum_ones : (w : A → ℕ) (xs : List A) → All (λ x. w x ≡ 1) xs → sum w xs ≡ length xs
  sum_ones w [] h = refl
  sum_ones w (x ∷ xs) h = omega (arith, h.0, sum_ones w xs h.1)

  pub sum_zero : (w : A → ℕ) (xs : List A) → All (λ x. w x ≡ 0) xs → sum w xs ≡ 0
  sum_zero w [] h = refl
  sum_zero w (x ∷ xs) h = omega (arith, h.0, sum_zero w xs h.1)

pub map-append :
    {A B : Type 0} (f : A → B) (xs ys : List A) → map f (xs ++ ys) ≡ map f xs ++ map f ys
map-append f [] ys = refl
map-append f (x ∷ xs) ys = ap (λ zs. f x ∷ zs) (map-append f xs ys)
