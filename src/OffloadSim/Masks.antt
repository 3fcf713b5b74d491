-- ===== src/OffloadSim/Masks.antt =====
-- Which bits the mask of a node in ndoffloadsim/src/main.rs has.
use ndp_auto_offload.Base.{
  refl, ap, ◌∙◌, ◌≡◌, arith, ℕ, zero, suc, ◌*◌, ◌/◌, ◌%◌, ◌^◌, ◌<◌, ◌==◌, ok, if◌then◌else◌,
}
use native.Mathlib.Nat.{pow-le-pow_right}
use ndp_auto_offload.Base.Int.{ℤ, pos}
use ndp_auto_offload.Base.Words.{Profile, u64_mod, as_i64, pattern64}
use ndp_auto_offload.OffloadSim.{bit64, node_mask}

-- The bit at a place of a number.
unfoldable pub bit_at : ℕ → ℕ → ℕ
bit_at zero x = x % 2
bit_at (suc m) x = bit_at m (x / 2)

bit_at_zero : (m : ℕ) → bit_at m 0 ≡ 0
unfolding bit_at
bit_at_zero zero = refl
bit_at_zero (suc m) = bit_at_zero m

pow_suc : (n : ℕ) → 2 ^ suc n ≡ 2 * 2 ^ n
pow_suc n = omega arith

half_pow : (n : ℕ) → 2 ^ suc n / 2 ≡ 2 ^ n
half_pow n = omega (arith, pow_suc n)

bit_at-pow : (m n : ℕ) → bit_at m (2 ^ n) ≡ (if n == m then 1 else 0)
unfolding bit_at
bit_at-pow zero zero = refl
bit_at-pow zero (suc n) = ground (arith, pow_suc n)
bit_at-pow (suc m) zero = ground (arith, bit_at_zero m)
bit_at-pow (suc m) (suc n) = ground (arith, ap (bit_at m) (half_pow n), bit_at-pow m n)

pattern64-as_i64 : (w : ℕ) → w < u64_mod → pattern64 (as_i64 w) ≡ w
unfolding pattern64 as_i64
pattern64-as_i64 w h = ground arith

pow_le : (n : ℕ) → n < 64 → 2 ^ n < u64_mod
pow_le n h =
    omega (arith, pow-le-pow_right {n = 2} (omega arith) {i = n} {j = 63} (omega (arith, h)))

-- In every build the mask of each of the nodes 0 to 63 is there, and of its 64 bits just the one at
-- the node's place is set, so the masks of different nodes have no bit in common.
pub node_mask-bit_at :
    (p : Profile) (n m : ℕ)
    → n < 64
    → m < 64
    → (mask : ℤ) × (node_mask p (pos n) ≡ ok mask)
      × (bit_at m (pattern64 mask) ≡ (if n == m then 1 else 0))
unfolding node_mask bit64
node_mask-bit_at p n m hn hm = (
  as_i64 (2 ^ n),
  ground arith,
  ap (bit_at m) (pattern64-as_i64 (2 ^ n) (pow_le n hn)) ∙ bit_at-pow m n,
)
