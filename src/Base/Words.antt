-- ===== src/Base/Words.antt =====
-- Machine integers. An unsigned value is its number and a signed one its ℤ; both stay in range.
-- Rust checks for overflow in a debug build and wraps around in a release build.
use ndp_auto_offload.Base.Int.{ℤ, pos, negsuc, ◌-ℤ◌}
use ndp_auto_offload.Base.{
  ap, sym, ℕ, ◌+◌, ◌-◌, ◌/◌, ◌%◌, ◌^◌, ◌<◌, ◌≡◌, Bool, arith, ltb, leb, ◌==◌, if◌then◌else◌, true,
  inl, inr, Bool-cases, Outcome, ok, panic, overflow, divide_by_zero, map_ok,
}

pub data Profile : Type 0 where
  debug release : Profile

-- What an operation gives whose exact result does not fit.
abbrev pub overflowed {ℓ} : {A : Type ℓ} → Profile → A → Outcome A
overflowed debug a = panic overflow
overflowed release a = ok a

abbrev pub u64_mod : ℕ
u64_mod = 2 ^ 64

abbrev pub u128_mod : ℕ
u128_mod = 2 ^ 128

-- Unsigned arithmetic modulo `m`, the number of values of the type.
unfoldable pub fit_uint : ℕ → Profile → ℕ → Outcome ℕ
fit_uint m p a = if ltb a m then ok a else overflowed p (a % m)

unfoldable pub sub_uint : ℕ → Profile → ℕ → ℕ → Outcome ℕ
sub_uint m p a b = if leb b a then ok (a - b) else overflowed p (a + m - b)

-- `/` panics on zero in every build.
unfoldable pub div_uint : ℕ → ℕ → Outcome ℕ
div_uint a b = if b == 0 then panic divide_by_zero else ok (a / b)

abbrev pub IsI64 : ℤ → Type 0
IsI64 (pos n) = n < 2 ^ 63
IsI64 (negsuc n) = n < 2 ^ 63

abbrev pub in_i64 : ℤ → Bool
in_i64 (pos n) = ltb n (2 ^ 63)
in_i64 (negsuc n) = ltb n (2 ^ 63)

abbrev pub i64_min : ℤ
i64_min = negsuc (2 ^ 63 - 1)

abbrev pub i64_max : ℤ
i64_max = pos (2 ^ 63 - 1)

-- The two's complement pattern of an integer, and the `i64` of a pattern: `x as i64` for a u64.
unfoldable pub pattern64 : ℤ → ℕ
pattern64 (pos n) = n % u64_mod
pattern64 (negsuc n) = u64_mod - 1 - n % u64_mod

unfoldable pub as_i64 : ℕ → ℤ
as_i64 w = if ltb w (2 ^ 63) then pos w else negsuc (u64_mod - w - 1)

unfoldable pub fit_i64 : Profile → ℤ → Outcome ℤ
unfolding pattern64 as_i64
fit_i64 p z = if in_i64 z then ok z else overflowed p (as_i64 (pattern64 z))

pub as_i64-IsI64 : (w : ℕ) → w < u64_mod → IsI64 (as_i64 w)
unfolding as_i64
as_i64-IsI64 w h = ground arith

-- A value in range is kept by every build.
pub fit_i64-eq-ok : (p : Profile) (z : ℤ) → IsI64 z → fit_i64 p z ≡ ok z
unfolding fit_i64
fit_i64-eq-ok p (pos n) h = ground arith
fit_i64-eq-ok p (negsuc n) h = ground arith

pub in_i64→IsI64 : (z : ℤ) → in_i64 z ≡ true → IsI64 z
in_i64→IsI64 (pos n) h = ground arith
in_i64→IsI64 (negsuc n) h = ground arith

-- The wrapped value of any integer is in range.
pub wrap-IsI64 : (z : ℤ) → IsI64 (as_i64 (pattern64 z))
unfolding as_i64 pattern64
wrap-IsI64 (pos n) = ground arith
wrap-IsI64 (negsuc n) = ground arith

-- A release build gives a value in range, and never panics.
pub fit_i64_release : (z : ℤ) → (r : ℤ) × (fit_i64 release z ≡ ok r) × IsI64 r
unfolding fit_i64
fit_i64_release z = elim (Bool-cases (in_i64 z)) [
  | inl t ↦ (z, rw t, in_i64→IsI64 z t)
  | inr f ↦ (as_i64 (pattern64 z), rw f, wrap-IsI64 z)
]

-- The cast of a wrapped u64 difference is the true signed difference, if that fits an i64.
pub as_i64-sub_uint :
    (a b : ℕ)
    → a < u64_mod
    → b < u64_mod
    → IsI64 (pos a -ℤ pos b)
    → map_ok as_i64 (sub_uint u64_mod release a b) ≡ ok (pos a -ℤ pos b)
unfolding as_i64 sub_uint ◌-ℤ◌
as_i64-sub_uint a b ha hb fits = ground arith

-- An integer wrapped to an i64.
abbrev pub wrap_i64 : ℤ → ℤ
wrap_i64 z = as_i64 (pattern64 z)

wrap_i64_in_range : (z : ℤ) → in_i64 z ≡ true → wrap_i64 z ≡ z
unfolding as_i64 pattern64
wrap_i64_in_range (pos n) h = ground arith
wrap_i64_in_range (negsuc n) h = ground arith

-- A release build wraps every result.
pub fit_i64-eq-wrap : (z : ℤ) → fit_i64 release z ≡ ok (wrap_i64 z)
unfolding fit_i64
fit_i64-eq-wrap z = elim (Bool-cases (in_i64 z)) [
  | inl t ↦ rw t (ap ok (sym (wrap_i64_in_range z t)))
  | inr f ↦ rw f
]

abbrev pub u32_mod : ℕ
u32_mod = 2 ^ 32

abbrev pub in_i32 : ℤ → Bool
in_i32 (pos n) = ltb n (2 ^ 31)
in_i32 (negsuc n) = ltb n (2 ^ 31)

-- The i32 with the pattern of an integer.
unfoldable pub wrap_i32 : ℤ → ℤ
wrap_i32 (pos n) = let w = n % u32_mod in if ltb w (2 ^ 31) then pos w else negsuc (u32_mod - w - 1)
wrap_i32 (negsuc n) =
    let w = u32_mod - 1 - n % u32_mod in if ltb w (2 ^ 31) then pos w else negsuc (u32_mod - w - 1)

unfoldable pub fit_i32 : Profile → ℤ → Outcome ℤ
fit_i32 p z = if in_i32 z then ok z else overflowed p (wrap_i32 z)
