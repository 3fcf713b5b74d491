-- ===== src/Faasmspeed/Phases/Parties.antt =====
-- What faasmspeed/src/main.rs uses of the barrier of the crate tokio.
use ndp_auto_offload.Base.{ℕ, suc, ◌<◌, ◌≡◌}

-- A barrier of `size` parties. A call of `wait` arrives; the last of `size` calls begins the next
-- generation, which wakes the others.
pub record Barrier (B : Type 0) : Type 0 where
  pub size : ℕ
  pub fresh : B
  pub arrived : B → ℕ
  pub generation : B → ℕ
  pub arrive : B → B
  pub fresh-arrived : arrived fresh ≡ 0
  pub fresh-generation : generation fresh ≡ 0
  pub early-arrived : (b : B) → suc (arrived b) < size → arrived (arrive b) ≡ suc (arrived b)
  pub early-generation : (b : B) → suc (arrived b) < size → generation (arrive b) ≡ generation b
  pub last-arrived : (b : B) → suc (arrived b) ≡ size → arrived (arrive b) ≡ 0
  pub last-generation :
      (b : B) → suc (arrived b) ≡ size → generation (arrive b) ≡ suc (generation b)
