-- ===== src/Statmon/Server.antt =====
-- statmon/src/main.rs: the commands of a connection, and the interleaving of the connections with
-- the timer. The mutex makes each command and each tick one step on the shared `Stats`.
pub mod Ranges
pub mod Startup
use ndp_auto_offload.Base.{
  ⊤, error_raised, ◌≡◌, ℕ, ◌||◌, ◌==◌, List, [], ◌∷◌, ◌++◌, Error, err, read_failed, if◌then◌else◌,
}
use ndp_auto_offload.Base.Words.{Profile}
use ndp_auto_offload.Text.{Text}
use ndp_auto_offload.Statmon.Value.{FloatOps}
use ndp_auto_offload.Statmon.Host.{Round, Crates}
use ndp_auto_offload.Statmon.Run.{
  Run, panics, for_each, returns, fails, Action, ◌>>=◌, ◌>>◌, ◌>>◌, pure, gets, lift,
}
use ndp_auto_offload.Statmon.Stats.{Stats}
use ndp_auto_offload.Statmon.Monitor.{update, begin_range, end_range}
use ndp_auto_offload.Statmon.Packet.{stat_packet}

-- What the loop of `conn_handler` does after a byte: go round again, having written, or break.
pub data Reply : Type 0 where
  written : Text → Reply
  quit : Reply

module _ {F C : Type 0} ⦃fl : FloatOps F⦄ where
  unfoldable pub packet : Action (Stats F C) Reply
  packet = gets (λ s. written (stat_packet s.host_prefix s.stats))

  -- The body of the loop of `conn_handler`, on one byte.
  unfoldable pub handle_byte : Profile → Crates → Round C → ℕ → Action (Stats F C) Reply
  handle_byte p crates r b =
      if b == b'\n' || b == b'\r' || b == 0
      then pure (written [])
      else if b == b'q'
      then pure quit
      else if b == b'['
      then (do update p crates r; begin_range r; pure (written []))
      else if b == b']'
      then (do update p crates r; end_range r; packet)
      else if b == b'?'
      then packet
      else pure (written [])

  -- What one connection has when its bytes are used up: its output, and whether it has closed.
  -- `read_exact` fails at the end of the input, and then the handler ends with that error.
  unfoldable pub conn_handler :
      Profile → Crates → List (ℕ × Round C) → Text → Action (Stats F C) Text
  conn_handler p crates [] out = lift (err read_failed)
  conn_handler p crates ((b, r) ∷ input) out = do
    reply ← handle_byte p crates r b
    elim reply [ written text ↦ conn_handler p crates input (out ++ text) | quit ↦ pure out ]

-- `panic!("{}", e)` on an error.
abbrev pub panic_on_error : {S A : Type 0} → Run S A → Run S A
panic_on_error (returns a s) = returns a s
panic_on_error (fails e s) = panics error_raised
panic_on_error (panics q) = panics q

module _ {F C : Type 0} ⦃fl : FloatOps F⦄ where
  unfoldable pub timer_tick : Profile → Crates → Round C → Action (Stats F C) ⊤
  timer_tick p crates r s = panic_on_error (update p crates r s)

  -- Some turns of the timer's loop.
  unfoldable pub timer : Profile → Crates → List (Round C) → Action (Stats F C) ⊤
  timer p crates rounds = for_each (timer_tick p crates) rounds

-- The steps that tokio interleaves: a tick of the timer, or a byte of one of the connections. After
-- an error of a command the connection is gone, and the state stays. An error of a tick panics.
pub data Step {F C : Type 0} ⦃fl : FloatOps F⦄ (p : Profile) (crates : Crates) (s : Stats F C)
    : Stats F C → Type 0 where
  tick : (r : Round C) (t : Stats F C) → update p crates r s ≡ returns tt t → Step p crates s t
  byte :
      (r : Round C) (b : ℕ) (reply : Reply) (t : Stats F C)
      → handle_byte p crates r b s ≡ returns reply t
      → Step p crates s t
  dropped :
      (r : Round C) (b : ℕ) (e : Error) (t : Stats F C)
      → handle_byte p crates r b s ≡ fails e t
      → Step p crates s t

pub data Reach {F C : Type 0} ⦃fl : FloatOps F⦄ (p : Profile) (crates : Crates) (s : Stats F C)
    : Stats F C → Type 0 where
  here : Reach p crates s s
  next : {t u : Stats F C} → Reach p crates s t → Step p crates t u → Reach p crates s u
