-- ===== src/Faasmspeed/Exchange.antt =====
-- The exchange of faasmspeed/src/main.rs with a monitoring host, which runs statmon/src/main.rs.
use ndp_auto_offload.Base.{
  refl, ap, ◌∙◌, ◌≡◌, arith, ℕ, ◌==◌, true, false, List, [], ◌∷◌, ◌++◌, All, drop, if◌then◌else◌,
}
use ndp_auto_offload.Base.Words.{Profile}
use ndp_auto_offload.Text.{Text, contains}
use ndp_auto_offload.Text.Words.{IsOneLine}
use ndp_auto_offload.Statmon.Value.{FloatOps}
use ndp_auto_offload.Statmon.Host.{Round, Crates}
use ndp_auto_offload.Statmon.Stat.{Stat}
use ndp_auto_offload.Statmon.Run.{returns, ◌>>=◌, pure}
use ndp_auto_offload.Statmon.Stats.{Stats}
use ndp_auto_offload.Statmon.Packet.{stat_packet, write_stats, pop}
use ndp_auto_offload.Statmon.Packet.Fields.{
  all_fields, write_stats_lem, IsOneLine-pop, IsOneLine-with_commas,
}
use ndp_auto_offload.Statmon.Server.{Reply, written, handle_byte, conn_handler, timer}
use ndp_auto_offload.Statmon.Server.Ranges.Ticks.{timer-in_range}
use ndp_auto_offload.Statmon.Server.Ranges.{handle_byte_open, handle_byte_close}

-- What `async_main` writes to a host in the course of a run, with the answers that the system of the
-- host gives at each of the bytes.
unfoldable pub monitor_bytes : {C : Type 0} → Round C → Round C → Round C → List (ℕ × Round C)
monitor_bytes r1 r2 r3 = (b'[', r1) ∷ (b']', r2) ∷ (b'q', r3) ∷ []

-- `read_line` of what has arrived.
unfoldable pub read_line : Text → Text
read_line [] = []
read_line (c ∷ s) = if c == b'\n' then c ∷ [] else c ∷ read_line s

read_line_whole : (t : Text) → IsOneLine t → read_line (t ++ b'\n' ∷ []) ≡ t ++ b'\n' ∷ []
unfolding read_line contains
read_line_whole [] h = refl
read_line_whole (c ∷ t) h = ground (arith, read_line_whole t)

module _ {F : Type 0} ⦃fl : FloatOps F⦄ where
  packet_line :
      (hp : Text) (stats : List (Stat F))
      → All IsOneLine (all_fields hp stats)
      → read_line (stat_packet hp stats) ≡ stat_packet hp stats
  unfolding stat_packet
  packet_line hp stats h = read_line_whole (pop (write_stats hp stats)) (
      IsOneLine-pop (write_stats hp stats)
        (rw (write_stats_lem hp stats) (IsOneLine-with_commas (all_fields hp stats) h)))

module _ {F C : Type 0} ⦃fl : FloatOps F⦄ where
  conn_written :
      (p : Profile) (crates : Crates) (r : Round C) (b : ℕ) (input : List (ℕ × Round C))
      (out text : Text) (s t : Stats F C)
      → handle_byte p crates r b s ≡ returns (written text) t
      → conn_handler p crates ((b, r) ∷ input) out s ≡ conn_handler p crates input (out ++ text) t
  unfolding conn_handler ◌>>=◌
  conn_written p crates r b input out text s t h = rw h refl

  conn_quit :
      (p : Profile) (crates : Crates) (r : Round C) (input : List (ℕ × Round C)) (out : Text)
      (s : Stats F C)
      → conn_handler p crates ((b'q', r) ∷ input) out s ≡ returns out s
  unfolding conn_handler ◌>>=◌ handle_byte pure
  conn_quit p crates r input out s = refl

  -- Where the host answers `[` and, after any number of ticks of its timer, `]`, statmon opens a range
  -- at the first byte that faasmspeed writes, keeps it open through the ticks, and closes it at the
  -- second byte, behind which it sends one packet, and ends the connection at the third. If no name
  -- and no value has a line feed, the line that faasmspeed reads is the whole packet, which has the
  -- statistics at the end of the range.
  pub monitor_exchange :
      (p : Profile) (crates : Crates) (r1 r2 r3 : Round C) (rounds : List (Round C))
      (s t v u : Stats F C) (first second : Reply)
      → handle_byte p crates r1 b'[' s ≡ returns first t
      → timer p crates rounds t ≡ returns tt v
      → handle_byte p crates r2 b']' v ≡ returns second u
      → All IsOneLine (all_fields u.host_prefix u.stats)
      → (conn_handler p crates (monitor_bytes r1 r2 r3) [] s
          ≡ conn_handler p crates (drop 1 (monitor_bytes r1 r2 r3)) [] t)
        × (t.in_range ≡ true)
        × (v.in_range ≡ true)
        × (conn_handler p crates (drop 1 (monitor_bytes r1 r2 r3)) [] v
            ≡ returns (stat_packet u.host_prefix u.stats) u)
        × (u.in_range ≡ false)
        × (read_line (stat_packet u.host_prefix u.stats) ≡ stat_packet u.host_prefix u.stats)
  unfolding monitor_bytes
  monitor_exchange p crates r1 r2 r3 rounds s t v u first second h run k lines =
      let (_, _, answered1, q1) = handle_byte_open p crates r1 s t first h in
      let (_, _, answered2, q2) = handle_byte_close p crates r2 v u second k in
      let in_range : t.in_range ≡ true = ap (λ (x : Stats F C). x.in_range) q1 in
      (
        conn_written p crates r1 b'[' _ [] [] s t (rw answered1 at h),
        in_range,
        timer-in_range true p crates rounds t v run in_range,
        conn_written p crates r2 b']' _ [] (stat_packet u.host_prefix u.stats) v u
              (rw answered2 at k)
            ∙ conn_quit p crates r3 [] (stat_packet u.host_prefix u.stats) u,
        ap (λ (x : Stats F C). x.in_range) q2,
        packet_line u.host_prefix u.stats lines,
      )
