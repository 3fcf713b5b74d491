-- ===== src/Statmon/Io/Overwrite.antt =====
-- What the line of one disk does to the totals of `IoStat` in statmon/src/iostat.rs.
use mathlib.Core.Option
use ndp_auto_offload.Base.{
  ℕ, ◌≤◌, ◌≡◌, refl, false, ◌||◌, arith, List, [], ◌∷◌, map, length, take, drop, get_elem?, Outcome,
  ok,
}
use ndp_auto_offload.Text.{Text, is_empty, split_ascii_whitespace}
use ndp_auto_offload.Statmon.Host.{Crates}
use ndp_auto_offload.Statmon.Fields.{store_fields}
use ndp_auto_offload.Statmon.Io.{IoStat, io_field, read_line}
use ndp_auto_offload.Statmon.Run.{returns}

-- With at least as many words as fields, every field is written over.
store_fields-take :
    (value : Text → Outcome ℕ) (ts : List Text) (vs fields : List ℕ)
    → map value ts ≡ map ok vs
    → length fields ≤ length vs
    → store_fields value ts fields ≡ returns tt (take (length fields) vs)
unfolding store_fields
store_fields-take value [] [] [] e h = refl
store_fields-take value [] [] (a ∷ fields) e h = absurd (omega arith)
store_fields-take value [] (v ∷ vs) fields e h = cc
store_fields-take value (t ∷ ts) [] fields e h = cc
store_fields-take value (t ∷ ts) (v ∷ vs) [] e h = refl
store_fields-take value (t ∷ ts) (v ∷ vs) (a ∷ fields) e h =
    let first : value t ≡ ok v = cc in
    let others : map value ts ≡ map ok vs = cc in
    ground (arith, first, store_fields-take value ts vs fields others (omega arith))

-- A disk that is not ignored and whose line has numbers only, at least as many as there are
-- totals, leaves its own numbers as the totals, whatever they were before: nothing of a disk of an
-- earlier line is left.
pub read_line-take :
    (crates : Crates) (line : Text) (vs : List ℕ) (c : IoStat)
    → (is_empty (Option.get_or (get_elem? (split_ascii_whitespace line) 2) [])
        || crates.is_match (Option.get_or (get_elem? (split_ascii_whitespace line) 2) []))
      ≡ false
    → map io_field (drop 3 (split_ascii_whitespace line)) ≡ map ok vs
    → length c.io_totals ≤ length vs
    → read_line crates line c ≡ returns tt (record c { io_totals = take (length c.io_totals) vs })
unfolding read_line
read_line-take crates line vs c seen parsed enough =
    rw
      (
        seen,
        store_fields-take io_field (drop 3 (split_ascii_whitespace line)) vs c.io_totals parsed
            enough,
      )
      refl
