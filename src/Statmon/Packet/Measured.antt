-- ===== src/Statmon/Packet/Measured.antt =====
-- What a client that reads the packet of `stat_packet` in statmon/src/stats.rs learns of a range.
use mathlib.Core.List.{Memᴰ}
use mathlib.Core.List.Memᴰ.{cases_cons, not-nil}
use mathlib.Core.Path.{subst}
use ndp_auto_offload.Base.{
  ℕ, zero, suc, ◌+◌, ◌*◌, ◌<◌, ◌^◌, ◌≡◌, refl, sym, ap, ◌∙◌, inl, inr, arith, some, List, [], ◌∷◌,
  ◌++◌, length, All, drop, get_elem?, some-eq,
}
use ndp_auto_offload.Base.Int.{ℤ, pos, ◌≤ℤ◌}
use ndp_auto_offload.Base.Words.{release, IsI64, wrap_i64, wrap-IsI64}
use ndp_auto_offload.Text.{Text}
use ndp_auto_offload.Text.Words.{IsOneLine}
use ndp_auto_offload.Text.Commas.{split_commas}
use ndp_auto_offload.Text.Parse.{parse_i64}
use ndp_auto_offload.Text.RoundTrip.{parse_i64-show_ℤ}
use ndp_auto_offload.Text.Print.{show_ℤ}
use ndp_auto_offload.Statmon.Value.{FloatOps, StatValue, int, show}
use ndp_auto_offload.Statmon.Which.{WhichStat, as_usize}
use ndp_auto_offload.Statmon.Stat.{Stat}
use ndp_auto_offload.Statmon.Host.{Round, Crates}
use ndp_auto_offload.Statmon.Run.{returns, for_each, pure}
use ndp_auto_offload.Statmon.Stats.{Stats}
use ndp_auto_offload.Statmon.Packet.{stat_fields, stat_packet}
use ndp_auto_offload.Statmon.Packet.Fields.{all_fields}
use ndp_auto_offload.Statmon.Packet.Plain.{IsPlain, plain_body}
use ndp_auto_offload.Statmon.Packet.Values.{parse-show}
use ndp_auto_offload.Statmon.Range.{IsRange, total}
use ndp_auto_offload.Statmon.Table.{IsInt, IsIntSlot}
use ndp_auto_offload.Statmon.Server.{Reply, written, timer, handle_byte}
use ndp_auto_offload.Statmon.Server.Ranges.{handle_byte_close}
use ndp_auto_offload.Statmon.Server.Ranges.Whole.{range_values, whole-IsRange}

-- The field number `k` is there, and is parsed as `v`.
abbrev pub Reads : List Text → ℕ → ℤ → Type 0
Reads fields k v = (f : Text) × (get_elem? fields k ≡ some f) × (parse_i64 f ≡ some v)

-- The twelve fields of a statistic that had the values `vs` in a range.
pub record IsReport (vs : List ℤ) (fields : List Text) : Type 0 where
  pub low : (m : ℤ) × Reads fields 3 m × Memᴰ m vs × All (λ v. m ≤ℤ v) vs
  pub high : (m : ℤ) × Reads fields 5 m × Memᴰ m vs × All (λ v. v ≤ℤ m) vs
  pub sum : Reads fields 9 (wrap_i64 (total vs))
  pub cnt : Reads fields 11 (pos (length vs))

drop-append : {A : Type 0} (xs ys : List A) (n : ℕ) → drop (length xs + n) (xs ++ ys) ≡ drop n ys
drop-append [] ys n = let e : 0 + n ≡ n = omega arith in ap (λ k. drop k ys) e
drop-append (x ∷ xs) ys n =
    let e : suc (length xs) + n ≡ suc (length xs + n) = omega arith in
    ap (λ k. drop k (x ∷ (xs ++ ys))) e ∙ drop-append xs ys n

Mem-IsI64 : (m : ℤ) (vs : List ℤ) → Memᴰ m vs → All IsI64 vs → IsI64 m
Mem-IsI64 m [] h k = absurd (not-nil h)
Mem-IsI64 m (v ∷ vs) h k = elim (cases_cons h) [
  | inl e ↦ subst IsI64 (sym e) k.0
  | inr later ↦ Mem-IsI64 m vs later k.1
]

module _ {F : Type 0} ⦃fl : FloatOps F⦄ where
  -- Where the fields of a statistic begin.
  drop_fields :
      (hp : Text) (i : ℕ) (stats : List (Stat F)) (y : Stat F)
      → get_elem? stats i ≡ some y
      → (rest : List Text) × (drop (12 * i) (all_fields hp stats) ≡ stat_fields hp y ++ rest)
  unfolding all_fields stat_fields
  drop_fields hp i [] y h = cc
  drop_fields hp zero (s ∷ stats) y h =
      (all_fields hp stats, ap (λ z. stat_fields hp z ++ all_fields hp stats) (some-eq h))
  drop_fields hp (suc i) (s ∷ stats) y h =
      let (rest, e) = drop_fields hp i stats y h in
      let places : 12 * suc i ≡ length (stat_fields hp s) + 12 * i = omega arith in
      (
        rest,
        ap (λ n. drop n (stat_fields hp s ++ all_fields hp stats)) places
            ∙ drop-append (stat_fields hp s) (all_fields hp stats) (12 * i)
            ∙ e,
      )

  -- The packet of a table that has a statistic.
  body_of :
      (hp : Text) (stats : List (Stat F)) (i : ℕ) (y : Stat F)
      → get_elem? stats i ≡ some y
      → IsPlain hp
      → All (λ z. IsPlain z.name) stats
      → ((x : F) → IsPlain (fl.show x))
      → (body : Text) × (stat_packet hp stats ≡ body ++ b'\n' ∷ [])
        × IsOneLine body
        × (split_commas body ≡ all_fields hp stats)
  body_of hp [] i y there h k plain = cc
  body_of hp (s ∷ stats) i y there h k plain = plain_body hp s stats h k plain

  idle : {C : Type 0} (crates : Crates) (u : Stats F C) → timer release crates [] u ≡ returns tt u
  unfolding timer for_each pure
  idle crates u = refl

  read_int :
      (fields : List Text) (k : ℕ) (v : StatValue F) (z : ℤ)
      → get_elem? fields k ≡ some (show v)
      → v ≡ int z
      → IsI64 z
      → Reads fields k z
  read_int fields k v z at e fits = (show v, at, rw e (parse-show F z fits))

  reported :
      (hp : Text) (y : Stat F) (rest : List Text) (vs : List ℤ)
      → IsRange vs y
      → All IsI64 vs
      → length vs < 2 ^ 63
      → IsReport vs (stat_fields hp y ++ rest)
  unfolding stat_fields
  reported hp y rest vs range fits short =
      let fields = stat_fields hp y ++ rest in
      let (lo, e1, there1, least) = range.low in
      let (hi, e2, there2, greatest) = range.high in
      record {
        low = (
          lo,
          read_int fields 3 y.value_min lo refl e1 (Mem-IsI64 lo vs there1 fits),
          there1,
          least,
        );
        high = (
          hi,
          read_int fields 5 y.value_max hi refl e2 (Mem-IsI64 hi vs there2 fits),
          there2,
          greatest,
        );
        sum = read_int fields 9 y.value_sum (wrap_i64 (total vs)) refl range.sum (wrap-IsI64 _);
        cnt = (show_ℤ y.value_cnt, refl, rw range.cnt (parse_i64-show_ℤ (pos (length vs)) short));
      }

module _ {F C : Type 0} ⦃fl : FloatOps F⦄ where
  -- In a release build, if neither the prefix of the host nor the name of a statistic nor the text of a
  -- float has a comma or a line feed: where the host answers `[`, any number of ticks and `]`, the answer
  -- to `]` is one line, and the twelve parts between its commas that are for an integer statistic are
  -- read as the least and the greatest of the values that it had at the ends of the ticks and of the
  -- update that `]` makes, their sum modulo 2 ^ 64 as an i64, and their number, if these values are in
  -- the range of i64 and are fewer than 2 ^ 63.
  pub range-IsReport :
      (crates : Crates) (r1 r2 : Round C) (rounds : List (Round C)) (s t v u : Stats F C)
      (first second : Reply) (which : WhichStat) (x : Stat F)
      → IsIntSlot which
      → get_elem? s.stats (as_usize which) ≡ some x
      → IsInt x.value_now
      → handle_byte release crates r1 b'[' s ≡ returns first t
      → timer release crates rounds t ≡ returns tt v
      → handle_byte release crates r2 b']' v ≡ returns second u
      → All IsI64 (range_values release crates which rounds t u)
      → length (range_values release crates which rounds t u) < 2 ^ 63
      → IsPlain u.host_prefix
      → All (λ z. IsPlain z.name) u.stats
      → ((a : F) → IsPlain (fl.show a))
      → (body : Text) × (second ≡ written (body ++ b'\n' ∷ []))
        × IsOneLine body
        × IsReport
            (range_values release crates which rounds t u)
            (drop (12 * as_usize which) (split_commas body))
  range-IsReport crates r1 r2 rounds s t v u first second which x slot at kind opened run closed
        small short prefix names plain =
      let (y, there, range) =
        whole-IsRange crates r1 r2 rounds [] s t v u u first second which x slot at kind opened run
          closed (idle crates u) small short in
      let (_, _, answer, _) = handle_byte_close release crates r2 v u second closed in
      let (body, line, one_line, fields) =
        body_of u.host_prefix u.stats (as_usize which) y there prefix names plain in
      let (rest, e) = drop_fields u.host_prefix (as_usize which) u.stats y there in
      (
        body,
        answer ∙ ap written line,
        one_line,
        subst (IsReport _) (sym (ap (drop (12 * as_usize which)) fields ∙ e))
            (reported u.host_prefix y rest _ range small short),
      )
