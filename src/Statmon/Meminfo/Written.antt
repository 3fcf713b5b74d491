-- ===== src/Statmon/Meminfo/Written.antt =====
-- The lines that Linux writes to /proc/meminfo, and how `parse_meminfo_line` of statmon/src/stats.rs
-- reads them.
use ndp_auto_offload.Base.{
  ℕ, ◌*◌, ◌^◌, ◌<◌, ◌≡◌, refl, arith, Bool, true, false, some, ok, [], ◌∷◌, ◌++◌, append_assoc,
  append-nil, if◌then◌else◌,
}
use ndp_auto_offload.Base.Int.{ℤ, pos, ◌*ℤ◌}
use ndp_auto_offload.Base.Words.{Profile, fit_i64-eq-ok}
use ndp_auto_offload.Text.{Text, codes, is_empty, is_whitespace, contains, trim, trim_end}
use ndp_auto_offload.Text.Parse.{parse_i64}
use ndp_auto_offload.Text.Print.{show_ℕ, show_ℤ}
use ndp_auto_offload.Text.RoundTrip.{parse_i64-show_ℤ}
use ndp_auto_offload.Text.Written.{IsTrimmed}
use ndp_auto_offload.Text.Words.{
  is_solid, spaces, show_ℕ-solid, show_ℕ-without, show_ℕ-filled, solid-without, contains-append,
  spaces-without, trim_start-spaces, trim_start_solid, trim_end-append, trim_end_solid,
  trim_end-space, strip_suffix_end, strip_suffix-none, split_once-first, trim_word,
}
use ndp_auto_offload.Statmon.Meminfo.{parse_meminfo_line, strip_units, strip_unit}

-- A counter of the file: `pad` spaces align the value, which counts units of 1024 bytes or nothing.
pub record Entry : Type 0 where
  pub name : Text
  pub pad : ℕ
  pub value : ℕ
  pub in_kb : Bool

abbrev pub unit : Bool → Text
unit in_kb = if in_kb then codes " kB" else []

abbrev pub print : Entry → Text
print e = e.name ++ b':' ∷ (spaces e.pad ++ (show_ℕ e.value ++ unit e.in_kb))

abbrev pub factor : Bool → ℕ
factor in_kb = if in_kb then 1024 else 1

abbrev pub bytes : Entry → ℕ
bytes e = e.value * factor e.in_kb

-- The name is one word without a colon, and the number of bytes fits an i64.
pub record IsEntry (e : Entry) : Type 0 where
  pub filled : is_empty e.name ≡ false
  pub solid : is_solid e.name ≡ true
  pub no_colon : contains b':' e.name ≡ false
  pub fits : bytes e < 2 ^ 63

module _ (t : Text) (solid : is_solid t ≡ true) where
  kb_left :
      contains b'k' t ≡ false
      → strip_unit (codes "kB") (pos 1024) (t ++ codes " kB", pos 1) ≡ (t, pos 1024)
  unfolding strip_unit ◌*ℤ◌ contains
  kb_left h =
      rw
        (
          ← append_assoc t (codes " ") (codes "kB"),
          strip_unit,
          strip_suffix_end b'k' (codes "B") (t ++ codes " ")
              (contains-append b'k' t (codes " ") h refl),
          trim_end-space t solid,
        )
        refl

  value_kept : (in_kb : Bool) → is_empty t ≡ false → trim_end (t ++ unit in_kb) ≡ t ++ unit in_kb
  unfolding is_whitespace
  value_kept true h =
      rw (← append_assoc t (codes " ") (codes "kB"))
        (trim_end-append (t ++ codes " ") (codes "kB") refl (trim_end_solid (codes "kB") refl))
  value_kept false h = rw (append-nil t) (trim_end_solid t solid)

  trim_value :
      (pad : ℕ) (in_kb : Bool)
      → is_empty t ≡ false
      → trim (spaces pad ++ (t ++ unit in_kb)) ≡ t ++ unit in_kb
  unfolding trim
  trim_value pad in_kb h =
      rw (trim_start-spaces pad (t ++ unit in_kb), trim_start_solid t (unit in_kb) h solid)
        (value_kept in_kb h)

none_left :
    (p t : Text) (k v : ℤ)
    → contains b'B' p ≡ true
    → contains b'B' t ≡ false
    → strip_unit p k (t, v) ≡ (t, v)
unfolding strip_unit
none_left p t k v h e = rw (strip_unit, strip_suffix-none b'B' p t h e) refl

strip_units_value :
    (pad : ℕ) (t : Text) (in_kb : Bool)
    → is_solid t ≡ true
    → is_empty t ≡ false
    → contains b'k' t ≡ false
    → contains b'B' t ≡ false
    → strip_units (spaces pad ++ (t ++ unit in_kb)) ≡ (t, pos (factor in_kb))
unfolding strip_units contains
strip_units_value pad t true solid filled k b =
    rw
      (
        trim_value t solid pad true filled,
        kb_left t solid k,
        none_left (codes "MB") t (pos (1024 * 1024)) (pos 1024) refl b,
        none_left (codes "GB") t (pos (1024 * 1024 * 1024)) (pos 1024) refl b,
      )
      (none_left (codes "B") t (pos 1) (pos 1024) refl b)
strip_units_value pad t false solid filled k b =
    rw
      (
        trim_value t solid pad false filled,
        append-nil t,
        none_left (codes "kB") t (pos 1024) (pos 1) refl b,
        none_left (codes "MB") t (pos (1024 * 1024)) (pos 1) refl b,
        none_left (codes "GB") t (pos (1024 * 1024 * 1024)) (pos 1) refl b,
      )
      (none_left (codes "B") t (pos 1) (pos 1) refl b)

value_fits : (v : ℕ) (in_kb : Bool) → v * factor in_kb < 2 ^ 63 → v < 2 ^ 63
value_fits v true h = omega arith
value_fits v false h = omega arith

parse_value : (v : ℕ) → v < 2 ^ 63 → parse_i64 (show_ℕ v) ≡ some (pos v)
unfolding show_ℤ
parse_value v h = parse_i64-show_ℤ (pos v) h

mul_pos : (v k : ℕ) → pos v *ℤ pos k ≡ pos (v * k)
unfolding ◌*ℤ◌
mul_pos v k = ground arith

-- A printed value is read back, in bytes.
pub parse_meminfo_line-print :
    (p : Profile) (e : Entry)
    → IsEntry e
    → parse_meminfo_line p (print e) ≡ ok (e.name, pos (bytes e))
unfolding parse_meminfo_line
parse_meminfo_line-print p e h =
    rw
      (
        split_once-first b':' e.name (spaces e.pad ++ (show_ℕ e.value ++ unit e.in_kb)) h.no_colon,
        strip_units_value e.pad (show_ℕ e.value) e.in_kb (show_ℕ-solid e.value)
            (show_ℕ-filled e.value) (show_ℕ-without b'k' e.value refl)
            (show_ℕ-without b'B' e.value refl),
        parse_value e.value (value_fits e.value e.in_kb h.fits),
        mul_pos e.value (factor e.in_kb),
        fit_i64-eq-ok p (pos (bytes e)) h.fits,
        trim_word e.name h.filled h.solid,
      )
      refl

unit-without :
    (c : ℕ) (in_kb : Bool) → contains c (codes " kB") ≡ false → contains c (unit in_kb) ≡ false
unfolding contains
unit-without c true k = k
unit-without c false k = refl

filled-front : (s t : Text) → is_empty s ≡ false → is_empty (s ++ t) ≡ false
filled-front [] t h = ground arith
filled-front (c ∷ s) t h = refl

module _ (e : Entry) (h : IsEntry e) where
  print-without :
      (c : ℕ)
      → is_whitespace c ≡ true
      → contains c (codes ": kB") ≡ false
      → contains c (show_ℕ e.value) ≡ false
      → contains c (print e) ≡ false
  unfolding contains
  print-without c w k d =
      let number = contains-append c (show_ℕ e.value) _ d (unit-without c e.in_kb (ground arith)) in
      let rest =
        contains-append c (spaces e.pad) _ (spaces-without c e.pad (ground arith)) number in
      contains-append c e.name _ (solid-without c e.name w h.solid) (rw rest (ground arith))

  print_kept : trim (print e) ≡ print e
  unfolding trim
  print_kept =
      let number = show_ℕ e.value ++ unit e.in_kb in
      let filled = filled-front (show_ℕ e.value) (unit e.in_kb) (show_ℕ-filled e.value) in
      let rest = b':' ∷ spaces e.pad in
      rw (trim_start_solid e.name (rest ++ number) h.filled h.solid) (
        trim_end-append e.name (rest ++ number) refl (
          trim_end-append rest number filled
            (value_kept (show_ℕ e.value) (show_ℕ-solid e.value) e.in_kb (show_ℕ-filled e.value))))

  pub print-IsTrimmed : IsTrimmed (print e)
  unfolding contains is_whitespace
  print-IsTrimmed = record {
    one_line = print-without b'\n' refl refl (show_ℕ-without b'\n' e.value refl);
    no_return = print-without 13 refl refl (show_ℕ-without 13 e.value refl);
    kept = print_kept;
    filled = filled-front e.name _ h.filled;
  }
