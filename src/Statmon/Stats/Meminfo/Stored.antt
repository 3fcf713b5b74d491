-- ===== src/Statmon/Stats/Meminfo/Stored.antt =====
-- `upd_meminfo` of statmon/src/stats.rs on the text that Linux writes to /proc/meminfo.
use mathlib.Core.Option
use ndp_auto_offload.Base.{
  ℕ, zero, suc, Option-cases, inl, inr, Bool-cases, ◌≡◌, ◌≢◌, refl, ◌∙◌, ap, true, Option, none,
  some, List, [], ◌∷◌, ◌++◌, map, All, get_elem?, update_at,
}
use ndp_auto_offload.Base.Int.{pos}
use ndp_auto_offload.Base.Words.{Profile}
use ndp_auto_offload.Text.{Text}
use ndp_auto_offload.Text.Written.{unlines, IsTrimmed, trimmed_lines-unlines}
use ndp_auto_offload.Statmon.Value.{StatValue}
use ndp_auto_offload.Statmon.Which.{as_usize}
use ndp_auto_offload.Statmon.Stat.{Stat}
use ndp_auto_offload.Statmon.Host.{Reading}
use ndp_auto_offload.Statmon.Meminfo.{meminfo_stat}
use ndp_auto_offload.Statmon.Meminfo.Written.{
  Entry, print, bytes, IsEntry, parse_meminfo_line-print, print-IsTrimmed,
}
use ndp_auto_offload.Statmon.Run.{◌>>=◌, returns, pure, gets, modify, lift, when, for_each}
use ndp_auto_offload.Statmon.Stats.{Stats, set_now, seti, put, opening, read_text}
use ndp_auto_offload.Statmon.Stats.Meminfo.{store_meminfo, read_line, upd_meminfo}

-- The place of the statistic of an entry.
abbrev pub place : Entry → Option ℕ
place e = Option.map as_usize (meminfo_stat e.name)

-- The file reads as these entries, one a line.
abbrev pub file_text : List Entry → Text
file_text es = unlines (map print es)

-- A statistic with the bytes of an entry.
abbrev pub assign : {F : Type 0} → Entry → Stat F → Stat F
assign e x = record x { value_now = StatValue.int (pos (bytes e)) }

store_one : {F : Type 0} → Entry → Option ℕ → List (Stat F) → List (Stat F)
store_one e none stats = stats
store_one e (some i) stats = update_at i (assign e) stats

store : {F : Type 0} → List Entry → List (Stat F) → List (Stat F)
unfolding store_one
store [] stats = stats
store (e ∷ es) stats = store es (store_one e (place e) stats)

module _ {ℓ} {A : Type ℓ} where
  get_elem?-update_self :
      (i : ℕ) (f : A → A) (xs : List A)
      → get_elem? (update_at i f xs) i ≡ Option.map f (get_elem? xs i)
  get_elem?-update_self i f [] = refl
  get_elem?-update_self zero f (x ∷ xs) = refl
  get_elem?-update_self (suc i) f (x ∷ xs) = get_elem?-update_self i f xs

  get_elem?-update_ne :
      (i j : ℕ) (f : A → A) (xs : List A) → i ≢ j → get_elem? (update_at i f xs) j ≡ get_elem? xs j
  get_elem?-update_ne i j f [] h = refl
  get_elem?-update_ne zero zero f (x ∷ xs) h = absurd (h refl)
  get_elem?-update_ne zero (suc j) f (x ∷ xs) h = refl
  get_elem?-update_ne (suc i) zero f (x ∷ xs) h = refl
  get_elem?-update_ne (suc i) (suc j) f (x ∷ xs) h =
      get_elem?-update_ne i j f xs (λ e. h (ap suc e))

module _ {F : Type 0} where
  store_one-apart :
      (e : Entry) (o : Option ℕ) (i : ℕ) (stats : List (Stat F))
      → o ≢ some i
      → get_elem? (store_one e o stats) i ≡ get_elem? stats i
  unfolding store_one
  store_one-apart e none i stats h = refl
  store_one-apart e (some j) i stats h =
      get_elem?-update_ne j i (assign e) stats (λ k. h (ap some k))

  store-apart :
      (es : List Entry) (i : ℕ) (stats : List (Stat F))
      → All (λ d. place d ≢ some i) es
      → get_elem? (store es stats) i ≡ get_elem? stats i
  unfolding store
  store-apart [] i stats h = refl
  store-apart (e ∷ es) i stats h =
      store-apart es i (store_one e (place e) stats) h.1 ∙ store_one-apart e (place e) i stats h.0

  overwritten_at :
      (d e : Entry) (j i : ℕ) (stats : List (Stat F))
      → Option.map (assign e) (get_elem? (update_at j (assign d) stats) i)
        ≡ Option.map (assign e) (get_elem? stats i)
  overwritten_at d e j i [] = refl
  overwritten_at d e zero zero (x ∷ stats) = refl
  overwritten_at d e zero (suc i) (x ∷ stats) = refl
  overwritten_at d e (suc j) zero (x ∷ stats) = refl
  overwritten_at d e (suc j) (suc i) (x ∷ stats) = overwritten_at d e j i stats

  overwritten :
      (d e : Entry) (o : Option ℕ) (i : ℕ) (stats : List (Stat F))
      → Option.map (assign e) (get_elem? (store_one d o stats) i)
        ≡ Option.map (assign e) (get_elem? stats i)
  unfolding store_one
  overwritten d e none i stats = refl
  overwritten d e (some j) i stats = overwritten_at d e j i stats

  store_last :
      (before : List Entry) (e : Entry) (after : List Entry) (i : ℕ) (stats : List (Stat F))
      → place e ≡ some i
      → All (λ d. place d ≢ some i) after
      → get_elem? (store (before ++ e ∷ after) stats) i ≡ Option.map (assign e) (get_elem? stats i)
  unfolding store store_one
  store_last [] e after i stats h k =
      store-apart after i (store_one e (place e) stats) k
      ∙ rw h (get_elem?-update_self i (assign e) stats)
  store_last (d ∷ before) e after i stats h k =
      store_last before e after i (store_one d (place d) stats) h k
      ∙ overwritten d e (place d) i stats

module _ {F C : Type 0} (p : Profile) where
  store_meminfo_lem :
      (e : Entry) (s : Stats F C)
      → store_meminfo (e.name, pos (bytes e)) s
        ≡ returns tt (record s { stats = store_one e (place e) s.stats })
  unfolding store_meminfo store_one seti put set_now modify pure
  store_meminfo_lem e s = elim (Option-cases (meminfo_stat e.name)) [
    | inl n ↦ rw (store_meminfo, n) refl
    | inr (which, found) ↦ rw (store_meminfo, found) refl
  ]

  read_line-print :
      (e : Entry) (s : Stats F C)
      → IsEntry e
      → read_line p (print e) s ≡ returns tt (record s { stats = store_one e (place e) s.stats })
  unfolding read_line ◌>>=◌ lift
  read_line-print e s h = rw (parse_meminfo_line-print p e h) (store_meminfo_lem e s)

  read_lines :
      (es : List Entry) (s : Stats F C)
      → All IsEntry es
      → for_each (read_line p) (map print es) s ≡ returns tt (record s { stats = store es s.stats })
  unfolding store for_each pure ◌>>=◌
  read_lines [] s h = refl
  read_lines (e ∷ es) s h =
      rw (read_line-print e s h.0)
        (read_lines es (record s { stats = store_one e (place e) s.stats }) h.1)

All-IsTrimmed : (es : List Entry) → All IsEntry es → All IsTrimmed (map print es)
All-IsTrimmed [] h = tt
All-IsTrimmed (e ∷ es) h = (print-IsTrimmed e h.0, All-IsTrimmed es h.1)

module _ {F C : Type 0} (p : Profile) (r : Reading) (s : Stats F C) where
  upd_meminfo-store :
      (es : List Entry)
      → r.opens ≡ true
      → r.text ≡ some (file_text es)
      → All IsEntry es
      → upd_meminfo p r s ≡ returns tt (record s { open_meminfo = true; stats = store es s.stats })
  unfolding upd_meminfo opening read_text ◌>>=◌ gets when modify lift
  upd_meminfo-store es o t h =
      let split = trimmed_lines-unlines (map print es) (All-IsTrimmed es h) in
      elim (Bool-cases s.open_meminfo) [
        | inl b ↦ rw (b, t, split) (read_lines p es (record s { open_meminfo = true }) h)
        | inr b ↦ rw (b, o, t, split) (read_lines p es (record s { open_meminfo = true }) h)
      ]

  -- If /proc/meminfo opens and reads as lines `name: value` with or without the unit kB, each name one
  -- word without a colon and each value, in bytes, in the range of i64, then in every build all lines
  -- are read without an error, and of the state only the statistics change, and that the file is open.
  -- The statistic of a name holds the bytes of the last line of this name, and a statistic that no line
  -- is for stays as it was.
  pub upd_meminfo_last :
      (before : List Entry) (e : Entry) (after : List Entry) (i : ℕ)
      → r.opens ≡ true
      → r.text ≡ some (file_text (before ++ e ∷ after))
      → All IsEntry (before ++ e ∷ after)
      → place e ≡ some i
      → All (λ d. place d ≢ some i) after
      → (stats : List (Stat F)) × (upd_meminfo p r s
          ≡ returns tt (record s { open_meminfo = true; stats = stats }))
        × (get_elem? stats i ≡ Option.map (assign e) (get_elem? s.stats i))
        × ((j : ℕ)
            → All (λ d. place d ≢ some j) (before ++ e ∷ after)
            → get_elem? stats j ≡ get_elem? s.stats j)
  upd_meminfo_last before e after i o t h found last =
      let es = before ++ e ∷ after in
      (
        store es s.stats,
        upd_meminfo-store es o t h,
        store_last before e after i s.stats found last,
        λ j apart. store-apart es j s.stats apart,
      )
