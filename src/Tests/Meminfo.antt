-- ===== src/Tests/Meminfo.antt =====
-- Test of the reading of /proc/meminfo of statmon/src/stats.rs.
use mathlib.Core.Option
use ndp_auto_offload.Base.{
  ℕ, ◌≡◌, ◌≢◌, refl, arith, true, false, some, none, List, [], ◌∷◌, All, get_elem?,
}
use ndp_auto_offload.Base.Words.{release}
use ndp_auto_offload.Text.{codes, contains, is_whitespace}
use ndp_auto_offload.Text.Print.{show_ℕ}
use ndp_auto_offload.Statmon.Which.{WhichStat, as_usize}
use ndp_auto_offload.Statmon.Stat.{Stat}
use ndp_auto_offload.Statmon.Host.{Reading}
use ndp_auto_offload.Statmon.Meminfo.{meminfo_stat}
use ndp_auto_offload.Statmon.Meminfo.Written.{Entry, IsEntry}
use ndp_auto_offload.Statmon.Run.{returns}
use ndp_auto_offload.Statmon.Stats.Meminfo.{upd_meminfo}
use ndp_auto_offload.Statmon.Stats.Meminfo.Stored.{place, file_text, assign, upd_meminfo_last}
use ndp_auto_offload.Tests.Statmon.{whole_floats, state}

abbrev total : Entry
total = record { name = codes "MemTotal"; pad = 7; value = 16307584; in_kb = true }

abbrev pages : Entry
pages = record { name = codes "HugePages_Total"; pad = 5; value = 3; in_kb = false }

abbrev active : Entry
active = record { name = codes "Active"; pad = 1; value = 12; in_kb = true }

abbrev meminfo : Reading
meminfo = record {
  opens = true;
  first = none;
  text = some (codes "Active: 12 kB\nMemTotal:       16307584 kB\nHugePages_Total:     3\n");
}

meminfo_text : meminfo.text ≡ some (file_text (active ∷ total ∷ pages ∷ []))
unfolding show_ℕ
meminfo_text = refl

total-IsEntry : IsEntry total
unfolding contains is_whitespace
total-IsEntry = record { filled = refl; solid = refl; no_colon = refl; fits = omega arith }

pages-IsEntry : IsEntry pages
unfolding contains is_whitespace
pages-IsEntry = record { filled = refl; solid = refl; no_colon = refl; fits = omega arith }

active-IsEntry : IsEntry active
unfolding contains is_whitespace
active-IsEntry = record { filled = refl; solid = refl; no_colon = refl; fits = omega arith }

no_place : place pages ≡ none
unfolding meminfo_stat
no_place = refl

total_place : place total ≡ some (as_usize WhichStat.mem_total)
unfolding meminfo_stat
total_place = refl

none-some : ¬ (none ≡ some (as_usize WhichStat.mem_total))
none-some e = ground arith

upd_meminfo_last_example :
    (stats : List (Stat ℕ)) × (upd_meminfo release meminfo state
      ≡ returns tt (record state { open_meminfo = true; stats = stats }))
    × (get_elem? stats (as_usize WhichStat.mem_total)
        ≡ Option.map (assign total) (get_elem? state.stats (as_usize WhichStat.mem_total)))
    × ((j : ℕ)
        → All (λ d. place d ≢ some j) (active ∷ total ∷ pages ∷ [])
        → get_elem? stats j ≡ get_elem? state.stats j)
upd_meminfo_last_example =
    upd_meminfo_last release meminfo state (active ∷ []) total (pages ∷ [])
      (as_usize WhichStat.mem_total) refl meminfo_text
      (active-IsEntry, (total-IsEntry, (pages-IsEntry, tt))) total_place
      ((λ e. none-some (rw no_place at e)), tt)
