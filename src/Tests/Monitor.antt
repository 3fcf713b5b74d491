-- ===== src/Tests/Monitor.antt =====
-- The theorems on the parts of statmon/src at concrete statistics, lines and bytes.
use ndp_auto_offload.Base.{ℕ, ◌≡◌, refl, some, none, [], ◌∷◌, ◌++◌, All}
use ndp_auto_offload.Base.Int.{pos}
use ndp_auto_offload.Text.{Text, codes, contains}
use ndp_auto_offload.Text.Print.{show_ℕ, show_ℤ}
use ndp_auto_offload.Statmon.Value.{FloatOps, StatValue}
use ndp_auto_offload.Statmon.Value
use ndp_auto_offload.Statmon.Which.{WhichStat}
use ndp_auto_offload.Statmon.Stat.{Stat}
use ndp_auto_offload.Statmon.Event.{PerfEvent, event_table}
use ndp_auto_offload.Statmon.Event
use ndp_auto_offload.Statmon.Event.Opened.{measured, lookup, new-measured}
use ndp_auto_offload.Statmon.Packet.{stat_packet}
use ndp_auto_offload.Text.Commas.{split_commas, show_ℕ-IsField}
use ndp_auto_offload.Text.Words.{IsOneLine, show_ℕ-without}
use ndp_auto_offload.Statmon.Packet.Plain.{IsPlain, stat_packet-readings}
use ndp_auto_offload.Statmon.Packet.Fields.{readings}
use ndp_auto_offload.Tests.Statmon.{whole_floats, one_cpu}

abbrev threads : Stat ℕ
threads = record {
  name = codes "threads";
  value_now = StatValue.int (pos 4);
  value_min = StatValue.int (pos 4);
  value_max = StatValue.int (pos 9);
  value_sum = StatValue.int (pos 13);
  value_cnt = pos 2;
}

new-measured_example :
    (lookup WhichStat.event_page_faults_minor (Event.new one_cpu) ≡ some (7 ∷ []))
    × (measured WhichStat.event_page_faults_minor ≡ some PerfEvent.page_faults_maj)
    × (measured WhichStat.event_page_faults_major ≡ some PerfEvent.page_faults_min)
    × ((s : WhichStat) → measured s ≡ none → lookup s (Event.new one_cpu) ≡ none)
new-measured_example =
    new-measured one_cpu WhichStat.event_page_faults_minor PerfEvent.page_faults_maj (7 ∷ [])
      (none ∷ []) (unfold measured in refl) refl tt

threads-IsPlain : All (λ z. IsPlain z.name) (threads ∷ [])
unfolding contains
threads-IsPlain = ((refl, refl), tt)

prefix-IsPlain : IsPlain (codes "local_")
unfolding contains
prefix-IsPlain = (refl, refl)

stat_packet-readings_example :
    (body : Text) × (stat_packet (codes "local_") (threads ∷ []) ≡ body ++ b'\n' ∷ [])
    × IsOneLine body
    × (split_commas body ≡ readings (codes "local_") (threads ∷ []))
stat_packet-readings_example =
    stat_packet-readings (codes "local_") threads [] prefix-IsPlain threads-IsPlain
      (λ n. (show_ℕ-IsField n, show_ℕ-without b'\n' n refl))

-- The labels and values of the packet.
readings-threads :
    readings (codes "local_") (threads ∷ [])
    ≡ codes "local_threads"
      ∷ codes "4"
      ∷ codes "local_threads_min"
      ∷ codes "4"
      ∷ codes "local_threads_max"
      ∷ codes "9"
      ∷ codes "local_threads_avg"
      ∷ codes "13"
      ∷ codes "local_threads_sum"
      ∷ codes "13"
      ∷ codes "local_threads_cnt"
      ∷ codes "2"
      ∷ []
unfolding Value.show Value.valf show_ℤ show_ℕ
readings-threads = refl
