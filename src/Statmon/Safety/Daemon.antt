-- ===== src/Statmon/Safety/Daemon.antt =====
-- The whole daemon of statmon/src/main.rs, on hosts that list its interface and whose counters work:
-- updates and commands that do not panic.
use ndp_auto_offload.Base.{
  refl, ◌≡◌, ◌<◌, ⊤, ℕ, Bool, true, false, ◌==◌, ◌||◌, ◌&&◌, List, [], ◌∷◌, ◌++◌, map, length,
  Option, none, some, Outcome, ok, if◌then◌else◌,
}
use ndp_auto_offload.Base.Words.{release}
use ndp_auto_offload.Text.{Text, is_empty, trim, lines, split_whitespace}
use ndp_auto_offload.Statmon.Value.{FloatOps}
use ndp_auto_offload.Statmon.Host.{Round, Crates}
use ndp_auto_offload.Statmon.Event
use ndp_auto_offload.Statmon.Event.{EventStat, PerfEvent, each_counter}
use ndp_auto_offload.Statmon.Run.{Action, pure}
use ndp_auto_offload.Statmon.Run.Safe.{
  EndsIn, IsSafe, IsCalm, lift-IsSafe, gets-IsSafe, pure-IsSafe, modify-IsSafe, >>=-IsSafe,
}
use ndp_auto_offload.Statmon.Stats.{Stats}
use ndp_auto_offload.Statmon.Stats.Net.{find_line}
use ndp_auto_offload.Statmon.Monitor.{unwrap, update, begin_range, end_range}
use ndp_auto_offload.Statmon.Server.{
  written, quit, packet, handle_byte, Step, tick, byte, dropped, Reach, here, next,
}
use ndp_auto_offload.Statmon.Table.{reset-IsTable}
use ndp_auto_offload.Statmon.Invariant.Start.{start_state}
use ndp_auto_offload.Statmon.Safety.{Listing, IsListing, IsListed, IsSound}
use ndp_auto_offload.Statmon.Safety.Net.{named}
use ndp_auto_offload.Statmon.Safety.Update.{listed-IsSafe, start_state-IsSound}

-- A text of /proc/net/dev, if it is read, has a line of 17 words that begins with `start`.
abbrev pub HasLine : Text → Option Text → Type 0
HasLine start none = ⊤
HasLine start (some text) =
    (line : Text) × (find_line start (map trim (lines text)) ≡ some line)
    × (length (split_whitespace line) ≡ 17)

-- A round in which the clock has ticks, the interface is listed, and the counters start and stop.
pub record IsFriendly {C : Type 0} (start : Text) (r : Round C) : Type 0 where
  pub clock : 0 < r.clk_tck
  pub line : HasLine start r.net.text
  pub resets : (c : C) → r.resets c ≡ true
  pub starts : (c : C) → r.starts c ≡ true
  pub stops : (c : C) → r.stops c ≡ true

-- The name is not empty, and its line begins with `start`.
abbrev pub Named : Text → Listing
Named start iface begin = (is_empty iface ≡ false) × (begin ≡ start)

Named-IsListed :
    (start : Text) (text : Option Text) (iface begin : Text)
    → HasLine start text
    → Named start iface begin
    → IsListed text iface begin
Named-IsListed start none iface begin h k = k.0
Named-IsListed start (some text) iface begin (line, found, size) (filled, e) =
    (filled, line, rw e found, size)

Named-IsListing :
    (start : Text) (text : Option Text) → HasLine start text → IsListing (Named start) text
Named-IsListing start text h = record {
  opened = λ iface begin k. (named iface b':', k.1);
  listed = λ iface begin k. Named-IsListed start text iface begin h k;
}

module _ {C : Type 0} where
  each_counter_ok :
      (call : C → Bool) (cs : List C) → ((c : C) → call c ≡ true) → each_counter call cs ≡ ok tt
  unfolding each_counter
  each_counter_ok call [] h = refl
  each_counter_ok call (c ∷ cs) h = rw h (each_counter_ok call cs h)

  start_ok :
      (start : Text) (r : Round C) (events : EventStat C)
      → IsFriendly start r
      → Event.start r events ≡ ok tt
  unfolding Event.start
  start_ok start r [] h = refl
  start_ok start r ((stat, cs) ∷ events) h =
      let call = λ (c : C). r.resets c && r.starts c in
      rw (each_counter_ok call cs (λ c. rw (h.resets c) (h.starts c))) (start_ok start r events h)

  stop_ok :
      (start : Text) (r : Round C) (events : EventStat C)
      → IsFriendly start r
      → Event.stop r events ≡ ok tt
  unfolding Event.stop
  stop_ok start r [] h = refl
  stop_ok start r ((stat, cs) ∷ events) h =
      rw (each_counter_ok r.stops cs h.stops) (stop_ok start r events h)

unwrap-IsCalm : (o : Outcome ⊤) → o ≡ ok tt → IsCalm (unwrap o)
unfolding unwrap
unwrap-IsCalm o h = rw h tt

if-IsSafe :
    {S A : Type 0} (P : S → Type 0) (b : Bool) (m n : Action S A)
    → IsSafe P m
    → IsSafe P n
    → IsSafe P (if b then m else n)
if-IsSafe P true m n h k = h
if-IsSafe P false m n h k = k

module _ {F C : Type 0} ⦃fl : FloatOps F⦄ (start : Text) (crates : Crates) (r : Round C)
    (good : IsFriendly start r) where
  abbrev Sound : Stats F C → Type 0
  Sound = IsSound (Named start)

  friendly_update-IsSafe : IsSafe Sound (update release crates r)
  friendly_update-IsSafe =
      listed-IsSafe (Named start) crates r good.clock (Named-IsListing start r.net.text good.line)

  begin_range-IsSafe : IsSafe Sound (begin_range r)
  unfolding begin_range
  begin_range-IsSafe = >>=-IsSafe _ _ (modify-IsSafe _ (λ s h. h)) λ _.
      >>=-IsSafe _ _ (modify-IsSafe _ (λ s h. (reset-IsTable s.stats h.0, h.1, h.2, h.3, h.4))) λ _.
        >>=-IsSafe _ _ (gets-IsSafe (λ s. s.events))
          λ events. lift-IsSafe _ (unwrap-IsCalm _ (start_ok start r events good))

  end_range-IsSafe : IsSafe Sound (end_range r)
  unfolding end_range
  end_range-IsSafe = >>=-IsSafe _ _ (modify-IsSafe _ (λ s h. h)) λ _.
      >>=-IsSafe _ _ (gets-IsSafe (λ s. s.events))
        λ events. lift-IsSafe _ (unwrap-IsCalm _ (stop_ok start r events good))

  packet-IsSafe : IsSafe Sound packet
  unfolding packet
  packet-IsSafe = gets-IsSafe _

  handle_byte-IsSafe : (b : ℕ) → IsSafe Sound (handle_byte release crates r b)
  unfolding handle_byte
  handle_byte-IsSafe b =
      let ignored : IsSafe Sound (pure (written [])) = pure-IsSafe (written []) in
      let opening =
        >>=-IsSafe _ _ friendly_update-IsSafe λ _. >>=-IsSafe _ _ begin_range-IsSafe λ _. ignored in
      let closing =
        >>=-IsSafe _ _ friendly_update-IsSafe
          λ _. >>=-IsSafe _ _ end_range-IsSafe λ _. packet-IsSafe in
      if-IsSafe Sound (b == b'\n' || b == b'\r' || b == 0) _ _ ignored (
        if-IsSafe Sound (b == b'q') _ _ (pure-IsSafe quit) (
          if-IsSafe Sound (b == b'[') _ _ opening (
            if-IsSafe Sound (b == b']') _ _ closing
              (if-IsSafe Sound (b == b'?') _ _ packet-IsSafe ignored))))

module _ {F C : Type 0} ⦃fl : FloatOps F⦄ (start : Text) (crates : Crates) where
  -- Every round of a run is friendly.
  abbrev pub FriendlyStep : {s t : Stats F C} → Step release crates s t → Type 0
  FriendlyStep (tick r t e) = IsFriendly start r
  FriendlyStep (byte r b reply t e) = IsFriendly start r
  FriendlyStep (dropped r b e t h) = IsFriendly start r

  abbrev pub FriendlyRun : {s t : Stats F C} → Reach release crates s t → Type 0
  FriendlyRun here = ⊤
  FriendlyRun (next q step) = FriendlyRun q × FriendlyStep step

  Step-IsSound :
      {s t : Stats F C} (step : Step release crates s t)
      → FriendlyStep step
      → IsSound (Named start) s
      → IsSound (Named start) t
  Step-IsSound {s} (tick r t e) good h =
      rw e at ((friendly_update-IsSafe start crates r good).run s h)
  Step-IsSound {s} (byte r b reply t e) good h =
      rw e at ((handle_byte-IsSafe start crates r good b).run s h)
  Step-IsSound {s} (dropped r b x t e) good h =
      rw e at ((handle_byte-IsSafe start crates r good b).run s h)

  Reach-IsSound :
      {s t : Stats F C} (q : Reach release crates s t)
      → FriendlyRun q
      → IsSound (Named start) s
      → IsSound (Named start) t
  Reach-IsSound here good h = h
  Reach-IsSound (next q step) good h = Step-IsSound step good.1 (Reach-IsSound q good.0 h)

module _ {F C : Type 0} ⦃fl : FloatOps F⦄ where
  -- In a release build, whose interface has a name: where every round so far had a clock that ticks,
  -- counters that reset, start and stop, and a line of 17 words for the interface in the text of
  -- /proc/net/dev, if it could be read, then after any ticks and any commands of any connections, in
  -- any order, whatever the other files held, in one more such round neither an update nor a command
  -- panics, and each leaves a state of which that holds again, after an error too.
  pub Reach-IsSafe :
      (finish : PerfEvent → List (Option C)) (host_prefix net_iface : Text) (crates : Crates)
      (t : Stats F C) (q : Reach release crates (start_state finish host_prefix net_iface) t)
      (r : Round C) (b : ℕ)
      → is_empty net_iface ≡ false
      → FriendlyRun (net_iface ++ b':' ∷ []) crates q
      → IsFriendly (net_iface ++ b':' ∷ []) r
      → EndsIn (IsSound (Named (net_iface ++ b':' ∷ []))) (update release crates r t)
        × EndsIn (IsSound (Named (net_iface ++ b':' ∷ []))) (handle_byte release crates r b t)
  Reach-IsSafe finish host_prefix net_iface crates t q r b filled past good =
      let start = net_iface ++ b':' ∷ [] in
      let h =
        Reach-IsSound start crates q past
          (start_state-IsSound F finish host_prefix net_iface (Named start) (filled, refl)) in
      (
        (friendly_update-IsSafe start crates r good).run t h,
        (handle_byte-IsSafe start crates r good b).run t h,
      )
