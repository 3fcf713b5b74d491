-- ===== src/Statmon/Safety/Net.antt =====
-- `upd_net` of statmon/src/stats.rs, for an interface that is listed.
use ndp_auto_offload.Base.{
  ⊤, ℕ, zero, suc, ◌<◌, ◌≡◌, refl, true, false, List, ◌∷◌, [], ◌++◌, map, length, Option, none,
  some, ok, panic, or_panic, arith, ◌==◌, if◌then◌else◌, unwrap_failed, bad_format, open_failed,
  read_failed, Option-cases, Bool-cases, inl, inr,
}
use ndp_auto_offload.Base.Int.{ℤ, ◌-ℤ◌}
use ndp_auto_offload.Base.Words.{release}
use ndp_auto_offload.Text.{Text, is_empty, trim, lines, split_whitespace}
use ndp_auto_offload.Statmon.Which.{WhichStat}
use ndp_auto_offload.Statmon.Host.{Reading}
use ndp_auto_offload.Statmon.Run.{Action, fails, ◌>>=◌, lift, gets, modify, when}
use ndp_auto_offload.Statmon.Run.Safe.{
  IsCalm, EndsIn, IsSafe, or_err-IsCalm, lift-IsSafe, gets-IsSafe, modify-IsSafe, >>=-IsSafe,
}
use ndp_auto_offload.Statmon.Stats.{Stats, opening, read_text}
use ndp_auto_offload.Statmon.Stats.Net.{
  find_line, nth_field, open_net_dev, read_counter, read_net_fields, upd_net,
}
use ndp_auto_offload.Statmon.Table.{IsIntSlot}
use ndp_auto_offload.Statmon.Safety.{Listing, IsListing, IsSound, IsListed, line_start}
use ndp_auto_offload.Statmon.Safety.Parts.{seti-IsSafe, fit_i64-IsCalm}

nth_field-IsCalm : (fields : List Text) (i : ℕ) → i < length fields → IsCalm (nth_field fields i)
unfolding nth_field
nth_field-IsCalm [] i h = absurd (omega arith)
nth_field-IsCalm (f ∷ fields) zero h = or_err-IsCalm _ _
nth_field-IsCalm (f ∷ fields) (suc i) h = nth_field-IsCalm fields i (omega arith)

count-IsCalm :
    (fields : List Text)
    → length fields ≡ 17
    → IsCalm (if length fields == 17 then ok tt else panic bad_format)
count-IsCalm fields h = rw h tt

pub named : (a : Text) (c : ℕ) → is_empty (a ++ c ∷ []) ≡ false
named [] c = refl
named (x ∷ a) c = refl

iface-ne : (iface start : Text) (t : Option Text) → IsListed t iface start → is_empty iface ≡ false
iface-ne iface start none h = h
iface-ne iface start (some text) h = h.0

pub now_open-IsListed :
    (t : Option Text) (iface start : Text)
    → IsListed t iface start
    → IsListed t (iface ++ b':' ∷ []) start
now_open-IsListed none iface start h = named iface b':'
now_open-IsListed (some text) iface start h = (named iface b':', h.1, h.2, h.3)

module _ {F C : Type 0} (net : Listing) where
  read_counter-IsSafe :
      (fields : List Text) (i : ℕ) (which : WhichStat) (ref : Stats F C → ℤ)
      (set_ref : ℤ → Stats F C → Stats F C)
      → i < length fields
      → IsIntSlot which
      → ((v : ℤ) (s : Stats F C) → IsSound net s → IsSound net (set_ref v s))
      → IsSafe (IsSound net) (read_counter release fields i which ref set_ref)
  unfolding read_counter
  read_counter-IsSafe fields i which ref set_ref place slot k =
      >>=-IsSafe _ _ (lift-IsSafe _ (nth_field-IsCalm fields i place)) λ value.
        >>=-IsSafe _ _ (gets-IsSafe ref) λ last.
          >>=-IsSafe _ _ (lift-IsSafe _ (fit_i64-IsCalm (value -ℤ last))) λ delta.
            >>=-IsSafe _ _ (seti-IsSafe net which delta slot) λ _. modify-IsSafe _ (k value)

  read_net_fields-IsSafe :
      (fields : List Text)
      → length fields ≡ 17
      → IsSafe (IsSound {F = F} {C = C} net) (read_net_fields release fields)
  unfolding read_net_fields
  read_net_fields-IsSafe fields n =
      >>=-IsSafe _ _ (read_counter-IsSafe fields 1 _ _ _ (omega arith) tt (λ v s h. h)) λ _.
        >>=-IsSafe _ _ (read_counter-IsSafe fields 3 _ _ _ (omega arith) tt (λ v s h. h)) λ _.
          >>=-IsSafe _ _ (read_counter-IsSafe fields 9 _ _ _ (omega arith) tt (λ v s h. h)) λ _.
            >>=-IsSafe _ _ (read_counter-IsSafe fields 10 _ _ _ (omega arith) tt (λ v s h. h))
              λ _. lift-IsSafe _ (count-IsCalm fields n)

  -- `upd_net` behind the opening of the file.
  listing : Reading → Action (Stats F C) ⊤
  listing r = do
    rdbuf ← lift (read_text r)
    iface ← gets (λ s. s.net_iface)
    line ← lift (or_panic unwrap_failed (find_line iface (map trim (lines rdbuf))))
    read_net_fields release (split_whitespace line)

  upd_net-listing :
      (r : Reading) (s : Stats F C) → s.open_net ≡ true → upd_net release r s ≡ listing r s
  unfolding upd_net listing ◌>>=◌ gets when
  upd_net-listing r s e = rw e refl

  upd_net-refused :
      (r : Reading) (s : Stats F C)
      → s.open_net ≡ false
      → r.opens ≡ false
      → upd_net release r s ≡ fails open_failed s
  unfolding upd_net open_net_dev opening ◌>>=◌ gets when lift modify
  upd_net-refused r s e o = rw (e, o) refl

  now_open : Stats F C → Stats F C
  now_open s = record s { open_net = true; net_iface = s.net_iface ++ b':' ∷ [] }

  upd_net-opened :
      (r : Reading) (s : Stats F C)
      → s.open_net ≡ false
      → r.opens ≡ true
      → is_empty s.net_iface ≡ false
      → upd_net release r s ≡ listing r (now_open s)
  unfolding upd_net open_net_dev opening listing now_open ◌>>=◌ gets when lift modify
  upd_net-opened r s e o i = rw (e, o, i) refl

  listing-none : (r : Reading) (s : Stats F C) → r.text ≡ none → listing r s ≡ fails read_failed s
  unfolding listing read_text ◌>>=◌ lift
  listing-none r s e = rw e refl

  listing-some :
      (r : Reading) (s : Stats F C) (text line : Text)
      → r.text ≡ some text
      → find_line s.net_iface (map trim (lines text)) ≡ some line
      → listing r s ≡ read_net_fields release (split_whitespace line) s
  unfolding listing read_text ◌>>=◌ lift gets
  listing-some r s text line e found = rw (e, found) refl

  now_open-IsSound :
      (text : Option Text) (s : Stats F C)
      → IsListing net text
      → s.open_net ≡ false
      → IsSound net s
      → IsSound net (now_open s)
  unfolding now_open
  now_open-IsSound text s l closed h =
      (h.0, h.1, h.2, h.3, l.opened s.net_iface (s.net_iface ++ b':' ∷ []) (rw closed at h.4))

  listing-EndsIn :
      (r : Reading) (s : Stats F C)
      → IsListing net r.text
      → s.open_net ≡ true
      → IsSound net s
      → EndsIn (IsSound net) (listing r s)
  listing-EndsIn r s l o h = elim (Option-cases r.text) [
    | inl unread ↦ rw (listing-none r s unread) h
    | inr (text, given) ↦
        let known : IsListed (some text) s.net_iface s.net_iface =
          rw (given, o) at (l.listed s.net_iface (line_start s) h.4) in
        rw (listing-some r s text known.1 given known.2)
          ((read_net_fields-IsSafe (split_whitespace known.1) known.3).run s h)
  ]

  -- In a release build the reading of the network's counters ends without a panic, and keeps the state
  -- sound, where the interface is listed.
  pub upd_net-IsSafe :
      (r : Reading)
      → IsListing net r.text
      → IsSafe (IsSound {F = F} {C = C} net) (upd_net release r)
  upd_net-IsSafe r l = record {
    run = λ s h. elim (Bool-cases s.open_net) [
      | inl is_open ↦ rw (upd_net-listing r s is_open) (listing-EndsIn r s l is_open h)
      | inr closed ↦ elim (Bool-cases r.opens) [
        | inr refused ↦ rw (upd_net-refused r s closed refused) h
        | inl opens ↦
            rw (upd_net-opened r s closed opens (iface-ne s.net_iface _ r.text (l.listed _ _ h.4)))
              (listing-EndsIn r (now_open s) l (unfold now_open in refl)
                (now_open-IsSound r.text s l closed h))
      ]
    ];
  }
