-- ===== src/NearMap/Access.antt =====
-- `AccessType` and `TracePhase` of pin-NearMAP/analyse-results/src/main.rs.
use ndp_auto_offload.Base.{
  ℕ, ◌≡◌, ◌==◌, Bool, true, false, Option, none, some, List, [], ◌∷◌, arith, if◌then◌else◌,
}
use ndp_auto_offload.Text.{Text}

pub data AccessType : Type 0 where
  read write read_write : AccessType

unfoldable pub try_from_rw : Bool → Bool → Option AccessType
try_from_rw true false = some read
try_from_rw false true = some write
try_from_rw true true = some read_write
try_from_rw false false = none

unfoldable pub is_read : AccessType → Bool
is_read read = true
is_read read_write = true
is_read write = false

unfoldable pub is_write : AccessType → Bool
is_write write = true
is_write read_write = true
is_write read = false

-- `HashMap<PageNumber, AccessType>`, in the order of its iteration.
abbrev pub Accesses : Type 0
Accesses = List (ℕ × AccessType)

unfoldable pub get : ℕ → Accesses → Option AccessType
get page [] = none
get page ((q, ty) ∷ rest) = if q == page then some ty else get page rest

unfoldable pub insert : ℕ → AccessType → Accesses → Accesses
insert page ty [] = (page, ty) ∷ []
insert page ty ((q, old) ∷ rest) =
    if q == page then (q, ty) ∷ rest else (q, old) ∷ insert page ty rest

pub record TracePhase : Type 0 where
  pub name : Text
  pub page_size : ℕ
  pub start_time : ℕ
  pub instructions : ℕ
  pub io_bytes : ℕ
  pub accesses : Accesses

-- `TracePhase::new`
unfoldable pub new : Text → ℕ → ℕ → ℕ → ℕ → TracePhase
new name page_size start_time instructions io_bytes = record {
  name = name;
  page_size = page_size;
  start_time = start_time;
  instructions = instructions;
  io_bytes = io_bytes;
  accesses = [];
}

-- The flags of an access are read back from it, and no other flags give it.
try_from_rw-flags :
    (r w : Bool) (ty : AccessType)
    → try_from_rw r w ≡ some ty
    → (is_read ty ≡ r) × (is_write ty ≡ w)
unfolding try_from_rw is_read is_write
try_from_rw-flags r w ty e = ground arith

-- After an insertion a page's access is the inserted one, whether or not it was there before, and the
-- other pages keep theirs.
pub get-insert :
    (p q : ℕ) (ty : AccessType) (m : Accesses)
    → get q (insert p ty m) ≡ (if p == q then some ty else get q m)
unfolding get insert
get-insert p q ty [] = ground arith
get-insert p q ty ((r, old) ∷ m) = ground (arith, get-insert p q ty m)
