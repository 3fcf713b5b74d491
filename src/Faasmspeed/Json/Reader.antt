-- ===== src/Faasmspeed/Json/Reader.antt =====
-- A reader of flat JSON objects, to read what `make_json_call` of faasmspeed/src/main.rs writes.
use ndp_auto_offload.Base.{
  ap, refl, ◌≡◌, ◌≢◌, arith, ℕ, zero, suc, ◌==◌, ◌&&◌, Bool, true, false, Option, none, some, List,
  [], ◌∷◌, ◌++◌, if◌then◌else◌,
}
use mathlib.Core.Option
use ndp_auto_offload.Text.{Text, codes, strip_prefix, is_empty}

-- A string stands as it is written, with its escapes.
pub data Value : Type 0 where
  text : Text → Value
  flag : Bool → Value

-- What may stand between the quotes of a string, behind a backslash or not.
abbrev pub IsContent : Bool → Text → Type 0
IsContent escaped [] = escaped ≡ false
IsContent true (c ∷ s) = IsContent false s
IsContent false (c ∷ s) = (c ≢ b'"') × IsContent (c == b'\\') s

abbrev pub push : ℕ → Option (Text × Text) → Option (Text × Text)
push c o = Option.map (λ p. (c ∷ p.0, p.1)) o

-- The text up to the closing quote, and what is behind it.
unfoldable pub read_content : Bool → Text → Option (Text × Text)
read_content escaped [] = none
read_content true (c ∷ s) = push c (read_content false s)
read_content false (c ∷ s) =
    let rest = push c (read_content (c == b'\\') s) in if c == b'"' then some ([], s) else rest

pub read_content_lem :
    (escaped : Bool) (u rest : Text)
    → IsContent escaped u
    → read_content escaped (u ++ b'"' ∷ rest) ≡ some (u, rest)
unfolding read_content
read_content_lem true [] rest h = ground arith
read_content_lem false [] rest h = refl
read_content_lem true (c ∷ s) rest h = ap (push c) (read_content_lem false s rest h)
read_content_lem false (c ∷ s) rest (ne, h) =
    let plain : (c == b'"') ≡ false = ground arith in
    rw plain (ap (push c) (read_content_lem (c == b'\\') s rest h))

infixl 5 ◌>>=◌
abbrev pub ◌>>=◌ : {A B : Type 0} → Option A → (A → Option B) → Option B
none >>= f = none
some a >>= f = f a

unfoldable pub read_string : Text → Option (Text × Text)
read_string s = strip_prefix (b'"' ∷ []) s >>= read_content false

-- A string, `true` or `false`.
unfoldable pub read_value : Text → Option (Value × Text)
read_value [] = none
read_value (c ∷ s) =
    if c == b'"'
    then Option.map (λ p. (text p.0, p.1)) (read_content false s)
    else if c == b't'
    then Option.map (λ r. (flag true, r)) (strip_prefix (codes "rue") s)
    else Option.map (λ r. (flag false, r)) (strip_prefix (codes "false") (c ∷ s))

-- A key, a colon and a value.
unfoldable pub read_field : Text → Option ((Text × Value) × Text)
read_field s = do
  (key, s1) ← read_string s
  s2 ← strip_prefix (b':' ∷ []) s1
  (value, s3) ← read_value s2
  some ((key, value), s3)

unfoldable pub more_fields :
    Text × Value → (Text → Option (List (Text × Value))) → Text → Option (List (Text × Value))
more_fields field next [] = none
more_fields field next (c ∷ s) =
    if c == b','
    then Option.map (λ fs. field ∷ fs) (next s)
    else if c == b'}' && is_empty s
    then some (field ∷ [])
    else none

-- The fields up to the closing brace, which is the end of the text; at most as many as the fuel.
unfoldable pub read_fields : ℕ → Text → Option (List (Text × Value))
read_fields zero s = none
read_fields (suc fuel) s =
    read_field s >>= λ (field, rest). more_fields field (read_fields fuel) rest

unfoldable pub read_object : ℕ → Text → Option (List (Text × Value))
read_object fuel s = strip_prefix (b'{' ∷ []) s >>= read_fields fuel

module _ (key u rest : Text) (key_ok : IsContent false key) (u_ok : IsContent false u) where
  read_string_lem : read_string (b'"' ∷ key ++ b'"' ∷ rest) ≡ some (key, rest)
  unfolding read_string strip_prefix
  read_string_lem = read_content_lem false key rest key_ok

  read_text : read_value (b'"' ∷ u ++ b'"' ∷ rest) ≡ some (text u, rest)
  unfolding read_value
  read_text = rw (read_content_lem false u rest u_ok) refl

module _ (key u : Text) (key_ok : IsContent false key) (u_ok : IsContent false u) where
  read_text_field :
      (rest : Text)
      → read_field (b'"' ∷ (key ++ (b'"' ∷ b':' ∷ b'"' ∷ (u ++ (b'"' ∷ rest)))))
        ≡ some ((key, text u), rest)
  unfolding read_field strip_prefix
  read_text_field rest =
      rw (read_string_lem key u (b':' ∷ b'"' ∷ (u ++ (b'"' ∷ rest))) key_ok u_ok)
        (rw (read_text key u rest key_ok u_ok) refl)

  -- A field with a string, and a comma.
  pub read_fields_text :
      (fuel : ℕ) (rest : Text)
      → read_fields (suc fuel) (b'"' ∷ (key ++ (b'"' ∷ b':' ∷ b'"' ∷ (u ++ (b'"' ∷ b',' ∷ rest)))))
        ≡ Option.map (λ fs. (key, text u) ∷ fs) (read_fields fuel rest)
  unfolding read_fields more_fields
  read_fields_text fuel rest = rw (read_text_field (b',' ∷ rest)) refl
