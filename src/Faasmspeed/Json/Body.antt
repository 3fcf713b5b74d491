-- ===== src/Faasmspeed/Json/Body.antt =====
-- What a reader finds in the body that `make_json_call` of faasmspeed/src/main.rs writes.
use ndp_auto_offload.Base.{
  arith, refl, ◌≡◌, Bool, true, false, some, List, [], ◌∷◌, ◌++◌, if◌then◌else◌,
}
use ndp_auto_offload.Text.{Text, codes, strip_prefix}
use ndp_auto_offload.Faasmspeed.Json.{make_json_call}
use ndp_auto_offload.Faasmspeed.Json.Reader.{
  Value, text, flag, IsContent, read_content, read_string, read_value, read_field, read_fields,
  read_object, more_fields, read_fields_text,
}

-- The fields of a request.
abbrev pub call_fields : Text → Text → Text → Bool → Bool → List (Text × Value)
call_fields user function input_data forbid_ndp force_storage =
    (codes "user", text user)
    ∷ (codes "function", text function)
    ∷ (codes "input_data", text input_data)
    ∷ (codes "forbid_ndp", flag forbid_ndp)
    ∷ (if force_storage then (codes "is_storage", flag true) ∷ [] else [])

flags : Bool → Bool → Text
flags forbid_ndp force_storage =
    codes "\"forbid_ndp\":"
    ++ ((if forbid_ndp then codes "true" else codes "false")
        ++ ((if force_storage then codes ",\"is_storage\":true" else []) ++ codes "}"))

flags_lem :
    (forbid force : Bool)
    → read_fields 2 (flags forbid force)
      ≡ some (
          (codes "forbid_ndp", flag forbid)
          ∷ (if force then (codes "is_storage", flag true) ∷ [] else []))
unfolding flags read_fields read_field read_string read_value read_content strip_prefix more_fields
flags_lem true true = refl
flags_lem true false = refl
flags_lem false true = refl
flags_lem false false = refl

-- Of a user, a function and data that are valid contents of JSON strings, a reader of JSON gets back
-- from the body of a request each of them unchanged, with `forbid_ndp`, and with `is_storage` set
-- just when storage is forced.
pub make_json_call-fields :
    (user function input_data : Text) (forbid_ndp force_storage : Bool)
    → IsContent false user
    → IsContent false function
    → IsContent false input_data
    → read_object 5 (make_json_call user function input_data forbid_ndp force_storage)
      ≡ some (call_fields user function input_data forbid_ndp force_storage)
unfolding make_json_call read_object strip_prefix flags
make_json_call-fields user function input_data forbid force hu hf hd =
    rw (read_fields_text (codes "user") user (ground arith) hu 4 _) (
      rw (read_fields_text (codes "function") function (ground arith) hf 3 _) (
        rw (read_fields_text (codes "input_data") input_data (ground arith) hd 2 _)
          (rw (flags_lem forbid force) refl)))
