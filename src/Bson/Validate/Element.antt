-- ===== src/Bson/Validate/Element.antt =====
-- src/mongo/bson/bson_validate.cpp, `validateElementInfo`: one element of an object.
use mongo_cxx_driver.Base.{ℕ, ◌+◌, Bool, ◌||◌, not, Option, leb, ◌==◌, if◌then◌else◌}
use mongo_cxx_driver.Bson.Validate.{
  Buffer, Outcome, ok, err, ◌>>=◌, ◌>>◌, guard, required, make_error, read_char, read_int,
  read_c_string, read_utf8_string, skip, skip_or, sign_bit, invalid_bson, invalid_size,
  invalid_type,
}

-- `ValidationState::State`.
pub data State : Type 0 where
  begin_obj within_obj end_obj begin_code_w_scope end_code_w_scope done : State

-- The cases of the switch over the type byte, read as an unsigned byte: MinKey is -1, so 255.
abbrev pub is_empty_type : ℕ → Bool
is_empty_type t = t == 255 || (t == 127 || (t == 10 || t == 6))

abbrev pub is_eight_byte_type : ℕ → Bool
is_eight_byte_type t = t == 1 || (t == 18 || (t == 17 || t == 9))

abbrev pub is_string_type : ℕ → Bool
is_string_type t = t == 13 || (t == 14 || t == 2)

abbrev pub is_document_type : ℕ → Bool
is_document_type t = t == 3 || t == 4

-- `sz < 0 || sz == INT_MAX` on the pattern of a signed `int`.
abbrev pub bad_bin_data_size : ℕ → Bool
bad_bin_data_size sz = leb sign_bit sz || sz + 1 == sign_bit

unfoldable pub bin_data : Option ℕ → Buffer → Outcome Buffer
bin_data id_elem b = do
  (sz, b1) ← required (read_int b) (make_error invalid_bson id_elem)
  guard (not (bad_bin_data_size sz)) (make_error invalid_size id_elem)
  skip_or (1 + sz) (make_error invalid_bson id_elem) b1

unfoldable pub db_ref : Buffer → Outcome Buffer
unfolding skip
db_ref b = do b1 ← read_utf8_string b; ok (skip 12 b1).0

unfoldable pub reg_ex : Buffer → Outcome Buffer
reg_ex b = do b1 ← read_c_string b; read_c_string b1

abbrev pub stay : State → Outcome Buffer → Outcome (State × Buffer)
stay s r = do b ← r; ok (s, b)

-- The value after the name: the state that follows, and where the buffer then stands.
unfoldable pub element_value : ℕ → State → Option ℕ → Buffer → Outcome (State × Buffer)
element_value t s id_elem b =
    let e = make_error invalid_bson id_elem in
    if is_empty_type t
    then ok (s, b)
    else if t == 7
    then stay s (skip_or 12 e b)
    else if t == 16
    then stay s (skip_or 4 e b)
    else if t == 8
    then stay s (skip_or 1 e b)
    else if is_eight_byte_type t
    then stay s (skip_or 8 e b)
    else if t == 12
    then stay s (db_ref b)
    else if t == 11
    then stay s (reg_ex b)
    else if is_string_type t
    then stay s (read_utf8_string b)
    else if t == 5
    then stay s (bin_data id_elem b)
    else if t == 15
    then ok (begin_code_w_scope, b)
    else if is_document_type t
    then ok (begin_obj, b)
    else err (make_error invalid_type id_elem)

-- `validateElementInfo(buffer, &nextState, idElem)`.
unfoldable pub validate_element_info : State → Option ℕ → Buffer → Outcome (State × Buffer)
validate_element_info s id_elem b = do
  (t, b1) ← required (read_char b) (make_error invalid_bson id_elem)
  if t == 0 then ok (end_obj, b1) else do b2 ← read_c_string b1; element_value t s id_elem b2
