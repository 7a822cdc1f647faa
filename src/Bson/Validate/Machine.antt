-- ===== src/Bson/Validate/Machine.antt =====
-- src/mongo/bson/bson_validate.cpp, `validateBSONIterative` and `validateBSON`: the loop over an
-- explicit stack of frames. One turn of the loop is `step`; `run` repeats it on fuel.
use mongo_cxx_driver.Base.{
  ℕ, zero, suc, ◌+◌, ◌-◌, ◌*◌, ◌/◌, ◌%◌, Bool, true, false, not, ◌&&◌, Option, none, some, List, [],
  ◌∷◌, drop, ltb, leb, ◌==◌, if◌then◌else◌,
}
use mongo_cxx_driver.Bson.Validate.{
  Buffer, Outcome, Message, ok, err, fault, out_of_fuel, ◌>>=◌, ◌>>◌, guard, required, make_error,
  read_int, read_utf8_string, sign_bit, u32_mod, u64_mod, too_short, size_larger_than_buffer,
  length_mismatch, invalid_code_w_scope_size, code_w_scope_length_mismatch, unnested_code_w_scope,
}
use mongo_cxx_driver.Bson.Validate.Element.{
  State, begin_obj, within_obj, end_obj, begin_code_w_scope, end_code_w_scope, done,
  validate_element_info,
}

-- `ValidationObjectFrame`: the top bit of `packed` (`_startPosition`) is the CodeWScope flag.
pub record Frame : Type 0 where
  pub packed : ℕ
  pub expected_size : ℕ

abbrev pub new_frame : Frame
new_frame = record { packed = 0; expected_size = 0 }

unfoldable pub start_position : Frame → ℕ
start_position f = f.packed % sign_bit

unfoldable pub is_code_with_scope : Frame → Bool
is_code_with_scope f = leb sign_bit (f.packed % u32_mod)

unfoldable pub set_start_position : ℕ → Frame → Frame
set_start_position pos f = record f {
  packed = (f.packed / sign_bit) % 2 * sign_bit + pos % sign_bit;
}

unfoldable pub set_is_code_with_scope : Bool → Frame → Frame
set_is_code_with_scope flag f = record f {
  packed = (if flag then sign_bit else 0) + f.packed % sign_bit;
}

-- The locals of `validateBSONIterative`; the back of the deque is the head of `frames`.
pub record Machine : Type 0 where
  pub buffer : Buffer
  pub frames : List Frame
  pub state : State
  pub id_elem_start_pos : ℕ
  pub id_elem : Option ℕ

unfoldable pub push_frame : Bool → Message → Machine → Outcome Machine
unfolding set_start_position set_is_code_with_scope
push_frame flag msg m = do
  let f = set_is_code_with_scope flag (set_start_position m.buffer.position new_frame)
  (sz, b) ← required (read_int m.buffer) (make_error msg m.id_elem)
  ok (record m { buffer = b; frames = record f { expected_size = sz } ∷ m.frames })

-- `strcmp(p, "_id") == 0`.
unfoldable pub is_id_name : List ℕ → Outcome Bool
is_id_name [] = fault
is_id_name (a ∷ []) = if a == b'_' then fault else ok false
is_id_name (a ∷ b ∷ []) = if a == b'_' && b == b'i' then fault else ok false
is_id_name (a ∷ b ∷ c ∷ []) = if a == b'_' && (b == b'i' && c == b'd') then fault else ok false
is_id_name (a ∷ b ∷ c ∷ d ∷ r) = ok (a == b'_' && (b == b'i' && (c == b'd' && d == 0)))

abbrev pub at_top_level : List Frame → Bool
at_top_level [] = false
at_top_level (f ∷ []) = true
at_top_level (f ∷ g ∷ fs) = false

abbrev pub is_none {ℓ} : {A : Type ℓ} → Option A → Bool
is_none none = true
is_none (some a) = false

abbrev pub is_end_obj : State → Bool
is_end_obj end_obj = true
is_end_obj _ = false

-- "check if we've finished validating idElem and are at start of next element".
unfoldable pub note_id_elem : Machine → Machine
note_id_elem m =
    if at_top_level m.frames && ltb 0 m.id_elem_start_pos
    then record m {
      id_elem = some m.id_elem_start_pos;
      buffer = record (m.buffer) { id_elem = some m.id_elem_start_pos };
      id_elem_start_pos = 0;
    }
    else m

-- After an element: remember where it starts if it is the first `_id` at top level.
unfoldable pub mark_id_elem : ℕ → State → Machine → Outcome Machine
mark_id_elem start next m =
    if not (is_end_obj next) && (is_none m.id_elem && at_top_level m.frames)
    then (do
      found ← is_id_name (drop (start + 1) m.buffer.bytes)
      ok (if found then record m { id_elem_start_pos = start } else m))
    else ok m

-- `case WithinObj`.
unfoldable pub within_object : Machine → Outcome Machine
within_object m0 = do
  let m = note_id_elem m0
  (next, b) ← validate_element_info within_obj m.id_elem m.buffer
  m1 ← mark_id_elem m.buffer.position next (record m { buffer = b })
  ok (record m1 { state = next })

-- `int actualLength = buffer->position() - curr->startPosition()`, as a pattern.
unfoldable pub actual_length : Buffer → Frame → ℕ
unfolding start_position
actual_length b f = (b.position + u64_mod - start_position f) % u32_mod

abbrev pub after_pop : List Frame → State
after_pop [] = done
after_pop (f ∷ fs) = if is_code_with_scope f then end_code_w_scope else within_obj

-- `case EndObj`.
unfoldable pub end_object : List Frame → Machine → Outcome Machine
unfolding actual_length
end_object [] m = fault
end_object (f ∷ fs) m = do
  guard (actual_length m.buffer f == f.expected_size) (make_error length_mismatch m.id_elem)
  ok (record m { frames = fs; state = after_pop fs })

-- `case BeginCodeWScope`.
unfoldable pub begin_code : Machine → Outcome Machine
begin_code m = do
  m1 ← push_frame true invalid_code_w_scope_size m
  b ← read_utf8_string m1.buffer
  ok (record m1 { buffer = b; state = begin_obj })

-- `case EndCodeWScope`.
unfoldable pub end_code : List Frame → Machine → Outcome Machine
unfolding actual_length
end_code [] m = fault
end_code (f ∷ fs) m = do
  guard (actual_length m.buffer f == f.expected_size)
      (make_error code_w_scope_length_mismatch m.id_elem)
  elim fs [
    | [] ↦ err (make_error unnested_code_w_scope m.id_elem)
    | g ∷ gs ↦ ok (record m { frames = g ∷ gs; state = within_obj })
  ]

-- `case BeginObj`, which falls through to `case WithinObj`.
unfoldable pub begin_object : Machine → Outcome Machine
begin_object m = do m1 ← push_frame false size_larger_than_buffer m; within_object m1

abbrev pub dispatch : State → Machine → Outcome Machine
dispatch begin_obj m = begin_object m
dispatch within_obj m = within_object m
dispatch end_obj m = end_object m.frames m
dispatch begin_code_w_scope m = begin_code m
dispatch end_code_w_scope m = end_code m.frames m
dispatch done m = ok m

-- One turn of the loop, on the current state.
unfoldable pub step : Machine → Outcome Machine
step m = dispatch m.state m

abbrev pub is_done : State → Bool
is_done done = true
is_done _ = false

-- `while (state != Done)`.
unfoldable pub run : ℕ → Machine → Outcome (Unit {0})
run zero m = if is_done m.state then ok tt else out_of_fuel
run (suc fuel) m =
    let rest = (do m1 ← step m; run fuel m1) in if is_done m.state then ok tt else rest

unfoldable pub start : List ℕ → ℕ → Machine
start bytes max_length = record {
  buffer = record { bytes = bytes; position = 0; max_length = max_length; id_elem = none };
  frames = [];
  state = begin_obj;
  id_elem_start_pos = 0;
  id_elem = none;
}

-- Each turn reads a byte or pops a frame, and each frame was pushed by reading four bytes.
abbrev pub enough_fuel : ℕ → ℕ
enough_fuel max_length = 2 * max_length + 2

-- `validateBSON(originalBuffer, maxLength)`.
unfoldable pub validate_bson : List ℕ → ℕ → Outcome (Unit {0})
unfolding start
validate_bson bytes max_length =
    if ltb max_length 5
    then err (make_error too_short none)
    else run (enough_fuel max_length) (start bytes max_length)
