-- ===== src/Bson/Validate/Tests.antt =====
-- Tests of the validator, src/mongo/bson/bson_validate.cpp.
use mongo_cxx_driver.Base.{ℕ, ◌≡◌, refl, some, List, [], ◌∷◌}
use mongo_cxx_driver.Bson.Validate.{
  ok, err, make_error, invalid_bson, read_int, load32, load8, read_char, read_c_string, memchr,
  read_utf8_string, skip, skip_or,
}
use mongo_cxx_driver.Bson.Validate.Element.{db_ref, validate_element_info, element_value}
use mongo_cxx_driver.Bson.Validate.Machine.{
  validate_bson, run, step, begin_object, push_frame, within_object, note_id_elem, mark_id_elem,
  is_id_name, end_object, actual_length, is_code_with_scope, set_start_position, start,
  start_position,
}

-- `{a: {b: null}}`, then a byte that is not the document's.
abbrev nested : List ℕ
nested = 16 ∷ 0 ∷ 0 ∷ 0 ∷ 3 ∷ 97 ∷ 0 ∷ 8 ∷ 0 ∷ 0 ∷ 0 ∷ 10 ∷ 98 ∷ 0 ∷ 0 ∷ 0 ∷ 255 ∷ []

nested-accepted : validate_bson nested 17 ≡ ok tt
unfolding validate_bson run step begin_object push_frame read_int load32 within_object
    validate_element_info read_char note_id_elem read_c_string memchr element_value mark_id_elem
    is_id_name end_object actual_length is_code_with_scope set_start_position start start_position
    load8 read_utf8_string skip skip_or
nested-accepted = refl

-- An `_id` of type DBRef that ends with its text is skipped past the end, and then named in the error.
short_db_ref :
    validate_bson (14 ∷ 0 ∷ 0 ∷ 0 ∷ 12 ∷ 95 ∷ 105 ∷ 100 ∷ 0 ∷ 1 ∷ 0 ∷ 0 ∷ 0 ∷ 0 ∷ []) 14
    ≡ err (make_error invalid_bson (some 4))
unfolding validate_bson run step begin_object push_frame read_int load32 within_object
    validate_element_info read_char note_id_elem read_c_string memchr element_value mark_id_elem
    is_id_name end_object actual_length is_code_with_scope set_start_position start start_position
    load8 read_utf8_string skip skip_or db_ref
short_db_ref = refl
