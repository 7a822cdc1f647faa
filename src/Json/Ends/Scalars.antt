-- ===== src/Json/Ends/Scalars.antt =====
-- The values without parts of src/mongo/db/json.cpp end inside the input.
use Prim.Native.String.{String}
use mongo_cxx_driver.Base.{
  ℕ, ◌^◌, ◌-◌, not, ◌&&◌, none, some, List, [], ◌∷◌, length, ◌==◌, drop, bytes, ◌≤◌, Bool-cases,
  inl, inr,
}
use mongo_cxx_driver.Base.Int.{ℤ, pos, negsuc, ltb_ℤ}
use mongo_cxx_driver.Json.Syntax.{Value, Fields, int32, int64, double}
use mongo_cxx_driver.Json.Result.{Input, Result, move_input, pure, ◌>>=◌, ◌>>◌}
use mongo_cxx_driver.Json.Token.{is_hex_string, match_set}
use mongo_cxx_driver.Json.Scalar.{
  Scan, Callees, StaysInside, append, append_regex, has_nul, check_field_name, append_object_id,
  object_id_call, regex_options, regex_opt_check, regex_literal, integer_by, milliseconds,
  date_call, ignore_status, constructor_call, timestamp_part, timestamp_call, append_number,
  number_long_call, number_int_call, not_at_end, number,
}
use mongo_cxx_driver.Json.Ends.{
  all_left, Ends, Ends_from, Runs, bind-Runs, pure-Runs, require-Runs, assert-Runs, choose-Runs,
  if-Ends, move_input-inside, drop-IsRest, returns, fails, throws,
}
use mongo_cxx_driver.Json.Ends.Leaves.{read_token-Runs, expect-Runs, chars-Runs, quoted_string-Runs}

regex_opt_check-Ends : (opt : List ℕ) (input : Input) → Ends input (regex_opt_check opt input)
unfolding regex_opt_check
regex_opt_check-Ends [] input = returns (all_left input)
regex_opt_check-Ends (c ∷ cs) input =
    if-Ends (match_set c regex_options) (regex_opt_check-Ends cs input) (fails ((all_left input)))

ignore_status-Ends :
    (callees : Callees) {input : Input} {r : Result Fields}
    → Ends input r
    → Ends input (ignore_status callees r)
ignore_status-Ends callees (returns h) = returns h
ignore_status-Ends callees (fails h) = returns h
ignore_status-Ends callees throws = throws

pub moved-Ends {ℓ} :
    {A : Type ℓ} (a : A) (k : ℕ) (input : Input)
    → k ≤ length input
    → Ends input ((move_input k >> pure a) input)
moved-Ends a k input h = rw (move_input-inside k input h) (returns (drop-IsRest k input))

not_at_end-Ends : (callees : Callees) (input : Input) → Ends input (not_at_end callees input)
not_at_end-Ends callees [] = fails (all_left [])
not_at_end-Ends callees (c ∷ rest) = returns (all_left (c ∷ rest))

trailing-Ends :
    (callees : Callees) (fs : Fields) (input : Input)
    → Ends input ((not_at_end callees >> pure fs) input)
trailing-Ends callees fs [] = fails (all_left [])
trailing-Ends callees fs (c ∷ rest) = returns (all_left (c ∷ rest))

-- What `number` does with a number that was read.
number_left-Ends :
    (callees : Callees) (name : List ℕ) (k : ℕ) (v : Value) (input : Input)
    → k ≤ length input
    → Ends input ((append name v >>= λ fs. move_input k >> not_at_end callees >> pure fs) input)
number_left-Ends callees name k v input h = elim (Bool-cases (has_nul name)) [
  | inl e ↦ rw e throws
  | inr e ↦
      rw (e, move_input-inside k input h)
        (Ends_from (drop-IsRest k input) (trailing-Ends callees _ (drop k input)))
]

module _ {n : ℕ} where
  pub check_field_name-Runs : (name : List ℕ) → Runs n (check_field_name name)
  check_field_name-Runs name =
      assert-Runs (not (has_nul name)) "field name cannot contain null bytes"

  pub append-Runs : (name : List ℕ) (v : Value) → Runs n (append name v)
  append-Runs name v = bind-Runs (check_field_name-Runs name) (λ u. pure-Runs)

  pub append_regex-Runs : (name pat opt : List ℕ) → Runs n (append_regex name pat opt)
  append_regex-Runs name pat opt = bind-Runs (check_field_name-Runs name) (λ u.
      bind-Runs (assert-Runs (not (has_nul pat)) "regex cannot contain null bytes")
        (λ u. pure-Runs))

  pub append_object_id-Runs : (name id : List ℕ) → Runs n (append_object_id name id)
  unfolding append_object_id
  append_object_id-Runs name id =
      bind-Runs (require-Runs (length id == 24) _ id)
        (λ u. bind-Runs (require-Runs (is_hex_string id) _ id) (λ u. append-Runs name _))

  pub object_id_call-Runs : (name : List ℕ) → Runs n (object_id_call name)
  unfolding object_id_call
  object_id_call-Runs name = bind-Runs (expect-Runs "(" _) (λ u.
      bind-Runs quoted_string-Runs
        (λ id. bind-Runs (expect-Runs ")" _) (λ u. append_object_id-Runs name id)))

  pub regex_opt_check-Runs : (opt : List ℕ) → Runs n (regex_opt_check opt)
  regex_opt_check-Runs opt = record { run = λ input l. regex_opt_check-Ends opt input }

  pub regex_literal-Runs : (name : List ℕ) → Runs n (regex_literal name)
  unfolding regex_literal
  regex_literal-Runs name = bind-Runs (expect-Runs "/" _) (λ u.
      bind-Runs (chars-Runs (bytes "/") none) (λ pat. bind-Runs (expect-Runs "/" _) (λ u.
        bind-Runs (chars-Runs [] (some regex_options))
          (λ opt. bind-Runs (regex_opt_check-Runs opt) (λ u. append_regex-Runs name pat opt)))))

  pub integer_by-Runs :
      (scan : List ℕ → Scan) (too_far nothing : String)
      → ((s : List ℕ) → (scan s).consumed ≤ length s)
      → Runs n (integer_by scan too_far nothing)
  unfolding integer_by
  integer_by-Runs scan too_far nothing inside = record {
    run = λ input l. if-Ends (scan input).out_of_range (fails (all_left input)) (
        if-Ends ((scan input).consumed == 0) (fails (all_left input))
          (moved-Ends (scan input).value (scan input).consumed input (inside input)));
  }

  module _ (callees : Callees) (bounded : StaysInside callees) where
    pub milliseconds-Runs : Runs n (milliseconds callees)
    unfolding milliseconds
    milliseconds-Runs = record {
      run = λ input l. if-Ends ((callees.strtoll input).consumed == 0) (fails (all_left input)) (
          if-Ends (not (callees.strtoll input).out_of_range)
            (moved-Ends _ (callees.strtoll input).consumed input (bounded.strtoll input))
            (if-Ends (callees.strtoull input).out_of_range (fails (all_left input))
              (moved-Ends _ (callees.strtoull input).consumed input (bounded.strtoull input))));
    }

    pub date_call-Runs : (name : List ℕ) → Runs n (date_call callees name)
    unfolding date_call
    date_call-Runs name = bind-Runs (expect-Runs "(" _) (λ u.
        bind-Runs milliseconds-Runs
          (λ millis. bind-Runs (expect-Runs ")" _) (λ u. append-Runs name _)))

    pub constructor_call-Runs : (name : List ℕ) → Runs n (constructor_call callees name)
    unfolding constructor_call
    constructor_call-Runs name = bind-Runs (expect-Runs "Date" _) (λ u. record {
      run = λ input l. ignore_status-Ends callees ((date_call-Runs name).run input l);
    })

    pub timestamp_part-Runs :
        (negative too_far nothing : String)
        → Runs n (timestamp_part callees negative too_far nothing)
    unfolding timestamp_part
    timestamp_part-Runs negative too_far nothing = bind-Runs (read_token-Runs "-") (λ minus.
        bind-Runs (require-Runs (not minus) _ _)
          (λ u. bind-Runs (integer_by-Runs callees.strtoul _ _ bounded.strtoul) (λ z. pure-Runs)))

    pub timestamp_call-Runs : (name : List ℕ) → Runs n (timestamp_call callees name)
    unfolding timestamp_call
    timestamp_call-Runs name = bind-Runs (expect-Runs "(" _) (λ u.
        bind-Runs (timestamp_part-Runs _ _ _) (λ seconds. bind-Runs (expect-Runs "," _) (λ u.
          bind-Runs (timestamp_part-Runs _ _ _)
            (λ count. bind-Runs (expect-Runs ")" _) (λ u. append-Runs name _)))))

    pub append_number-Runs : (name : List ℕ) (z : ℤ) → Runs n (append_number callees name z)
    unfolding append_number
    append_number-Runs name z =
        choose-Runs (ltb_ℤ (negsuc (2 ^ 30 - 1)) z && ltb_ℤ z (pos (2 ^ 30)))
          (append-Runs name (int32 z))
          (choose-Runs (ltb_ℤ (negsuc (2 ^ 40 - 1)) z && ltb_ℤ z (pos (2 ^ 40)))
            (append-Runs name (double (callees.double_of z))) (append-Runs name (int64 z)))

    pub number_long_call-Runs : (name : List ℕ) → Runs n (number_long_call callees name)
    unfolding number_long_call
    number_long_call-Runs name = bind-Runs (expect-Runs "(" _) (λ u.
        bind-Runs (integer_by-Runs callees.strtoll _ _ bounded.strtoll)
          (λ z. bind-Runs (expect-Runs ")" _) (λ u. append_number-Runs name z)))

    pub number_int_call-Runs : (name : List ℕ) → Runs n (number_int_call callees name)
    unfolding number_int_call
    number_int_call-Runs name = bind-Runs (expect-Runs "(" _) (λ u.
        bind-Runs (integer_by-Runs callees.strtol _ _ bounded.strtol)
          (λ z. bind-Runs (expect-Runs ")" _) (λ u. append-Runs name _)))

    pub number-Runs : (name : List ℕ) → Runs n (number callees name)
    unfolding number
    number-Runs name = record {
      run = λ input l. if-Ends ((callees.strtod input).0 == 0) (fails (all_left input)) (
          if-Ends (callees.strtod input).1.1 (fails (all_left input)) (
            number_left-Ends callees name (callees.strtod input).0 _ input (bounded.strtod input)));
    }
