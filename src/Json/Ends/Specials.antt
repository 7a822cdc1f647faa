-- ===== src/Json/Ends/Specials.antt =====
-- The special objects of src/mongo/db/json.cpp end inside the input.
use mongo_cxx_driver.Base.{
  ℕ, ◌==◌, ◌%◌, Bool, true, false, ◌&&◌, Option, none, some, List, [], length, bytes,
}
use mongo_cxx_driver.Base.Int.{ℤ, pos}
use mongo_cxx_driver.Net.HostAndPort.{text_eq}
use mongo_cxx_driver.Number.Parse.{Parsed, ok, err, parse_number}
use mongo_cxx_driver.Encoding.Base64.{decode}
use mongo_cxx_driver.Json.Syntax.{min_key, max_key}
use mongo_cxx_driver.Json.Token.{peek_token, is_hex_string}
use mongo_cxx_driver.Json.Scalar.{Callees, StaysInside}
use mongo_cxx_driver.Json.Scalar.Special.{
  long_limits, of_parsed, quoted_long, object_id_object, is_base64_string, of_decoded,
  binary_object, undefined_object, min_key_object, max_key_object, regex_options_of, regex_object,
  of_date, long_millis, unquoted_date, date_value, date_object, timestamp_object,
  number_long_object,
}
use mongo_cxx_driver.Json.Ends.{
  all_left, fails, throws, Runs, bind-Runs, pure-Runs, require-Runs, if-Runs,
}
use mongo_cxx_driver.Json.Ends.Leaves.{
  read_token-Runs, expect-Runs, quoted_string-Runs, field_name-Runs, expect_field-Runs,
}
use mongo_cxx_driver.Json.Ends.Scalars.{
  append-Runs, append_regex-Runs, append_object_id-Runs, regex_opt_check-Runs, milliseconds-Runs,
  timestamp_part-Runs, append_number-Runs,
}

module _ {n : ℕ} where
  of_parsed-Runs : (r : Parsed ℤ) → Runs n (of_parsed r)
  of_parsed-Runs (ok z) = pure-Runs
  of_parsed-Runs (err reason) = record { run = λ input l. fails (all_left input) }

  pub quoted_long-Runs : Runs n quoted_long
  unfolding quoted_long
  quoted_long-Runs =
      bind-Runs quoted_string-Runs (λ s. of_parsed-Runs (parse_number long_limits s (pos 0)))

  pub object_id_object-Runs : (name : List ℕ) → Runs n (object_id_object name)
  unfolding object_id_object
  object_id_object-Runs name =
      bind-Runs (bind-Runs (expect-Runs ":" _) (λ u. quoted_string-Runs))
        (λ id. append_object_id-Runs name id)

  of_decoded-Runs : (o : Option (List ℕ)) → Runs n (of_decoded o)
  of_decoded-Runs none = record { run = λ input l. throws }
  of_decoded-Runs (some decoded) = pure-Runs

  pub binary_object-Runs : (name : List ℕ) → Runs n (binary_object name)
  unfolding binary_object
  binary_object-Runs name = bind-Runs (expect-Runs ":" _) (λ u. bind-Runs quoted_string-Runs (λ s.
      bind-Runs (require-Runs (length s % 4 == 0) _ _) (λ u.
        bind-Runs (require-Runs (is_base64_string s) _ _) (λ u.
          bind-Runs (of_decoded-Runs (decode s)) (λ decoded. bind-Runs (expect-Runs "," _) (λ u.
            bind-Runs (expect_field-Runs "$type" _) (λ u. bind-Runs (expect-Runs ":" _) (λ u.
              bind-Runs quoted_string-Runs (λ t.
                bind-Runs (require-Runs (length t == 2 && is_hex_string t) _ _)
                  (λ u. append-Runs name _))))))))))

  pub undefined_object-Runs : (name : List ℕ) → Runs n (undefined_object name)
  unfolding undefined_object
  undefined_object-Runs name =
      bind-Runs (expect-Runs ":" _) (λ u. bind-Runs (expect-Runs "true" _) (λ u. pure-Runs))

  pub min_key_object-Runs : (name : List ℕ) → Runs n (min_key_object name)
  unfolding min_key_object
  min_key_object-Runs name =
      bind-Runs (expect-Runs ":" _)
        (λ u. bind-Runs (expect-Runs "1" _) (λ u. append-Runs name min_key))

  pub max_key_object-Runs : (name : List ℕ) → Runs n (max_key_object name)
  unfolding max_key_object
  max_key_object-Runs name =
      bind-Runs (expect-Runs ":" _)
        (λ u. bind-Runs (expect-Runs "1" _) (λ u. append-Runs name max_key))

  regex_options_of-Runs :
      (name pat : List ℕ) (more : Bool) → Runs n (regex_options_of name pat more)
  regex_options_of-Runs name pat false = append_regex-Runs name pat []
  regex_options_of-Runs name pat true = bind-Runs (expect_field-Runs "$options" _) (λ u.
      bind-Runs (expect-Runs ":" _) (λ u.
        bind-Runs quoted_string-Runs
          (λ opt. bind-Runs (regex_opt_check-Runs opt) (λ u. append_regex-Runs name pat opt))))

  pub regex_object-Runs : (name : List ℕ) → Runs n (regex_object name)
  unfolding regex_object
  regex_object-Runs name = bind-Runs (expect-Runs ":" _) (λ u.
      bind-Runs quoted_string-Runs
        (λ pat. bind-Runs (read_token-Runs ",") (λ more. regex_options_of-Runs name pat more)))

  of_date-Runs : (o : Option ℕ) → Runs n (of_date o)
  of_date-Runs none = record { run = λ input l. fails (all_left input) }
  of_date-Runs (some millis) = pure-Runs

  module _ (callees : Callees) (bounded : StaysInside callees) where
    long_millis-Runs : Runs n (long_millis callees)
    long_millis-Runs = bind-Runs field_name-Runs (λ found.
        bind-Runs (require-Runs (text_eq found (bytes "$numberLong")) _ _)
          (λ u. bind-Runs (expect-Runs ":" _) (λ u. bind-Runs quoted_long-Runs (λ z. pure-Runs))))

    unquoted_date-Runs : (b : Bool) → Runs n (unquoted_date callees b)
    unquoted_date-Runs true = long_millis-Runs
    unquoted_date-Runs false = milliseconds-Runs callees bounded

    date_value-Runs : Runs n (date_value callees)
    date_value-Runs =
        if-Runs (peek_token "\"")
          (bind-Runs quoted_string-Runs (λ s. of_date-Runs (callees.date_from_iso s)))
          (bind-Runs (read_token-Runs "{") unquoted_date-Runs)

    pub date_object-Runs : (name : List ℕ) → Runs n (date_object callees name)
    unfolding date_object
    date_object-Runs name =
        bind-Runs (expect-Runs ":" _)
          (λ u. bind-Runs date_value-Runs (λ millis. append-Runs name _))

    pub timestamp_object-Runs : (name : List ℕ) → Runs n (timestamp_object callees name)
    unfolding timestamp_object
    timestamp_object-Runs name = bind-Runs (expect-Runs ":" _) (λ u.
        bind-Runs (expect-Runs "{" _) (λ u. bind-Runs (expect_field-Runs "t" _) (λ u.
          bind-Runs (expect-Runs ":" _) (λ u.
            bind-Runs (timestamp_part-Runs callees bounded _ _ _) (λ seconds.
              bind-Runs (expect-Runs "," _) (λ u. bind-Runs (expect_field-Runs "i" _) (λ u.
                bind-Runs (expect-Runs ":" _) (λ u.
                  bind-Runs (timestamp_part-Runs callees bounded _ _ _)
                    (λ count. bind-Runs (expect-Runs "}" _) (λ u. append-Runs name _))))))))))

    pub number_long_object-Runs : (name : List ℕ) → Runs n (number_long_object callees name)
    unfolding number_long_object
    number_long_object-Runs name =
        bind-Runs (bind-Runs (expect-Runs ":" _) (λ u. quoted_long-Runs))
          (λ z. append_number-Runs callees bounded name z)
