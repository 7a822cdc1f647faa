-- ===== src/Util/StringUtils/Tests.antt =====
-- Runs of src/mongo/util/stringutils.cpp.
use Prim.Native.Nat.{lt, gt}
use mongo_cxx_driver.Base.{opposite, ◌≡◌, ◌≢◌, refl, true, false, none, some, bytes}
use mongo_cxx_driver.Util.StringUtils.{split_string_delim, join_string_delim, cmp, version_cmp}
use mongo_cxx_driver.Util.StringUtils.Split.{some_has, join_string_delim-split_string_delim}
use mongo_cxx_driver.Util.StringUtils.Compare.{cmp-opposite}
use mongo_cxx_driver.Util.StringUtils.Versions.{version_cmp-opposite}

numbers_by_value : cmp (bytes "a.b10") (bytes "a.b9") false ≡ some gt
unfolding cmp
numbers_by_value = refl

numbers_by_text : cmp (bytes "a.b10") (bytes "a.b9") true ≡ some lt
unfolding cmp
numbers_by_text = refl

join_string_delim-split_string_delim_example :
    (join_string_delim (split_string_delim (bytes "a,,b") b',') b',' ≡ bytes "a,,b")
    × (some_has b',' (split_string_delim (bytes "a,,b") b',') ≡ false)
join_string_delim-split_string_delim_example =
    join_string_delim-split_string_delim (bytes "a,,b") b','

cmp-opposite_example :
    (cmp (bytes "x007") (bytes "x12") false ≢ none)
    × (cmp (bytes "x12") (bytes "x007") false ≡ opposite (cmp (bytes "x007") (bytes "x12") false))
cmp-opposite_example = cmp-opposite (bytes "x007") (bytes "x12") false

version_cmp-opposite_example :
    (version_cmp (bytes "1.2.3-") (bytes "1.2.3") ≢ none)
    × (version_cmp (bytes "1.2.3") (bytes "1.2.3-")
        ≡ opposite (version_cmp (bytes "1.2.3-") (bytes "1.2.3")))
version_cmp-opposite_example = version_cmp-opposite (bytes "1.2.3-") (bytes "1.2.3")
