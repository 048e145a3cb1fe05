-- ===== src/Tests/Times.antt =====
-- The time of a file at concrete inputs.
use dcos_log.Base.{◌≡◌, refl, ◌++◌, bytes, arith, none, some, format_uint, parse_uint}
use dcos_log.Mesos.FileTime.{unmarshal_json, trim_suffix}
use dcos_log.Mesos.FileTime.Laws.{unmarshal_json-format_uint}

unmarshal_json-format_uint_example :
    (unmarshal_json (format_uint 1479252365) ≡ some 1479252365)
    × (unmarshal_json (format_uint 1479252365 ++ bytes ".0") ≡ some 1479252365)
unmarshal_json-format_uint_example = unmarshal_json-format_uint 1479252365 (omega arith)

unmarshal_json_tests :
    (unmarshal_json (bytes "12.0") ≡ some 12) × (unmarshal_json (bytes "1.5") ≡ none)
unfolding unmarshal_json trim_suffix dcos_log.Base.bytes_eq parse_uint
unmarshal_json_tests = (refl, refl)
