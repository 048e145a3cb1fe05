-- ===== src/Mesos/FileTime.antt =====
-- The time of a file in an answer of the files API: mTime of dcos-log/mesos/files/reader/read.go.
pub mod Laws
use dcos_log.Base.{
  ◌-◌, leb, ◌&&◌, if◌then◌else◌, Bytes, bytes, bytes_eq, length, take, drop, parse_uint, Option, ℕ,
}

-- bytes.TrimSuffix
unfoldable pub trim_suffix : Bytes → Bytes → Bytes
unfolding bytes_eq
trim_suffix s suffix =
    let n = length s - length suffix in
    if leb (length suffix) (length s) && bytes_eq (drop n s) suffix then take n s else s

-- UnmarshalJSON; `none` is an error of the number.
unfoldable pub unmarshal_json : Bytes → Option ℕ
unfolding trim_suffix parse_uint
unmarshal_json text = parse_uint 10 (trim_suffix text (bytes ".0"))
