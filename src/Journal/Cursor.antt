-- ===== src/Journal/Cursor.antt =====
-- validateCursor of dcos-log/journal/reader/config.go, and what it accepts.
use dcos_log.Base.{
  ◌≡◌, refl, Bool, true, false, List, [], ◌∷◌, ltb, if◌then◌else◌, Bytes, bytes, bytes_eq, length,
  split, parse_uint, Option, none, some,
}

-- Whether a check returns nil; the only error is ErrCursorFormat.
abbrev pub is_some {ℓ} : {A : Type ℓ} → Option A → Bool
is_some none = false
is_some (some a) = true

-- A field of a cursor, `key=value`.
unfoldable pub parse_key_value : Bytes → Option (Bytes × Bytes)
unfolding split
parse_key_value s = elim (split s b'=') [
  | [] ↦ none
  | key ∷ rest ↦ elim rest [
    | [] ↦ none
    | value ∷ others ↦ elim others [ [] ↦ some (key, value) | _ ∷ _ ↦ none ]
  ]
]

unfoldable pub parse_hex_uint64 : Bytes → Bool
unfolding parse_uint
parse_hex_uint64 s = is_some (parse_uint 16 s)

-- The functions validateString and validateHexUint64 of a field and its key.
unfoldable pub validate_string : Bytes → Bytes → Bool
unfolding parse_key_value bytes_eq
validate_string s k = elim (parse_key_value s) [
  | none ↦ false
  | some (key, value) ↦
      if bytes_eq key k then (if ltb 33 (length value) then false else true) else false
]

unfoldable pub validate_hex_uint64 : Bytes → Bytes → Bool
unfolding parse_key_value bytes_eq parse_hex_uint64
validate_hex_uint64 s k = elim (parse_key_value s) [
  | none ↦ false
  | some (key, value) ↦ if bytes_eq key k then parse_hex_uint64 value else false
]

pub data FieldKind : Type 0 where
  string hex_uint64 : FieldKind

abbrev pub cursor_format : List (Bytes × FieldKind)
cursor_format =
    (bytes "s", string)
    ∷ (bytes "i", hex_uint64)
    ∷ (bytes "b", string)
    ∷ (bytes "m", hex_uint64)
    ∷ (bytes "t", hex_uint64)
    ∷ (bytes "x", hex_uint64)
    ∷ []

unfoldable pub validate_field : FieldKind → Bytes → Bytes → Bool
unfolding validate_string validate_hex_uint64
validate_field string s k = validate_string s k
validate_field hex_uint64 s k = validate_hex_uint64 s k

-- The fields against the format, which have the same number.
unfoldable pub validate_fields : List (Bytes × FieldKind) → List Bytes → Bool
unfolding validate_field
validate_fields [] [] = true
validate_fields [] (s ∷ ss) = false
validate_fields ((k, kind) ∷ format) [] = false
validate_fields ((k, kind) ∷ format) (s ∷ ss) =
    let rest = validate_fields format ss in if validate_field kind s k then rest else false

unfoldable pub validate_cursor : Bytes → Bool
unfolding validate_fields split
validate_cursor c = validate_fields cursor_format (split c b';')

cursor_tests :
    (validate_cursor (bytes "s=cea8;i=1;b=2c35;m=33ae8a1;t=53e52ec99a798;x=b3fe26128f768a49")
      ≡ true)
    × (validate_cursor (bytes "s=cea8;i=1;b=2c35;m=33ae8a1;t=53e52ec99a798") ≡ false)
    × (validate_cursor (bytes "s=cea8;i=g;b=2c35;m=33ae8a1;t=53e52ec99a798;x=1") ≡ false)
unfolding validate_cursor
cursor_tests = (refl, refl, refl)
