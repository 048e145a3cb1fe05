-- ===== src/Journal/CursorLaws.antt =====
-- What validateCursor of dcos-log/journal/reader/config.go accepts.
use dcos_log.Base.{
  ℕ, ◌≤◌, ◌≡◌, refl, ap, sym, ◌∙◌, ◌≢◌, ◌↔◌, true, List, [], ◌∷◌, ◌++◌, arith, Bytes, bytes_eq_iff,
  bytes_eq_refl, length, split, join, split-join, join-split, split-Lacks, split_front,
  split_lacking, All, Lacks, parse_uint, some, inl, inr, Option-cases, subst,
}
use dcos_log.Journal.Cursor.{
  FieldKind, string, hex_uint64, parse_key_value, parse_hex_uint64, validate_field, validate_fields,
  validate_cursor, cursor_format,
}

-- The value that a field of the format may have.
abbrev pub IsValue : FieldKind → Bytes → Type 0
IsValue string v = length v ≤ 33
IsValue hex_uint64 v = (n : ℕ) × (parse_uint 16 v ≡ some n)

abbrev pub IsField : FieldKind → Bytes → Bytes → Type 0
IsField kind k s = (v : Bytes) × (s ≡ k ++ (b'=' ∷ v)) × Lacks b'=' v × IsValue kind v

abbrev pub AreFields : List (Bytes × FieldKind) → List Bytes → Type 0
AreFields [] [] = Unit
AreFields [] (s ∷ ss) = ⊥
AreFields ((k, kind) ∷ format) [] = ⊥
AreFields ((k, kind) ∷ format) (s ∷ ss) = IsField kind k s × AreFields format ss

abbrev AreKeys : List (Bytes × FieldKind) → Type 0
AreKeys = All (λ f. Lacks b'=' f.0)

parse_key_value_sound :
    (s k v : Bytes) → parse_key_value s ≡ some (k, v) → (s ≡ k ++ (b'=' ∷ v)) × Lacks b'=' v
unfolding parse_key_value join
parse_key_value_sound s k v h = go (split s b'=') refl
  where
    go : (ps : List Bytes) → split s b'=' ≡ ps → (s ≡ k ++ (b'=' ∷ v)) × Lacks b'=' v
    go [] e = absurd (ground arith)
    go (p ∷ []) e = absurd (ground arith)
    go (p ∷ (q ∷ [])) e =
        let key : p ≡ k = ground arith in
        let value : q ≡ v = ground arith in
        let lacking = (subst (All (Lacks b'=')) e (split-Lacks s b'=')).1.0 in
        (
          sym (join-split s b'=') ∙ ap (λ t. join t b'=') e ∙ (λ i. key i ++ (b'=' ∷ value i)),
          subst (Lacks b'=') value lacking,
        )
    go (p ∷ (q ∷ (r ∷ rs))) e = absurd (ground arith)

parse_key_value_complete :
    (k v : Bytes) → Lacks b'=' k → Lacks b'=' v → parse_key_value (k ++ (b'=' ∷ v)) ≡ some (k, v)
unfolding parse_key_value
parse_key_value_complete k v hk hv =
    rw (split_front b'=' k v hk ∙ ap (λ t. k ∷ t) (split_lacking b'=' v hv), parse_key_value) refl

hex_iff : (v : Bytes) → (parse_hex_uint64 v ≡ true) ↔ IsValue hex_uint64 v
unfolding parse_hex_uint64
hex_iff v = (
  λ h. elim (Option-cases (parse_uint 16 v)) [
    | inl bad ↦ absurd (ground arith)
    | inr (n, read) ↦ (n, read)
  ],
  λ (n, read). ground arith,
)

IsField-sound : (kind : FieldKind) (k s : Bytes) → validate_field kind s k ≡ true → IsField kind k s
unfolding validate_field
IsField-sound string k s h = elim (Option-cases (parse_key_value s)) [
  | inl bad ↦ absurd (ground arith)
  | inr (kv, read) ↦
      let (e, lacking) = parse_key_value_sound s kv.0 kv.1 read in
      let same = (bytes_eq_iff kv.0 k).0 (ground arith) in
      (kv.1, e ∙ ap (λ t. t ++ (b'=' ∷ kv.1)) same, lacking, ground arith)
]
IsField-sound hex_uint64 k s h = elim (Option-cases (parse_key_value s)) [
  | inl bad ↦ absurd (ground arith)
  | inr (kv, read) ↦
      let (e, lacking) = parse_key_value_sound s kv.0 kv.1 read in
      let same = (bytes_eq_iff kv.0 k).0 (ground arith) in
      (kv.1, e ∙ ap (λ t. t ++ (b'=' ∷ kv.1)) same, lacking, (hex_iff kv.1).0 (ground arith))
]

field_complete :
    (kind : FieldKind) (k s : Bytes)
    → Lacks b'=' k
    → IsField kind k s
    → validate_field kind s k ≡ true
unfolding validate_field
field_complete string k s hk (v, e, lacking, value) =
    let read = ap parse_key_value e ∙ parse_key_value_complete k v hk lacking in
    ground (arith, bytes_eq_refl k)
field_complete hex_uint64 k s hk (v, e, lacking, value) =
    let read = ap parse_key_value e ∙ parse_key_value_complete k v hk lacking in
    let hex = (hex_iff v).1 value in ground (arith, bytes_eq_refl k)

fields_iff :
    (format : List (Bytes × FieldKind)) (ss : List Bytes)
    → AreKeys format
    → (validate_fields format ss ≡ true) ↔ AreFields format ss
unfolding validate_fields
fields_iff [] [] keys = (λ h. tt, λ h. refl)
fields_iff [] (s ∷ ss) keys = (λ h. cc, λ h. absurd h)
fields_iff ((k, kind) ∷ format) [] keys = (λ h. cc, λ h. absurd h)
fields_iff ((k, kind) ∷ format) (s ∷ ss) (key, keys) = (
  λ h. (IsField-sound kind k s (ground arith), (fields_iff format ss keys).0 (ground arith)),
  λ (h, hs).
      let here = field_complete kind k s key h in
      let later = (fields_iff format ss keys).1 hs in ground arith,
)

-- A cursor is accepted exactly if it is six fields between semicolons, `s=`, `i=`, `b=`, `m=`, `t=` and
-- `x=` in this order, none holding another `=` or `;`: the values of `s` and `b` have at most 33 bytes,
-- and the other values are hexadecimal numbers of 64 bits.
pub validate_cursor_iff :
    (c : Bytes)
    → (validate_cursor c ≡ true)
      ↔ ((ss : List Bytes) × (c ≡ join ss b';') × All (Lacks b';') ss × AreFields cursor_format ss)
unfolding validate_cursor
validate_cursor_iff c = (
  λ h. (
    split c b';',
    sym (join-split c b';'),
    split-Lacks c b';',
    (fields_iff cursor_format (split c b';') (omega arith)).0 h,
  ),
  λ (ss, e, lacking, fields).
      let cut = ap (λ t. split t b';') e ∙ split-join ss b';' (six ss fields) lacking in
      (ap (validate_fields cursor_format) cut)
      ∙ (fields_iff cursor_format ss (omega arith)).1 fields,
)
  where
    six : (ss : List Bytes) → AreFields cursor_format ss → ss ≢ []
    six [] fields = absurd fields
    six (s ∷ ss) fields = cc
