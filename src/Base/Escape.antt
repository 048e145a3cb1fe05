-- ===== src/Base/Escape.antt =====
-- url.QueryUnescape and strings.ToUpper.
use Prim.Native.Nat.{ℕ, ◌+◌, ◌-◌, ◌*◌}
use mathlib.Core.Path.{◌≡◌, refl}
use mathlib.Core.Bool.{Bool, true, ◌&&◌}
use mathlib.Core.Option.{Option, none, some}
use mathlib.Core.List.{[], ◌∷◌, map}
use dcos_log.Base.Tests.{◌==◌, ltb, leb, if◌then◌else◌}
use dcos_log.Base.ByteStrings.{Bytes, bytes}
use dcos_log.Base.Numbers.{digit}

-- A byte in front of what the rest of the text gives, if that is no error.
abbrev with_byte : ℕ → Option Bytes → Option Bytes
with_byte c none = none
with_byte c (some s) = some (c ∷ s)

abbrev escaped : Option ℕ → Option ℕ → Option Bytes → Option Bytes
escaped none low rest = none
escaped (some high) none rest = none
escaped (some high) (some low) rest = with_byte (high * 16 + low) rest

-- `%` takes two hexadecimal digits; `none` is the error for an escape that does not.
unfoldable pub query_unescape : Bytes → Option Bytes
unfolding digit
query_unescape [] = some []
query_unescape (c ∷ []) = if c == b'%' then none else some ((if c == b'+' then b' ' else c) ∷ [])
query_unescape (c ∷ (d ∷ [])) =
    if c == b'%' then none else with_byte (if c == b'+' then b' ' else c) (query_unescape (d ∷ []))
query_unescape (c ∷ (d ∷ (e ∷ s))) =
    let behind = query_unescape s in
    let next = query_unescape (d ∷ (e ∷ s)) in
    if c == b'%'
    then escaped (digit 16 d) (digit 16 e) behind
    else with_byte (if c == b'+' then b' ' else c) next

abbrev is_ascii : Bytes → Bool
is_ascii [] = true
is_ascii (c ∷ s) = ltb c 0x80 && is_ascii s

abbrev upper_byte : ℕ → ℕ
upper_byte c = if leb b'a' c && leb c b'z' then c - 32 else c

-- Text that is not ASCII goes by the tables of the package unicode, `unicode_upper`.
unfoldable pub to_upper : (Bytes → Bytes) → Bytes → Bytes
to_upper unicode_upper s = if is_ascii s then map upper_byte s else unicode_upper s

escape_tests :
    (query_unescape (bytes "s%3Dcea8%3bi+1") ≡ some (bytes "s=cea8;i 1"))
    × (query_unescape (bytes "a%3") ≡ none)
    × (to_upper (λ s. s) (bytes "unit_1") ≡ bytes "UNIT_1")
unfolding query_unescape to_upper
escape_tests = (refl, refl, refl)
