-- ===== src/Mesos/Text.antt =====
-- []rune(s) and string(runes), and the function reverse of dcos-log/mesos/files/reader/read.go.
use mathlib.Core.List.{reverse}
use dcos_log.Base.{
  ℕ, zero, suc, ◌+◌, ◌-◌, ◌*◌, ◌/◌, ◌%◌, ◌<◌, ◌≡◌, refl, Bool, ◌&&◌, List, [], ◌∷◌, ◌++◌, arith,
  ltb, leb, ◌==◌, if◌then◌else◌, Bytes, All,
}

-- U+FFFD, which stands for a byte that is no part of a rune.
abbrev replacement : ℕ
replacement = 0xFFFD

abbrev is_continuation : ℕ → Bool
is_continuation c = leb 0x80 c && leb c 0xBF

-- The second bytes that may follow a first one.
abbrev second_of_3 : ℕ → ℕ → Bool
second_of_3 a b =
    leb (if a == 0xE0 then 0xA0 else 0x80) b && leb b (if a == 0xED then 0x9F else 0xBF)

abbrev second_of_4 : ℕ → ℕ → Bool
second_of_4 a b =
    leb (if a == 0xF0 then 0x90 else 0x80) b && leb b (if a == 0xF4 then 0x8F else 0xBF)

-- The rune at the head of a text, and how many bytes behind the first one it takes.
decode_2 : ℕ → ℕ → ℕ × ℕ
decode_2 a b =
    if leb 0xC2 a && leb a 0xDF && is_continuation b
    then ((a - 0xC0) * 64 + (b - 0x80), 1)
    else (replacement, 0)

decode_3 : ℕ → ℕ → ℕ → ℕ × ℕ
decode_3 a b c =
    if leb 0xE0 a && leb a 0xEF && second_of_3 a b && is_continuation c
    then ((a - 0xE0) * 4096 + (b - 0x80) * 64 + (c - 0x80), 2)
    else decode_2 a b

decode_4 : ℕ → ℕ → ℕ → ℕ → ℕ × ℕ
decode_4 a b c d =
    if leb 0xF0 a && leb a 0xF4 && second_of_4 a b && is_continuation c && is_continuation d
    then ((a - 0xF0) * 262144 + (b - 0x80) * 4096 + (c - 0x80) * 64 + (d - 0x80), 3)
    else decode_3 a b c

decode_multi : ℕ → Bytes → ℕ × ℕ
decode_multi a [] = (replacement, 0)
decode_multi a (b ∷ []) = decode_2 a b
decode_multi a (b ∷ (c ∷ [])) = decode_3 a b c
decode_multi a (b ∷ (c ∷ (d ∷ s))) = decode_4 a b c d

decode_rune : ℕ → Bytes → ℕ × ℕ
unfolding decode_multi decode_4 decode_3 decode_2
decode_rune a s = if ltb a 0x80 then (a, 0) else decode_multi a s

-- The runes of a text, its first `pending` bytes being read already.
runes_behind : ℕ → Bytes → List ℕ
runes_behind pending [] = []
runes_behind (suc pending) (a ∷ s) = runes_behind pending s
runes_behind zero (a ∷ s) = let (r, more) = decode_rune a s in r ∷ runes_behind more s

unfoldable pub runes : Bytes → List ℕ
unfolding runes_behind decode_rune
runes s = runes_behind 0 s

-- The runes that `runes` yields are all valid, so no other case arises.
encode_rune : ℕ → Bytes
encode_rune r =
    if ltb r 0x80
    then r ∷ []
    else if ltb r 0x800
    then (0xC0 + r / 64) ∷ (0x80 + r % 64) ∷ []
    else if ltb r 0x10000
    then (0xE0 + r / 4096) ∷ (0x80 + r / 64 % 64) ∷ (0x80 + r % 64) ∷ []
    else (0xF0 + r / 262144) ∷ (0x80 + r / 4096 % 64) ∷ (0x80 + r / 64 % 64) ∷ (0x80 + r % 64) ∷ []

unfoldable pub from_runes : List ℕ → Bytes
unfolding encode_rune
from_runes [] = []
from_runes (r ∷ rs) = encode_rune r ++ from_runes rs

-- The loop that swaps from both ends leaves the runes in reverse order.
unfoldable pub reverse_text : Bytes → Bytes
unfolding runes from_runes
reverse_text s = from_runes (reverse (runes s))

abbrev pub IsAscii : Bytes → Type 0
IsAscii = All (λ c. c < 0x80)

runes_behind-ascii : (s : Bytes) → IsAscii s → runes_behind 0 s ≡ s
unfolding runes_behind decode_rune
runes_behind-ascii [] h = refl
runes_behind-ascii (c ∷ s) (h, hs) = ground (arith, runes_behind-ascii s hs)

pub runes-ascii : (s : Bytes) → IsAscii s → runes s ≡ s
unfolding runes
runes-ascii s h = runes_behind-ascii s h

pub from_runes-ascii : (s : Bytes) → IsAscii s → from_runes s ≡ s
unfolding from_runes
from_runes-ascii [] h = refl
from_runes-ascii (c ∷ s) (h, hs) = ground (arith, from_runes-ascii s hs)
