-- ===== src/Api/V2/Asking.antt =====
-- What the parameters of a request for the files API do to a reader: optCursor, optSkip and optLimit of
-- dcos-log/api/v2/handlers.go with the options of dcos-log/mesos/files/reader/option.go.
use dcos_log.Base.{
  ℕ, zero, suc, ◌<◌, ◌^◌, ◌≡◌, refl, ap, sym, ◌∙◌, ◌⊎◌, >>=-eq-ok, inl, inr, false, Bool-cases,
  List, [], ◌∷◌, ◌++◌, map, arith, Bytes, bytes, bytes_eq, eq_of_bytes_eq, is_empty, ℤ, pos, atoi,
  parse_uint, itoa, atoi-itoa, Option, none, some, Result, ok,
}
use dcos_log.Mesos.Types.{Error, ReadManager}
use dcos_log.Mesos.Options.{ReadOption, opt_offset, opt_skip, opt_lines}
use dcos_log.Mesos.Setup.{apply_options}
use dcos_log.Api.Types.{HttpRequest, get}
use dcos_log.Api.V2.Params.{opt_cursor, opt_skip_param, opt_limit, build_opts, last_event_id_header}

-- The options turn the one reader into the other.
abbrev pub Makes : List ReadOption → ReadManager → ReadManager → Type 0
Makes os rm rm' = apply_options (map (λ o. some o) os) rm ≡ ok rm'

pub Makes-append :
    (xs ys : List ReadOption) (rm rm' rm'' : ReadManager)
    → Makes xs rm rm'
    → Makes ys rm' rm''
    → Makes (xs ++ ys) rm rm''
unfolding apply_options
Makes-append [] ys rm rm' rm'' h k = ap (apply_options (map (λ o. some o) ys)) (same h) ∙ k
  where
    same : ◌≡◌ {A = Result Error ReadManager} (ok rm) (ok rm') → rm ≡ rm'
    same e = cc
Makes-append (x ∷ xs) ys rm rm' rm'' h k =
    let (r, first, rest) = >>=-eq-ok (x rm) _ h in rw first (Makes-append xs ys r rm' rm'' rest k)

pub filled : (s : Bytes) (z : ℤ) → atoi s ≡ some z → is_empty s ≡ false
unfolding atoi
filled [] z h = cc
filled (c ∷ s) z h = refl

no_word : (s t : Bytes) (z : ℤ) → atoi t ≡ none → atoi s ≡ some z → bytes_eq s t ≡ false
no_word s t z word h = elim (Bool-cases (bytes_eq s t)) [
  | inl same ↦ absurd (ground (arith, eq_of_bytes_eq s t same))
  | inr other ↦ other
]

words : (atoi (bytes "BEG") ≡ none) × (atoi (bytes "END") ≡ none)
unfolding atoi parse_uint
words = (refl, refl)

pub opt_cursor_lem :
    (s : Bytes) (e : ℕ) → atoi s ≡ some (pos e) → opt_cursor s ≡ ok (opt_offset (pos e) ∷ [])
unfolding opt_cursor
opt_cursor_lem s e h =
    let some_text = filled s (pos e) h in
    let no_beg = no_word s (bytes "BEG") (pos e) words.0 h in
    let no_end = no_word s (bytes "END") (pos e) words.1 h in ground arith

pub opt_offset-Makes :
    (e : ℕ) (rm : ReadManager) → Makes (opt_offset (pos e) ∷ []) rm (record rm { offset = pos e })
unfolding apply_options opt_offset
opt_offset-Makes e rm = refl

-- No cursor, or the one for the start of the file.
abbrev pub IsStart : Bytes → Type 0
IsStart s = (s ≡ []) ⊎ (s ≡ bytes "BEG")

pub opt_cursor-start :
    (s : Bytes)
    → IsStart s
    → (os : List ReadOption) × (opt_cursor s ≡ ok os)
      × ((rm : ReadManager) → rm.offset ≡ pos 0 → Makes os rm rm)
unfolding opt_cursor apply_options opt_offset bytes_eq
opt_cursor-start s (inl none_there) = ([], rw none_there refl, λ rm at. refl)
opt_cursor-start s (inr there) =
    (opt_offset (pos 0) ∷ [], rw there refl, λ rm at. (λ i. ok (record rm { offset = sym at i })))

-- The parameter says to pass over `k` lines; without it none are.
abbrev pub Skipping : Bytes → ℕ → Type 0
Skipping s k = ((s ≡ []) × (k ≡ 0)) ⊎ ((s ≡ itoa (pos k)) × (k < 2 ^ 63))

pub opt_skip_param-Skipping :
    (s : Bytes) (k : ℕ)
    → Skipping s k
    → (os : List ReadOption) × (opt_skip_param s ≡ ok os)
      × ((rm : ReadManager) → rm.skip ≡ pos 0 → Makes os rm (record rm { skip = pos k }))
unfolding opt_skip_param apply_options opt_skip
opt_skip_param-Skipping s k (inl (none_there, zero_lines)) = (
  [],
  rw none_there refl,
  λ rm at. (λ i. ok (record rm { skip = (at ∙ ap pos (sym zero_lines)) i })),
)
opt_skip_param-Skipping s zero (inr (there, fits)) =
    let number = ap atoi there ∙ atoi-itoa 0 fits in
    let some_text = filled s (pos 0) number in
    ([], ground arith, λ rm at. (λ i. ok (record rm { skip = at i })))
opt_skip_param-Skipping s (suc k) (inr (there, fits)) =
    let number = ap atoi there ∙ atoi-itoa (suc k) fits in
    let some_text = filled s (pos (suc k)) number in
    (opt_skip (pos (suc k)) ∷ [], ground arith, λ rm at. refl)

-- The parameter says how many lines are sent at most; without it there is no limit.
abbrev pub Limiting : Bytes → Option ℕ → Type 0
Limiting s none = s ≡ []
Limiting s (some n) = (s ≡ itoa (pos n)) × (0 < n) × (n < 2 ^ 63)

abbrev pub limit_of : Option ℕ → ℤ
limit_of none = pos 0
limit_of (some n) = pos n

pub opt_limit-Limiting :
    (s : Bytes) (budget : Option ℕ)
    → Limiting s budget
    → (os : List ReadOption) × (opt_limit s ≡ ok os)
      × ((rm : ReadManager)
          → rm.read_limit ≡ pos 0
          → Makes os rm (record rm { read_limit = limit_of budget }))
unfolding opt_limit apply_options opt_lines
opt_limit-Limiting s none h = ([], rw h refl, λ rm at. (λ i. ok (record rm { read_limit = at i })))
opt_limit-Limiting s (some n) (there, positive, fits) =
    let number = ap atoi there ∙ atoi-itoa n fits in
    let some_text = filled s (pos n) number in (opt_lines (pos n) ∷ [], ground arith, λ rm at. refl)

-- Without a Last-Event-ID the options are those of the three parameters.
pub build_opts_lem :
    (req : HttpRequest) (c s l : List ReadOption)
    → get (bytes "Last-Event-Id") req.header ≡ []
    → opt_cursor (get (bytes "cursor") req.query) ≡ ok c
    → opt_skip_param (get (bytes "skip") req.query) ≡ ok s
    → opt_limit (get (bytes "limit") req.query) ≡ ok l
    → build_opts req ≡ ok (c ++ (s ++ (l ++ [])))
unfolding build_opts last_event_id_header
build_opts_lem req c s l fresh hc hs hl = rw fresh (rw hc (rw hs (rw hl refl)))

-- A request's own cursor, then what it passes over and at most sends.
pub build_opts-Makes :
    (req : HttpRequest) (c : List ReadOption) (k : ℕ) (budget : Option ℕ) (rm rm' : ReadManager)
    → get (bytes "Last-Event-Id") req.header ≡ []
    → opt_cursor (get (bytes "cursor") req.query) ≡ ok c
    → Makes c rm rm'
    → rm'.skip ≡ pos 0
    → rm'.read_limit ≡ pos 0
    → Skipping (get (bytes "skip") req.query) k
    → Limiting (get (bytes "limit") req.query) budget
    → (opts : List ReadOption) × (build_opts req ≡ ok opts)
      × Makes opts rm (record rm' { skip = pos k; read_limit = limit_of budget })
unfolding apply_options
build_opts-Makes req c k budget rm rm' fresh cursor made no_skip no_limit skipping limiting =
    let (s, hs, ms) = opt_skip_param-Skipping (get (bytes "skip") req.query) k skipping in
    let (l, hl, ml) = opt_limit-Limiting (get (bytes "limit") req.query) budget limiting in
    let skipped = record rm' { skip = pos k } in
    let last = record rm' { skip = pos k; read_limit = limit_of budget } in
    (
      c ++ (s ++ (l ++ [])),
      build_opts_lem req c s l fresh cursor hs hl,
      Makes-append c (s ++ (l ++ [])) rm rm' last made (
          Makes-append s (l ++ []) rm' skipped last (ms rm' no_skip)
            (Makes-append l [] skipped last last (ml skipped no_limit) refl)),
    )
