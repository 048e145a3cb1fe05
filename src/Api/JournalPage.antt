-- ===== src/Api/JournalPage.antt =====
-- What the handlers of both versions of the API share when they send a journal: matches from filters,
-- and the loops that copy or follow a reader.
use dcos_log.Base.{
  ℕ, if◌then◌else◌, List, [], ◌∷◌, ◌++◌, Bytes, bytes, is_empty, split, to_upper, Option, none,
  some,
}
use dcos_log.Mesos.Types.{Header}
use dcos_log.Journal.Types.{Sdjournal, Encoders, Reader, JournalEntryMatch}
use dcos_log.Journal.Reading.{copy_entries, follow}
use dcos_log.Api.Types.{Reply, page}

-- A filter `key:value`, with the key in upper case; `none` for another format.
unfoldable pub filter_match : (Bytes → Bytes) → Bytes → Option JournalEntryMatch
filter_match unicode_upper filter = elim (split filter b':') [
  | [] ↦ none
  | key ∷ rest ↦ elim rest [
    | [] ↦ none
    | value ∷ others ↦ elim others [
      | [] ↦ some (record { field = to_upper unicode_upper key; value = value })
      | _ ∷ _ ↦ none
    ]
  ]
]

unfoldable pub filter_matches : (Bytes → Bytes) → List Bytes → Option (List JournalEntryMatch)
unfolding filter_match
filter_matches unicode_upper [] = some []
filter_matches unicode_upper (f ∷ fs) = elim (filter_match unicode_upper f) [
  | none ↦ none
  | some m ↦ elim (filter_matches unicode_upper fs) [ none ↦ none | some ms ↦ some (m ∷ ms) ]
]

-- The headers that every journal reply has.
abbrev pub common_header : Header
common_header =
    (bytes "Cache-Control", bytes "no-cache")
    ∷ (bytes "Connection", bytes "keep-alive")
    ∷ (bytes "Access-Control-Allow-Origin", bytes "*")
    ∷ (bytes "Transfer-Encoding", bytes "chunked")
    ∷ []

-- A turn of a stream: the time and the system.
pub record Tick (System : Type 0) : Type 0 where
  pub now : ℕ
  pub system : System

module _ (sd : Sdjournal) (enc : Encoders) where
  -- The whole journal as a page: an error after what was written, or no content.
  unfoldable pub copy_page : ℕ → ℕ → Header → Reader sd.Journal → Reply
  unfolding copy_entries
  copy_page fuel now header r =
      let (r', out, failed) = copy_entries sd enc fuel now r in
      elim failed [
        | some e ↦ page header out (some 500)
        | none ↦ page header out (if is_empty out then some 204 else none)
      ]

  -- 100 milliseconds
  abbrev pub follow_wait : ℕ
  follow_wait = 100000000

  -- The loop of an event stream until the client goes away; an error of Follow ends it.
  unfoldable pub follow_ticks : ℕ → List (Tick sd.System) → Reader sd.Journal → Bytes
  unfolding follow
  follow_ticks fuel [] r = []
  follow_ticks fuel (t ∷ ticks) r =
      let (r', out, failed) = follow sd enc fuel t.now t.system follow_wait r in
      elim failed [ some e ↦ out | none ↦ out ++ follow_ticks fuel ticks r' ]
