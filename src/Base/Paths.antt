-- ===== src/Base/Paths.antt =====
-- path.Clean and path.Join, which filepath.Join also is on the systems that dcos-log runs on.
use mathlib.Core.Path.{◌≡◌, refl}
use mathlib.Core.Bool.{Bool, false, ◌&&◌, ◌||◌, not}
use mathlib.Core.List.{List, [], ◌∷◌, reverse}
use dcos_log.Base.Tests.{◌==◌, if◌then◌else◌}
use dcos_log.Base.ByteStrings.{Bytes, bytes, bytes_eq, is_empty}
use dcos_log.Base.Split.{split, join}

abbrev pub dot_dot : Bytes
dot_dot = bytes ".."

-- One element of a path behind the elements kept so far, the last one first.
unfoldable pub clean_step : Bool → List Bytes → Bytes → List Bytes
clean_step rooted [] e =
    if is_empty e || bytes_eq e (bytes ".") || (bytes_eq e dot_dot && rooted) then [] else e ∷ []
clean_step rooted (top ∷ kept) e =
    if is_empty e || bytes_eq e (bytes ".")
    then top ∷ kept
    else if bytes_eq e dot_dot && not (bytes_eq top dot_dot)
    then kept
    else e ∷ top ∷ kept

unfoldable pub clean_all : Bool → List Bytes → List Bytes → List Bytes
clean_all rooted kept [] = kept
clean_all rooted kept (e ∷ es) = clean_all rooted (clean_step rooted kept e) es

abbrev pub is_rooted : Bytes → Bool
is_rooted [] = false
is_rooted (c ∷ s) = c == b'/'

unfoldable pub clean : Bytes → Bytes
unfolding clean_all clean_step split join bytes_eq
clean s =
    let kept = join (reverse (clean_all (is_rooted s) [] (split s b'/'))) b'/' in
    if is_rooted s then b'/' ∷ kept else if is_empty kept then bytes "." else kept

unfoldable pub non_empty : List Bytes → List Bytes
non_empty [] = []
non_empty (e ∷ es) = let rest = non_empty es in if is_empty e then rest else e ∷ rest

-- path.Join(es...)
unfoldable pub path_join : List Bytes → Bytes
unfolding clean non_empty join
path_join es = let joined = join (non_empty es) b'/' in if is_empty joined then [] else clean joined

path_tests :
    (path_join (bytes "/a/b" ∷ bytes "/c/" ∷ [] ∷ bytes "d" ∷ []) ≡ bytes "/a/b/c/d")
    × (path_join (bytes "/a" ∷ bytes "../.." ∷ bytes "x" ∷ []) ≡ bytes "/x")
    × (path_join (bytes "a/../../b" ∷ []) ≡ bytes "../b")
    × (path_join (bytes "/tasks" ∷ bytes "t" ∷ []) ≡ bytes "/tasks/t")
unfolding path_join
path_tests = (refl, refl, refl, refl)
