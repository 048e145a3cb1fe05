-- ===== src/Base/Copy.antt =====
-- io.Copy: reads into a buffer of 32 KiB until the reader ends or fails.
use dcos_log.Base.Tests.{if◌then◌else◌}
use dcos_log.Base.ByteStrings.{Bytes}
use dcos_log.Base.Results.{Result, ok, err}
use Prim.Native.Nat.{ℕ, zero, suc}
use mathlib.Core.Path.{◌≡◌, ap, ◌∙◌}
use mathlib.Core.Bool.{Bool}
use mathlib.Core.Option.{Option, none, some}
use mathlib.Core.List.{[], ◌++◌}

abbrev pub copy_buffer : ℕ
copy_buffer = 32768

-- `read` is the reader's method, with the size of the buffer; `is_eof` finds io.EOF, and `stuck` is
-- the error of the model where the fuel runs out. The result is the reader, what was written and the
-- error of io.Copy.
module _ {ℓ κ} {S : Type ℓ} {E : Type κ} (read : S → ℕ → S × Result E Bytes) (is_eof : E → Bool)
    (stuck : E) where
  -- What follows a call of Read; `again` is the rest of the loop.
  copied : (S → S × Bytes × Option E) → S × Result E Bytes → S × Bytes × Option E
  copied again (s, err e) = (s, [], if is_eof e then none else some e)
  copied again (s, ok out) = let (s', rest, e) = again s in (s', out ++ rest, e)

  unfoldable pub copy : ℕ → S → S × Bytes × Option E
  unfolding copied
  copy zero s = (s, [], some stuck)
  copy (suc fuel) s = copied (copy fuel) (read s copy_buffer)

  pub copy_ends :
      (fuel : ℕ) (s s' : S) (e : E)
      → read s copy_buffer ≡ (s', err e)
      → copy (suc fuel) s ≡ (s', [], if is_eof e then none else some e)
  unfolding copy
  copy_ends fuel s s' e h = ap (copied (copy fuel)) h

  pub copy_goes_on :
      (fuel : ℕ) (s s' s'' : S) (out rest : Bytes) (e : Option E)
      → read s copy_buffer ≡ (s', ok out)
      → copy fuel s' ≡ (s'', rest, e)
      → copy (suc fuel) s ≡ (s'', out ++ rest, e)
  unfolding copy
  copy_goes_on fuel s s' s'' out rest e h k =
      ap (copied (copy fuel)) h ∙ ap (λ (t : S × Bytes × Option E). (t.0, out ++ t.1, t.2)) k
