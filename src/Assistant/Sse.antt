-- ===== src/Assistant/Sse.antt =====
-- The decoder of the event stream (crates/dat0-core/src/ai/sse.rs). The buffer holds bytes, a payload
-- is a text of code points, and `String::from_utf8_lossy` is a parameter.
pub mod Cut
pub mod Lines
mod Examples
use dat.Prelude.{
  ℕ, zero, suc, ◌+◌, Bool, true, false, ◌||◌, List, [], ◌∷◌, ◌++◌, Text, codes, Option, none, some,
  ◌==◌, if◌then◌else◌, length, take, drop, position, text_eq,
}
use dat.Prelude.Slices.{strip_prefix}
use dat.View.Model.{is_nil}
use dat.View.FilterPopover.{trim}

-- `if line_bytes.last() == Some(&b'\r') { line_bytes.pop(); }`
abbrev pub without_return : Text → Text
without_return [] = []
without_return (c ∷ []) = if c == 13 then [] else c ∷ []
without_return (c ∷ d ∷ s) = c ∷ without_return (d ∷ s)

abbrev payload_of : Option Text → List Text
payload_of none = []
payload_of (some rest) =
    if is_nil (trim rest) || text_eq (trim rest) (codes "[DONE]") then [] else trim rest ∷ []

module _ (from_utf8_lossy : Text → Text) where
  -- What a complete line adds to the output.
  unfoldable pub line_payload : Text → List Text
  line_payload line =
      payload_of (strip_prefix (codes "data:") (from_utf8_lossy (without_return line)))

  -- One round of the `while let` loop, with the rounds after it.
  abbrev pub feed_round :
      (Text → List Text → Text × List Text) → Text → List Text → Option ℕ → Text × List Text
  feed_round more buf out none = (buf, out)
  feed_round more buf out (some nl) = more (drop (suc nl) buf) (out ++ line_payload (take nl buf))

  -- A round takes a byte or more off the buffer.
  abbrev pub feed_loop : ℕ → Text → List Text → Text × List Text
  feed_loop zero buf out = (buf, out)
  feed_loop (suc fuel) buf out =
      feed_round (feed_loop fuel) buf out (position (λ b. b == b'\n') buf)

  unfoldable pub feed : Text → Text → Text × List Text
  feed buf chunk = feed_loop (suc (length (buf ++ chunk))) (buf ++ chunk) []

  abbrev then_all : Text × List Text → Text × List Text → Text × List Text
  then_all (_, first) (buf, rest) = (buf, first ++ rest)

  -- A stream, chunk by chunk.
  abbrev pub feed_all : Text → List Text → Text × List Text
  feed_all buf [] = (buf, [])
  feed_all buf (chunk ∷ chunks) = then_all (feed buf chunk) (feed_all (feed buf chunk).0 chunks)
