-- ===== src/Assistant/Sse/Examples.antt =====
-- Tests and instances for the decoder of the event stream; every byte is a character of its own.
use dat.Prelude.{List, [], ◌∷◌, Text, codes, concat, ◌≡◌, refl, text_eq}
use dat.View.FilterPopover.{trim}
use dat.Assistant.Sse.{line_payload, feed, feed_all}
use dat.Assistant.Sse.Cut.{cut}
use dat.Assistant.Sse.Lines.{payloads, feed_all-concat}

abbrev decode : Text → Text
decode s = s

abbrev chunks : List Text
chunks = codes "data: {\"x\":" ∷ codes "42}\n\ndata: [DONE]\nda" ∷ []

chunked : feed_all decode [] chunks ≡ (codes "da", codes "{\"x\":42}" ∷ [])
unfolding feed line_payload text_eq trim
chunked = refl

comment_skipped : feed decode [] (codes ": ping\nevent: delta\ndata:{}\n") ≡ ([], codes "{}" ∷ [])
unfolding feed line_payload text_eq trim
comment_skipped = refl

feed_all-concat_example :
    feed_all decode [] chunks ≡ ((cut (concat chunks)).1, payloads decode (cut (concat chunks)).0)
feed_all-concat_example = feed_all-concat decode chunks
