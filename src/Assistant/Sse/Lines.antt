-- ===== src/Assistant/Sse/Lines.antt =====
-- The decoder yields the payloads of the stream's lines, however the stream is chunked.
use dat.Prelude.{
  ℕ, zero, suc, ◌<◌, List, [], ◌∷◌, ◌++◌, Text, Option, none, some, ◌==◌, length, drop, take,
  position, ◌≡◌, refl, sym, ◌∙◌, ap, arith, append-nil, append_assoc, concat, length-drop,
}
use mathlib.Core.Option.{none-ne-some}
use dat.Assistant.Sse.{feed_round, line_payload, feed_loop, feed, feed_all}
use dat.Assistant.Sse.Cut.{cut, cut-append, cut-position, cut_at, position-cut}

concat_cons : (x : Text) (xs : List Text) → concat (x ∷ xs) ≡ x ++ concat xs
concat_cons x [] = sym (append-nil x)
concat_cons x (y ∷ ys) = refl

module _ (decode : Text → Text) where
  -- What the lines of a stream amount to.
  abbrev pub payloads : List Text → List Text
  payloads [] = []
  payloads (line ∷ lines) = line_payload decode line ++ payloads lines

  payloads-append : (ls ms : List Text) → payloads (ls ++ ms) ≡ payloads ls ++ payloads ms
  payloads-append [] ms = refl
  payloads-append (l ∷ ls) ms =
      ap (λ x. line_payload decode l ++ x) (payloads-append ls ms)
      ∙ sym (append_assoc (line_payload decode l) (payloads ls) (payloads ms))

  round_lem :
      (more : Text → List Text → Text × List Text) (buf : Text) (out : List Text) (o : Option ℕ)
      → ((nl : ℕ)
          → o ≡ some nl
          → more (drop (suc nl) buf) (out ++ line_payload decode (take nl buf)) ≡ (
            (cut (drop (suc nl) buf)).1,
            (out ++ line_payload decode (take nl buf)) ++ payloads (cut (drop (suc nl) buf)).0,
          ))
      → feed_round decode more buf out o ≡ ((cut_at buf o).1, out ++ payloads (cut_at buf o).0)
  round_lem more buf out none k = ap (λ x. (buf, x)) (sym (append-nil out))
  round_lem more buf out (some nl) k =
      k nl refl ∙ ap (λ x. ((cut (drop (suc nl) buf)).1, x)) (append_assoc out _ _)

  feed_loop_lem :
      (fuel : ℕ) (buf : Text) (out : List Text)
      → length buf < fuel
      → feed_loop decode fuel buf out ≡ ((cut buf).1, out ++ payloads (cut buf).0)
  feed_loop_lem zero buf out l = absurd (omega (arith, l))
  feed_loop_lem (suc fuel) buf out l =
      round_lem (feed_loop decode fuel) buf out (position (λ b. b == b'\n') buf)
        (λ nl e. feed_loop_lem fuel (drop (suc nl) buf) _ (shorter buf nl e l))
      ∙ ap (λ p. (p.1, out ++ payloads p.0)) (sym (cut-position buf))
    where
      shorter :
          (buf : Text) (nl : ℕ)
          → position (λ b. b == b'\n') buf ≡ some nl
          → length buf < suc fuel
          → length (drop (suc nl) buf) < fuel
      shorter [] nl e l = absurd (none-ne-some nl e)
      shorter (c ∷ buf) nl e l = omega (arith, l, length-drop (suc nl) (c ∷ buf))

  feed_lem :
      (buf chunk : Text)
      → feed decode buf chunk ≡ ((cut (buf ++ chunk)).1, payloads (cut (buf ++ chunk)).0)
  unfolding feed
  feed_lem buf chunk = feed_loop_lem (suc (length (buf ++ chunk))) (buf ++ chunk) [] (omega arith)

  cut_rest : (s : Text) → position (λ b. b == b'\n') s ≡ none → cut s ≡ ([], s)
  cut_rest s e = cut-position s ∙ ap (cut_at s) e

  feed_all_lem :
      (buf : Text) (chunks : List Text)
      → position (λ b. b == b'\n') buf ≡ none
      → feed_all decode buf chunks
        ≡ ((cut (buf ++ concat chunks)).1, payloads (cut (buf ++ concat chunks)).0)
  feed_all_lem buf [] e = rw (append-nil buf, cut_rest buf e) refl
  feed_all_lem buf (chunk ∷ chunks) e =
      rw
        (
          concat_cons chunk chunks,
          feed_lem buf chunk,
          feed_all_lem (cut (buf ++ chunk)).1 chunks (position-cut (buf ++ chunk)),
          ← append_assoc buf chunk (concat chunks),
          cut-append (buf ++ chunk) (concat chunks),
        )
        (ap (λ x. ((cut ((cut (buf ++ chunk)).1 ++ concat chunks)).1, x))
          (sym (payloads-append (cut (buf ++ chunk)).0 _)))

-- A fresh decoder that is fed a stream in any chunks yields, in order, what the lines of the whole
-- stream amount to, and keeps what follows its last line feed: where the chunks are cut, also within
-- a character, makes no difference. It holds for any way of decoding a line.
pub feed_all-concat :
    (decode : Text → Text) (chunks : List Text)
    → feed_all decode [] chunks ≡ ((cut (concat chunks)).1, payloads decode (cut (concat chunks)).0)
feed_all-concat decode chunks = feed_all_lem decode [] chunks refl
