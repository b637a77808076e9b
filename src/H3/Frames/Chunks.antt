-- ===== src/H3/Frames/Chunks.antt =====
-- h3.rs: how the bytes of a stream are cut into chunks does not matter to the frames.
use nix_config.Common.{
  ℕ, zero, suc, ◌≤◌, ◌≡◌, ◌≢◌, refl, ◌∙◌, sym, inl, inr, List, [], ◌∷◌, ◌++◌, none, some, length,
  Option-cases, arith, append_assoc, append-nil,
}
use nix_config.H3.Frames.{
  FrameParser, empty_parser, feed_parser, next_frame, frames_loop, for_frames,
}
use nix_config.H3.Frames.Drained.{next_frame_takes, next_frame-append}

-- The chunks of a stream, one after the other.
unfoldable pub joined : List (List ℕ) → List ℕ
joined [] = []
joined (chunk ∷ chunks) = chunk ++ joined chunks

module _ {ℓ} {S : Type ℓ} (body : ℕ × List ℕ → S → S) where
  -- Any count of rounds that bounds the buffer gives the same result.
  frames_loop_enough :
      (m n : ℕ) (p : FrameParser) (s : S)
      → length p.buf ≤ m
      → length p.buf ≤ n
      → frames_loop body m p s ≡ frames_loop body n p s
  unfolding frames_loop
  frames_loop_enough zero zero p s hm hn = refl
  frames_loop_enough zero (suc n) p s hm hn = elim (Option-cases (next_frame p)) [
    | inl e ↦ rw (e, frames_loop) refl
    | inr ((frame, p'), e) ↦ absurd (omega (arith, next_frame_takes p p' frame e))
  ]
  frames_loop_enough (suc m) zero p s hm hn = elim (Option-cases (next_frame p)) [
    | inl e ↦ rw (e, frames_loop) refl
    | inr ((frame, p'), e) ↦ absurd (omega (arith, next_frame_takes p p' frame e))
  ]
  frames_loop_enough (suc m) (suc n) p s hm hn = elim (Option-cases (next_frame p)) [
    | inl e ↦ rw (e, frames_loop) refl
    | inr ((frame, p'), e) ↦
        let takes = next_frame_takes p p' frame e in
        rw (e, frames_loop)
          (frames_loop_enough m n p' (body frame s) (omega (arith, takes)) (omega (arith, takes)))
  ]

  pub for_frames_step :
      (p p' : FrameParser) (frame : ℕ × List ℕ) (s : S)
      → next_frame p ≡ some (frame, p')
      → for_frames body p s ≡ for_frames body p' (body frame s)
  unfolding for_frames
  for_frames_step p p' frame s e =
      frames_loop_enough (length p.buf) (suc (length p.buf)) p s (omega arith) (omega arith)
      ∙ unfold frames_loop in
        rw (e, frames_loop)
          (frames_loop_enough (length p.buf) (length p'.buf) p' (body frame s)
            (omega (arith, next_frame_takes p p' frame e)) (omega arith))

  pub for_frames_stop :
      (p : FrameParser) (s : S) → next_frame p ≡ none → for_frames body p s ≡ (s, p)
  unfolding for_frames
  for_frames_stop p s e =
      frames_loop_enough (length p.buf) (suc (length p.buf)) p s (omega arith) (omega arith)
      ∙ unfold frames_loop in rw (e, frames_loop) refl

  frames_loop_more :
      (rounds : ℕ) (p : FrameParser) (s : S) (more : List ℕ)
      → for_frames body (record { buf = p.buf ++ more }) s
        ≡ for_frames body
            (record { buf = (frames_loop body rounds p s).1.buf ++ more })
            (frames_loop body rounds p s).0
  unfolding frames_loop
  frames_loop_more zero p s more = refl
  frames_loop_more (suc rounds) p s more = elim (Option-cases (next_frame p)) [
    | inl e ↦ rw (e, frames_loop) refl
    | inr ((frame, p'), e) ↦
        rw (e, frames_loop)
          (for_frames_step _ _ frame s (next_frame-append p p' frame more e)
            ∙ frames_loop_more rounds p' (body frame s) more)
  ]

  -- Feeding a chunk and running the loop, then feeding another, is feeding both at once.
  pub for_frames-feed :
      (p : FrameParser) (s : S) (more : List ℕ)
      → for_frames body (feed_parser p more) s
        ≡ for_frames body (feed_parser (for_frames body p s).1 more) (for_frames body p s).0
  unfolding feed_parser
  for_frames-feed p s more = unfold for_frames in frames_loop_more (length p.buf) p s more

  -- The handler of a stream, chunk after chunk: feed the parser, run the loop.
  unfoldable pub feed_chunks : List (List ℕ) → S → FrameParser → S × FrameParser
  feed_chunks [] s p = (s, p)
  feed_chunks (chunk ∷ chunks) s p =
      let r = for_frames body (feed_parser p chunk) s in feed_chunks chunks r.0 r.1

  feed_chunks_at_once :
      (chunk : List ℕ) (chunks : List (List ℕ)) (s : S) (p : FrameParser)
      → feed_chunks (chunk ∷ chunks) s p
        ≡ for_frames body (feed_parser p (chunk ++ joined chunks)) s
  unfolding feed_chunks joined feed_parser
  feed_chunks_at_once chunk [] s p = simp append-nil
  feed_chunks_at_once chunk (next ∷ chunks) s p =
      let q = feed_parser p chunk in
      let r = for_frames body q s in
      feed_chunks_at_once next chunks r.0 r.1
      ∙ sym (for_frames-feed q s (next ++ joined chunks))
      ∙ simp append_assoc

  -- However a stream is cut into chunks (one at least), the loops over the chunks end in the state
  -- and the buffer of one loop over all the bytes.
  pub feed_chunks-joined :
      (chunks : List (List ℕ)) (s : S) (p : FrameParser)
      → chunks ≢ []
      → feed_chunks chunks s p ≡ for_frames body (feed_parser p (joined chunks)) s
  unfolding joined
  feed_chunks-joined [] s p h = absurd (h refl)
  feed_chunks-joined (chunk ∷ chunks) s p h = feed_chunks_at_once chunk chunks s p

  -- So it is for no chunk at all, from a fresh parser.
  pub feed_chunks-fresh :
      (chunks : List (List ℕ)) (s : S)
      → feed_chunks chunks s empty_parser
        ≡ for_frames body (feed_parser empty_parser (joined chunks)) s
  feed_chunks-fresh [] s = unfold feed_chunks joined feed_parser for_frames frames_loop in refl
  feed_chunks-fresh (chunk ∷ chunks) s =
      feed_chunks-joined (chunk ∷ chunks) s empty_parser (λ e. cc)
