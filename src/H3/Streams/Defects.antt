-- ===== src/H3/Streams/Defects.antt =====
-- h3.rs: three classes of input on which the layer does not do what its comments say.
use nix_config.Common.{
  ℕ, ◌*◌, ◌/◌, ◌%◌, bit_or, bit_or_high_low, low_6, ◌^◌, ◌<◌, ◌≡◌, refl, ◌∙◌, ap, List, [], ◌∷◌,
  ◌++◌, true, false, none, some, ok, err, arith, All, find_key, length, ◌==◌,
}
use nix_config.Varint.{varint_decode, shift_in}
use nix_config.Qpack.Error.{QpackError}
use nix_config.H3.Frames.{FrameParser, empty_parser, feed_parser, for_frames}
use nix_config.H3.Frames.Chunks.{joined}
use nix_config.H3.Frames.RoundTrip.{frames_bytes, FrameFits, fold_frames}
use nix_config.H3.Request.{frame_data, frame_headers, stream_type_control}
use nix_config.H3.Status.{parse_status}
use nix_config.H3.Streams.{
  Reply, server_uni, sink, failed, H3, new_reply, insert_stream, control_frame, register_request,
  reply_frame, feed, feed_state, feed_untyped, classify, process_server_uni, finish, finish_reply,
  reset, reset_events,
}
use nix_config.H3.Streams.Response.{feed_all, finish-feed_all, reset-feed_all, find-insert_self}

headers_ok :
    (block : List ℕ) (code : ℕ) (r : Reply)
    → parse_status block ≡ ok code
    → reply_frame (frame_headers, block) r ≡ record r { status = some code }
unfolding reply_frame
headers_ok block code r e = rw e

data_ok :
    (body : List ℕ) (r : Reply)
    → reply_frame (frame_data, body) r ≡ record r { body = r.body ++ body; got_data = true }
unfolding reply_frame
data_ok body r = refl

-- A response of exactly three frames, in any chunks: HEADERS with status 200, one DATA frame, and trailers,
-- a second HEADERS frame whose field section parses and has no `:status` (so that `parse_status` gives 0).
-- It fails, although its status was 200 and its body complete.
pub trailers_fail :
    (stream : ℕ) (block body trailers : List ℕ) (chunks : List (List ℕ)) (h : H3)
    → parse_status block ≡ ok 200
    → parse_status trailers ≡ ok 0
    → All FrameFits ((frame_headers, block) ∷ (frame_data, body) ∷ (frame_headers, trailers) ∷ [])
    → joined chunks
      ≡ frames_bytes ((frame_headers, block) ∷ (frame_data, body) ∷ (frame_headers, trailers) ∷ [])
    → (finish stream (feed_all stream chunks (register_request stream h)).0).1 ≡ failed stream ∷ []
trailers_fail stream block body trailers chunks h ok_status no_status fits e =
    let frames : List (ℕ × List ℕ) =
      (frame_headers, block) ∷ (frame_data, body) ∷ (frame_headers, trailers) ∷ [] in
    (finish-feed_all stream frames chunks h fits e).1
    ∙ unfold fold_frames in
      rw
        (
          headers_ok block 200 new_reply ok_status,
          data_ok body (record new_reply { status = some 200 }),
          headers_ok trailers 0
              (record new_reply { status = some 200; body = body; got_data = true }) no_status,
        )
        (unfold finish_reply in refl)

-- A request whose HEADERS frame does not parse is never reported when the peer then resets the stream:
-- no chunk pushes an event, `reset` pushes none, and the stream is forgotten.
pub reset_after_malformed_headers :
    (stream : ℕ) (block : List ℕ) (error : QpackError) (chunks : List (List ℕ)) (h : H3)
    → parse_status block ≡ err error
    → length block < 2 ^ 62
    → joined chunks ≡ frames_bytes ((frame_headers, block) ∷ [])
    → let fed = feed_all stream chunks (register_request stream h) in
      (fed.1 ≡ [])
      × ((reset stream fed.0).1 ≡ [])
      × (find_key stream (reset stream fed.0).0.streams ≡ none)
reset_after_malformed_headers stream block error chunks h malformed hb e =
    let frames : List (ℕ × List ℕ) = (frame_headers, block) ∷ [] in
    let r = reset-feed_all stream frames chunks h ((omega arith, hb), tt) e in
    (r.0, r.1 ∙ unfold fold_frames reply_frame reset_events in rw malformed, r.2)

decode_half : (b : ℕ) → 64 < b → b < 128 → varint_decode (b ∷ []) ≡ none
unfolding varint_decode
decode_half b lo hi = let k : b / 2 ^ 6 ≡ 1 = omega arith in rw k

decode_zero : (rest : List ℕ) → varint_decode (0 ∷ rest) ≡ some (0, 1)
unfolding varint_decode shift_in
decode_zero rest = ground arith

decode_whole :
    (b : ℕ) (rest : List ℕ)
    → 64 < b
    → b < 128
    → (t : ℕ) × (varint_decode (b ∷ 0 ∷ rest) ≡ some (t, 2)) × ((t == stream_type_control) ≡ false)
unfolding varint_decode shift_in
decode_whole b rest lo hi =
    let k : b / 2 ^ 6 ≡ 1 = omega arith in
    let low = low_6 b (omega arith) in
    let joined = bit_or_high_low 8 0 (b % 64) (omega arith) in
    let bounded =
      ap (λ (t : ℕ). bit_or t 0) {x = b % 64 * 2 ^ 8 % 2 ^ 64} {y = b % 64 * 2 ^ 8} (omega arith) in
    (
      bit_or (b % 64 * 2 ^ 8 % 2 ^ 64) 0,
      rw (k, low) (ground arith),
      ground (arith, bounded ∙ joined),
    )

feed_new :
    (stream : ℕ) (bytes : List ℕ) (h : H3)
    → find_key stream h.streams ≡ none
    → feed stream bytes h ≡ feed_untyped stream bytes empty_parser h
unfolding feed feed_state
feed_new stream bytes h e = rw e

feed_waiting :
    (stream : ℕ) (bytes : List ℕ) (p : FrameParser) (h : H3)
    → feed stream bytes (insert_stream stream (server_uni none p) h)
      ≡ feed_untyped stream bytes p (insert_stream stream (server_uni none p) h)
unfolding feed feed_state
feed_waiting stream bytes p h = rw (find-insert_self stream (server_uni none p) h.streams)

-- The first byte of a two-byte type, alone, is buffered.
buffered :
    (stream b : ℕ) (h : H3)
    → varint_decode (b ∷ []) ≡ none
    → feed_untyped stream (b ∷ []) empty_parser h
      ≡ (insert_stream stream (server_uni none (record { buf = b ∷ [] })) h, [])
unfolding feed_untyped feed_parser
buffered stream b h e = rw (e, feed_untyped, e)

-- A chunk whose own first bytes are a varint decides the type.
sunk :
    (stream t b n : ℕ) (rest : List ℕ) (h : H3)
    → varint_decode (b ∷ 0 ∷ rest) ≡ some (t, n)
    → (t == stream_type_control) ≡ false
    → find_key stream (feed_untyped stream (b ∷ 0 ∷ rest) empty_parser h).0.streams ≡ some sink
unfolding feed_untyped classify
sunk stream t b n rest h e other =
    rw (e, feed_untyped, other) (find-insert_self stream sink h.streams)

taken_for_control :
    (stream : ℕ) (rest : List ℕ) (p : FrameParser) (h : H3)
    → (q : FrameParser) × (find_key stream (feed_untyped stream (0 ∷ rest) p h).0.streams
        ≡ some (server_uni (some stream_type_control) q))
unfolding feed_untyped classify process_server_uni
taken_for_control stream rest p h =
    let h' = insert_stream stream (server_uni (some 0) (feed_parser p rest)) h in
    let q = (for_frames control_frame (feed_parser p rest) (h.goaway, [])).1 in
    (
      q,
      rw (decode_zero rest, feed_untyped)
          (find-insert_self stream (server_uni (some 0) q) h'.streams),
    )

-- A server stream that is not registered, and whose two-byte type is not 0 and arrives with its bytes in
-- two chunks: if the second byte is 0, the stream is taken for the control stream; in one chunk it is
-- drained, as a stream of an unknown type.
pub split_type_misread :
    (stream b : ℕ) (rest : List ℕ) (h : H3)
    → find_key stream h.streams ≡ none
    → 64 < b
    → b < 128
    → (find_key stream (feed stream (b ∷ 0 ∷ rest) h).0.streams ≡ some sink)
      × ((p : FrameParser) × (find_key stream
              (feed_all stream ((b ∷ []) ∷ (0 ∷ rest) ∷ []) h).0.streams
            ≡ some (server_uni (some stream_type_control) p)))
split_type_misread stream b rest h e lo hi =
    let (t, whole, other) = decode_whole b rest lo hi in
    let first : FrameParser = record { buf = b ∷ [] } in
    let taken =
      taken_for_control stream rest first (insert_stream stream (server_uni none first) h) in
    (
      rw (feed_new stream (b ∷ 0 ∷ rest) h e) (sunk stream t b 2 rest h whole other),
      (
        taken.0,
        unfold feed_all in
            rw
              (
                feed_new stream (b ∷ []) h e,
                buffered stream b h (decode_half b lo hi),
                feed_waiting stream (0 ∷ rest) first h,
              )
              taken.1,
      ),
    )
