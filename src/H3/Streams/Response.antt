-- ===== src/H3/Streams/Response.antt =====
-- h3.rs: a request stream from its registration to its end, however its bytes are cut.
use nix_config.Common.{
  ℕ, ◌^◌, ◌<◌, ◌≡◌, ◌≢◌, refl, ◌∙◌, List, [], ◌∷◌, ◌++◌, Bool, true, false, none, some, ok,
  if◌then◌else◌, ◌==◌, arith, All, find_key, insert_key, find-insert, find-remove, append_assoc,
  append-nil, length,
}
use nix_config.H3.Frames.{FrameParser, empty_parser, feed_parser, for_frames}
use nix_config.H3.Frames.Chunks.{feed_chunks, joined, feed_chunks-fresh}
use nix_config.H3.Frames.RoundTrip.{frames_bytes, FrameFits, fold_frames, for_frames-frames_bytes}
use nix_config.H3.Request.{frame_data, frame_headers}
use nix_config.H3.Status.{parse_status}
use nix_config.H3.Streams.{
  Reply, response, H3Event, responded, H3, insert_stream, new_reply, register_request, reply_frame,
  feed, feed_state, finish, finish_events, finish_reply, reset, reset_events,
}

-- The chunks that one stream delivers, fed in order; the events of all of them.
unfoldable pub feed_all : ℕ → List (List ℕ) → H3 → H3 × List H3Event
feed_all stream [] h = (h, [])
feed_all stream (chunk ∷ chunks) h =
    let r = feed stream chunk h in let rest = feed_all stream chunks r.0 in (rest.0, r.1 ++ rest.1)

pub find-insert_self :
    {V : Type 0} (k : ℕ) (v : V) (m : List (ℕ × V)) → find_key k (insert_key k v m) ≡ some v
find-insert_self k v m = ground (arith, find-insert k k v m)

feed-response :
    (stream : ℕ) (chunk : List ℕ) (h : H3) (p : FrameParser) (r : Reply)
    → find_key stream h.streams ≡ some (response p r)
    → feed stream chunk h ≡ (
      insert_stream stream
          (response
            (for_frames reply_frame (feed_parser p chunk) r).1
            (for_frames reply_frame (feed_parser p chunk) r).0)
          h,
      [],
    )
unfolding feed feed_state
feed-response stream chunk h p r e = rw e

-- Chunk after chunk, a request stream holds what `feed_chunks` computes, and no event is pushed.
feed_all-response :
    (stream : ℕ) (chunks : List (List ℕ)) (h : H3) (p : FrameParser) (r : Reply)
    → find_key stream h.streams ≡ some (response p r)
    → (find_key stream (feed_all stream chunks h).0.streams
        ≡ some (
            response (feed_chunks reply_frame chunks r p).1 (feed_chunks reply_frame chunks r p).0))
      × ((feed_all stream chunks h).1 ≡ [])
unfolding feed_all feed_chunks
feed_all-response stream [] h p r e = (e, refl)
feed_all-response stream (chunk ∷ chunks) h p r e =
    let q = for_frames reply_frame (feed_parser p chunk) r in
    let h' = insert_stream stream (response q.1 q.0) h in
    rw (feed-response stream chunk h p r e) (
      feed_all-response stream chunks h' q.1 q.0
        (find-insert_self stream (response q.1 q.0) h.streams))

-- A registered request stream whose bytes are the given frames, in any number of chunks, holds the
-- frames folded in order over a fresh reply, and has pushed no event.
fed-frames :
    (stream : ℕ) (frames : List (ℕ × List ℕ)) (chunks : List (List ℕ)) (h : H3)
    → All FrameFits frames
    → joined chunks ≡ frames_bytes frames
    → let fed = feed_all stream chunks (register_request stream h) in
      (find_key stream fed.0.streams
        ≡ some (response empty_parser (fold_frames reply_frame frames new_reply)))
      × (fed.1 ≡ [])
unfolding register_request
fed-frames stream frames chunks h fits e =
    let start = insert_stream stream (response empty_parser new_reply) h in
    let fed =
      feed_all-response stream chunks start empty_parser new_reply
        (find-insert_self stream (response empty_parser new_reply) h.streams) in
    let whole : feed_chunks reply_frame chunks new_reply empty_parser
        ≡ (fold_frames reply_frame frames new_reply, empty_parser) =
      feed_chunks-fresh reply_frame chunks new_reply
      ∙ unfold feed_parser in rw e (for_frames-frames_bytes reply_frame frames new_reply fits) in
    (rw fed.0 (rw whole refl), fed.1)

-- A registered request stream whose bytes are the given frames, in any number of chunks, pushes no
-- event while it is fed, and `finish` then pushes the one event that the frames decide, folded in
-- order from a fresh reply.
pub finish-feed_all :
    (stream : ℕ) (frames : List (ℕ × List ℕ)) (chunks : List (List ℕ)) (h : H3)
    → All FrameFits frames
    → joined chunks ≡ frames_bytes frames
    → let fed = feed_all stream chunks (register_request stream h) in
      (fed.1 ≡ [])
      × ((finish stream fed.0).1
          ≡ finish_reply stream (fold_frames reply_frame frames new_reply) ∷ [])
unfolding finish
finish-feed_all stream frames chunks h fits e =
    let fed = fed-frames stream frames chunks h fits e in
    (fed.1, rw fed.0 (unfold finish_events in refl))

-- The same for a stream that is reset: the event of `reset`, and the stream is gone.
pub reset-feed_all :
    (stream : ℕ) (frames : List (ℕ × List ℕ)) (chunks : List (List ℕ)) (h : H3)
    → All FrameFits frames
    → joined chunks ≡ frames_bytes frames
    → let fed = feed_all stream chunks (register_request stream h) in
      let r = fold_frames reply_frame frames new_reply in
      (fed.1 ≡ [])
      × ((reset stream fed.0).1 ≡ reset_events stream (some (response empty_parser r)))
      × (find_key stream (reset stream fed.0).0.streams ≡ none)
unfolding reset
reset-feed_all stream frames chunks h fits e =
    let fed = fed-frames stream frames chunks h fits e in
    let after = feed_all stream chunks (register_request stream h) in
    (fed.1, rw fed.0, ground (arith, find-remove stream stream after.0.streams))

-- The payloads of the DATA frames, one after the other.
unfoldable pub data_of : List (ℕ × List ℕ) → List ℕ
data_of [] = []
data_of ((ty, payload) ∷ frames) =
    let rest = data_of frames in if ty == frame_data then payload ++ rest else rest

unfoldable pub has_data : List (ℕ × List ℕ) → Bool
has_data [] = false
has_data ((ty, payload) ∷ frames) = if ty == frame_data then true else has_data frames

-- No frame but the first is a HEADERS frame.
abbrev pub NoHeaders : ℕ × List ℕ → Type 0
NoHeaders (ty, payload) = ty ≢ frame_headers

fold-NoHeaders :
    (frames : List (ℕ × List ℕ)) (r : Reply)
    → All NoHeaders frames
    → fold_frames reply_frame frames r ≡ record r {
      body = r.body ++ data_of frames;
      got_data = if has_data frames then true else r.got_data;
    }
unfolding fold_frames reply_frame data_of has_data
fold-NoHeaders [] r h = ground (arith, append-nil r.body)
fold-NoHeaders ((ty, payload) ∷ frames) r (ht, h) =
    fold-NoHeaders frames (reply_frame (ty, payload) r) h
    ∙ ground (arith, append_assoc r.body payload (data_of frames))

-- A response with status 200 in its first frame, followed by DATA frames (one at least) and any frames
-- of unknown types, and cut into chunks in any way, delivers exactly the concatenated payloads of the
-- DATA frames, in one event, when the stream finishes, and pushes no event before.
pub finish_ok :
    (stream : ℕ) (block : List ℕ) (frames : List (ℕ × List ℕ)) (chunks : List (List ℕ)) (h : H3)
    → parse_status block ≡ ok 200
    → length block < 2 ^ 62
    → All FrameFits frames
    → All NoHeaders frames
    → has_data frames ≡ true
    → joined chunks ≡ frames_bytes ((frame_headers, block) ∷ frames)
    → let fed = feed_all stream chunks (register_request stream h) in
      (fed.1 ≡ []) × ((finish stream fed.0).1 ≡ responded stream (data_of frames) ∷ [])
finish_ok stream block frames chunks h ok_status hb fits plain some_data e =
    let whole = (frame_headers, block) ∷ frames in
    let r = finish-feed_all stream whole chunks h ((omega arith, hb), fits) e in
    let first : Reply = record new_reply { status = some 200 } in
    let headers : reply_frame (frame_headers, block) new_reply ≡ first =
      unfold reply_frame in rw ok_status in
    let folded : fold_frames reply_frame whole new_reply
        ≡ record first { body = data_of frames; got_data = true } =
      unfold fold_frames in rw headers (fold-NoHeaders frames first plain ∙ rw some_data) in
    (r.0, r.1 ∙ rw folded (unfold finish_reply in refl))
