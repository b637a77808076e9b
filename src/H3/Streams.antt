-- ===== src/H3/Streams.antt =====
-- h3.rs: the state of the streams of one connection, and the four calls that change it. A call returns
-- the new state and the events that it pushes.
use nix_config.Common.{
  ℕ, ◌+◌, List, [], ◌∷◌, ◌++◌, Bool, true, false, not, ◌&&◌, Option, none, some, if◌then◌else◌,
  ◌==◌, length, drop, ok, err, find_key, insert_key, remove_key,
}
use nix_config.Varint.{varint_decode}
use nix_config.H3.Frames.{FrameParser, empty_parser, feed_parser, for_frames}
use nix_config.H3.Request.{frame_data, frame_headers, frame_goaway, stream_type_control}
use nix_config.H3.Status.{parse_status}
pub mod Response
pub mod Quiet
pub mod Events
pub mod Defects

-- The fields of `StreamState::Response` that the loop over frames changes.
pub record Reply : Type 0 where
  pub status : Option ℕ
  pub body : List ℕ
  pub got_data : Bool
  pub failed : Bool

pub data StreamState : Type 0 where
  server_uni : Option ℕ → FrameParser → StreamState
  sink : StreamState
  response : FrameParser → Reply → StreamState

pub data H3Event : Type 0 where
  responded : ℕ → List ℕ → H3Event
  failed : ℕ → H3Event
  goaway_event : H3Event

pub record H3 : Type 0 where
  pub streams : List (ℕ × StreamState)
  pub goaway : Bool

abbrev pub new_h3 : H3
new_h3 = record { streams = []; goaway = false }

abbrev pub insert_stream : ℕ → StreamState → H3 → H3
insert_stream stream state h = record h { streams = insert_key stream state h.streams }

abbrev pub remove_stream : ℕ → H3 → H3
remove_stream stream h = record h { streams = remove_key stream h.streams }

abbrev pub new_reply : Reply
new_reply = record { status = none; body = []; got_data = false; failed = false }

unfoldable pub register_request : ℕ → H3 → H3
register_request stream h = insert_stream stream (response empty_parser new_reply) h

-- One frame of a request stream: `match fty` of `feed`.
unfoldable pub reply_frame : ℕ × List ℕ → Reply → Reply
reply_frame (fty, payload) r =
    if fty == frame_headers
    then (elim (parse_status payload) [
      | ok code ↦ record r { status = some code }
      | err e ↦ record r { failed = true }
    ])
    else if fty == frame_data
    then record r { body = r.body ++ payload; got_data = true }
    else r

-- One frame of the control stream; the state is `self.goaway` and the events that are pushed.
unfoldable pub control_frame : ℕ × List ℕ → Bool × List H3Event → Bool × List H3Event
control_frame (fty, payload) (goaway, events) =
    if fty == frame_goaway then (true, events ++ goaway_event ∷ []) else (goaway, events)

-- `process_server_uni`, on the state and parser that `get_mut` finds.
unfoldable pub process_server_uni : ℕ → Option ℕ → FrameParser → H3 → H3 × List H3Event
process_server_uni stream none parser h = (h, [])
process_server_uni stream (some ty) parser h =
    if ty == stream_type_control
    then (let r = for_frames control_frame parser (h.goaway, []) in
        (
          record {
            streams = insert_key stream (server_uni (some ty) r.1) h.streams;
            goaway = r.0.0;
          },
          r.0.1,
        ))
    else (h, [])

-- The type of a server stream is known: a control stream is parsed, every other is drained.
unfoldable pub classify : ℕ → ℕ → FrameParser → H3 → H3 × List H3Event
classify stream ty parser h =
    if ty == stream_type_control
    then process_server_uni stream (some ty) parser
        (insert_stream stream (server_uni (some ty) parser) h)
    else (insert_stream stream sink h, [])

-- No chunk yet has given the type: it is looked for in the chunk, and else in all that is buffered.
unfoldable pub feed_untyped : ℕ → List ℕ → FrameParser → H3 → H3 × List H3Event
feed_untyped stream [] parser h = (insert_stream stream (server_uni none parser) h, [])
feed_untyped stream (b ∷ bytes) parser h = elim (varint_decode (b ∷ bytes)) [
  | some (t, n) ↦ classify stream t (feed_parser parser (drop n (b ∷ bytes))) h
  | none ↦
      let parser' = feed_parser parser (b ∷ bytes) in
      elim (varint_decode parser'.buf) [
        | none ↦ (insert_stream stream (server_uni none parser') h, [])
        | some (t, n) ↦
            classify stream t (record { buf = drop n parser'.buf }) (remove_stream stream h)
      ]
]

unfoldable pub feed_state : ℕ → List ℕ → StreamState → H3 → H3 × List H3Event
feed_state stream bytes (server_uni none parser) h = feed_untyped stream bytes parser h
feed_state stream bytes (server_uni (some ty) parser) h =
    let parser' = feed_parser parser bytes in
    process_server_uni stream (some ty) parser'
      (insert_stream stream (server_uni (some ty) parser') h)
feed_state stream bytes sink h = (h, [])
feed_state stream bytes (response parser reply) h =
    let r = for_frames reply_frame (feed_parser parser bytes) reply in
    (insert_stream stream (response r.1 r.0) h, [])

-- `streams.entry(stream).or_insert_with(..)`: a stream that is not registered is a server's.
abbrev pub entry_state : Option StreamState → StreamState
entry_state none = server_uni none empty_parser
entry_state (some state) = state

unfoldable pub feed : ℕ → List ℕ → H3 → H3 × List H3Event
feed stream bytes h = feed_state stream bytes (entry_state (find_key stream h.streams)) h

-- The event of a request stream that ends.
abbrev pub is_200 : Option ℕ → Bool
is_200 none = false
is_200 (some code) = code == 200

unfoldable pub finish_reply : ℕ → Reply → H3Event
finish_reply stream r =
    if r.failed
    then failed stream
    else if r.got_data && is_200 r.status
    then responded stream r.body
    else failed stream

unfoldable pub finish_events : ℕ → Option StreamState → List H3Event
finish_events stream (some (response parser r)) = finish_reply stream r ∷ []
finish_events stream other = []

unfoldable pub finish : ℕ → H3 → H3 × List H3Event
finish stream h = (remove_stream stream h, finish_events stream (find_key stream h.streams))

unfoldable pub reset_events : ℕ → Option StreamState → List H3Event
reset_events stream (some (response parser r)) = if r.failed then [] else failed stream ∷ []
reset_events stream other = []

unfoldable pub reset : ℕ → H3 → H3 × List H3Event
reset stream h = (remove_stream stream h, reset_events stream (find_key stream h.streams))
