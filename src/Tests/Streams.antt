-- ===== src/Tests/Streams.antt =====
-- The request streams of h3.rs at concrete inputs.
use nix_config.Common.{
  ℕ, ◌+◌, ◌≤◌, ◌≡◌, refl, List, [], ◌∷◌, some, ok, err, arith, bytes_eq, parse_u16, u16_digits,
  find_key,
}
use nix_config.Varint.{varint_bytes}
use nix_config.Qpack.Error.{dynamic_table}
use nix_config.Qpack.PrefixInt.{read_prefix_int}
use nix_config.Qpack.StaticTable.{static_table}
use nix_config.Qpack.Section.{decode_value, new_decoder, next, next_line, next_indexed}
use nix_config.H3.Frames.{FrameParser}
use nix_config.H3.Frames.Chunks.{joined}
use nix_config.H3.Frames.RoundTrip.{frame_bytes, frames_bytes}
use nix_config.H3.Request.{stream_type_control}
use nix_config.H3.Status.{parse_status, status_loop, parse_or_zero}
use nix_config.H3.Streams.{
  responded, failed, sink, server_uni, new_h3, register_request, feed, finish,
}
use nix_config.H3.Streams.Response.{feed_all, data_of, finish_ok, has_data}
use nix_config.H3.Streams.Quiet.{Call, registers, feeds, finishes, resets, run, count_for, open_in}
use nix_config.H3.Streams.Events.{count-run}
use nix_config.H3.Streams.Defects.{trailers_fail, split_type_misread}

abbrev block_200 : List ℕ
block_200 = 0 ∷ 0 ∷ 0xD9 ∷ []

status_200 : parse_status block_200 ≡ ok 200
unfolding parse_status status_loop parse_or_zero next next_line next_indexed new_decoder
    read_prefix_int static_table decode_value bytes_eq parse_u16 u16_digits
status_200 = refl

no_status : parse_status (0 ∷ 0 ∷ []) ≡ ok 0
unfolding parse_status status_loop new_decoder read_prefix_int
no_status = refl

dynamic : parse_status (1 ∷ 0 ∷ []) ≡ err dynamic_table
unfolding parse_status status_loop new_decoder read_prefix_int
dynamic = refl

abbrev later_frames : List (ℕ × List ℕ)
later_frames = (0x21, 106 ∷ []) ∷ (0, 1 ∷ 2 ∷ []) ∷ (0, 3 ∷ []) ∷ []

-- HEADERS, a frame of an unknown type, and two DATA frames, cut inside frames.
abbrev ok_chunks : List (List ℕ)
ok_chunks =
    (1 ∷ 3 ∷ 0 ∷ [])
    ∷ (0 ∷ 0xD9 ∷ 0x21 ∷ 1 ∷ 106 ∷ 0 ∷ [])
    ∷ (2 ∷ 1 ∷ [])
    ∷ (2 ∷ 0 ∷ 1 ∷ 3 ∷ [])
    ∷ []

finish_ok_example :
    let fed = feed_all 4 ok_chunks (register_request 4 new_h3) in
    (fed.1 ≡ []) × ((finish 4 fed.0).1 ≡ responded 4 (data_of later_frames) ∷ [])
unfolding joined frames_bytes frame_bytes varint_bytes has_data
finish_ok_example =
    finish_ok 4 block_200 later_frames ok_chunks new_h3 status_200 (omega arith) (omega arith)
      ((λ e. omega arith), ((λ e. omega arith), ((λ e. omega arith), tt))) refl refl

abbrev some_calls : List Call
some_calls = feeds 4 (0 ∷ 1 ∷ 7 ∷ []) ∷ registers 8 ∷ resets 4 ∷ finishes 4 ∷ finishes 8 ∷ []

count-run_example :
    let h = register_request 4 new_h3 in
    count_for 4 (run some_calls h).1 + open_in 4 (run some_calls h).0 ≤ open_in 4 h
count-run_example =
    count-run 4 some_calls (register_request 4 new_h3)
      (tt, ((λ e. omega arith), (tt, (tt, (tt, tt)))))

trailers_fail_example :
    (finish 4
      (feed_all 4
        ((1 ∷ 3 ∷ 0 ∷ 0 ∷ 0xD9 ∷ 0 ∷ 1 ∷ 7 ∷ []) ∷ (1 ∷ 2 ∷ 0 ∷ 0 ∷ []) ∷ [])
        (register_request 4 new_h3)).0).1
    ≡ failed 4 ∷ []
unfolding joined frames_bytes frame_bytes varint_bytes
trailers_fail_example =
    trailers_fail 4 block_200 (7 ∷ []) (0 ∷ 0 ∷ [])
      ((1 ∷ 3 ∷ 0 ∷ 0 ∷ 0xD9 ∷ 0 ∷ 1 ∷ 7 ∷ []) ∷ (1 ∷ 2 ∷ 0 ∷ 0 ∷ []) ∷ []) new_h3 status_200
      no_status (omega arith) refl

split_type_misread_example :
    (find_key 3 (feed 3 (0x41 ∷ 0 ∷ []) new_h3).0.streams ≡ some sink)
    × ((p : FrameParser) × (find_key 3 (feed_all 3 ((0x41 ∷ []) ∷ (0 ∷ []) ∷ []) new_h3).0.streams
          ≡ some (server_uni (some stream_type_control) p)))
unfolding find_key
split_type_misread_example = split_type_misread 3 0x41 [] new_h3 refl (omega arith) (omega arith)
