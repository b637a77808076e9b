-- ===== src/Tests/Wire.antt =====
-- Integers, field sections, frames and requests of h3.rs and qpack.rs at concrete inputs.
use nix_config.Common.{
  ℕ, ◌≡◌, refl, List, [], ◌∷◌, ◌++◌, some, ok, codes, map, length, arith, lt_wf, dec_lt,
}
use nix_config.Varint.{varint_bytes, varint_decode}
use nix_config.Varint.RoundTrip.{decode-varint_bytes}
use nix_config.Qpack.PrefixInt.{prefix_int_bytes, groups, read_prefix_int, read_loop}
use nix_config.Qpack.Huffman.{huffman_decode}
use nix_config.Qpack.Section.{Decoder, encode_field_section, new_decoder}
use nix_config.Qpack.Section.Lines.{Yields}
use nix_config.Qpack.Section.RoundTrip.{literal_line, encode_field_section-Yields}
use nix_config.H3.Frames.{empty_parser, feed_parser, for_frames}
use nix_config.H3.Frames.Chunks.{joined, feed_chunks, feed_chunks-joined}
use nix_config.H3.Request.{request_fields}
use nix_config.H3.Streams.{reply_frame, new_reply}

varint_two_bytes : varint_bytes 16383 ≡ 0x7f ∷ 0xff ∷ []
unfolding varint_bytes
varint_two_bytes = refl

decode-varint_bytes_example :
    varint_decode (varint_bytes 16384 ++ 7 ∷ []) ≡ some (16384, length (varint_bytes 16384))
decode-varint_bytes_example = decode-varint_bytes 16384 (7 ∷ []) (omega arith)

prefix_int_1337 : prefix_int_bytes 5 0 1337 ≡ 31 ∷ 154 ∷ 10 ∷ []
unfolding prefix_int_bytes groups lt_wf dec_lt
prefix_int_1337 = refl

read_run : read_prefix_int (31 ∷ 154 ∷ 10 ∷ 7 ∷ []) 5 ≡ ok (1337, 7 ∷ [])
unfolding read_prefix_int read_loop
read_run = refl

abbrev some_fields : List (List ℕ × List ℕ)
some_fields = (codes ":method", codes "GET") ∷ (codes ":path", codes "/dns-query") ∷ []

encode_field_section-Yields_example :
    (d : Decoder) × (new_decoder (encode_field_section some_fields []) ≡ ok d)
    × Yields d (map literal_line some_fields)
encode_field_section-Yields_example = encode_field_section-Yields some_fields (omega arith)

abbrev three_chunks : List (List ℕ)
three_chunks = (0 ∷ []) ∷ (2 ∷ 65 ∷ []) ∷ (66 ∷ []) ∷ []

feed_chunks-joined_example :
    feed_chunks reply_frame three_chunks new_reply empty_parser
    ≡ for_frames reply_frame (feed_parser empty_parser (joined three_chunks)) new_reply
feed_chunks-joined_example =
    feed_chunks-joined reply_frame three_chunks new_reply empty_parser (λ e. cc)

abbrev example_path : List ℕ
example_path = codes "/dns-query?dns=AAAB"

abbrev some_body : List ℕ
some_body = 1 ∷ 2 ∷ 3 ∷ []

abbrev request_block : List ℕ
request_block =
    encode_field_section
      (request_fields (codes "POST") (codes "dns.google") example_path (some (codes "t"))) []

no_cache : huffman_decode (0xa8 ∷ 0xeb ∷ 0x10 ∷ 0x64 ∷ 0x9c ∷ 0xbf ∷ []) ≡ ok (codes "no-cache")
unfolding huffman_decode
no_cache = refl
