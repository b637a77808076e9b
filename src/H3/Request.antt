-- ===== src/H3/Request.antt =====
-- h3.rs: what the client writes. The preamble of the control stream, and requests. Texts are their
-- bytes.
use nix_config.Common.{ℕ, ◌+◌, List, [], ◌∷◌, ◌++◌, Option, none, some, length, codes}
use nix_config.Varint.{varint_encode}
use nix_config.Qpack.Section.{encode_field_section}
pub mod Frames

abbrev pub frame_data : ℕ
frame_data = 0x00

abbrev pub frame_headers : ℕ
frame_headers = 0x01

abbrev pub frame_settings : ℕ
frame_settings = 0x04

abbrev pub frame_goaway : ℕ
frame_goaway = 0x07

abbrev pub stream_type_control : ℕ
stream_type_control = 0x00

abbrev pub settings_qpack_max_table_capacity : ℕ
settings_qpack_max_table_capacity = 0x01

abbrev pub settings_qpack_blocked_streams : ℕ
settings_qpack_blocked_streams = 0x07

settings_payload : List ℕ
settings_payload = varint_encode 0 (
    varint_encode settings_qpack_blocked_streams
      (varint_encode 0 (varint_encode settings_qpack_max_table_capacity [])))

unfoldable pub client_preamble : List ℕ
unfolding settings_payload
client_preamble =
    varint_encode (length settings_payload)
      (varint_encode frame_settings (varint_encode stream_type_control []))
    ++ settings_payload

abbrev pub base_fields : List ℕ → List ℕ → List ℕ → List (List ℕ × List ℕ)
base_fields method authority path =
    (codes ":method", method)
    ∷ (codes ":scheme", codes "https")
    ∷ (codes ":authority", authority)
    ∷ (codes ":path", path)
    ∷ (codes "accept", codes "application/dns-message")
    ∷ []

abbrev pub request_fields : List ℕ → List ℕ → List ℕ → Option (List ℕ) → List (List ℕ × List ℕ)
request_fields method authority path none = base_fields method authority path
request_fields method authority path (some t) =
    base_fields method authority path ++ (codes "authorization", codes "Bearer " ++ t) ∷ []

-- A frame's type, length and payload, appended.
abbrev pub push_frame : ℕ → List ℕ → List ℕ → List ℕ
push_frame ty payload out = varint_encode (length payload) (varint_encode ty out) ++ payload

unfoldable pub encode_request :
    List ℕ → List ℕ → List ℕ → List ℕ → Option (List ℕ) → Option (List ℕ) → List ℕ
encode_request out method authority path token body =
    let block = encode_field_section (request_fields method authority path token) [] in
    let headers = push_frame frame_headers block out in
    elim body [ none ↦ headers | some b ↦ push_frame frame_data b headers ]
