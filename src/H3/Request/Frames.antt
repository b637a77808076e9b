-- ===== src/H3/Request/Frames.antt =====
-- h3.rs: a request read back with the client's own frame parser and field-section decoder.
use nix_config.Common.{ℕ, ◌^◌, ◌<◌, ◌≡◌, List, [], Option, none, some, length}
use nix_config.H3.Frames.{FrameParser, next_frame, empty_parser}
use nix_config.H3.Frames.RoundTrip.{frame_bytes}
use nix_config.H3.Request.{frame_data}

-- The frames of a body, if there is one.
unfoldable pub Carries : Option (List ℕ) → FrameParser → Type 0
Carries none p = p.buf ≡ []
Carries (some b) p = next_frame p ≡ some ((frame_data, b), empty_parser)

body_bytes : Option (List ℕ) → List ℕ
body_bytes none = []
body_bytes (some b) = frame_bytes frame_data b

abbrev ShortBody : Option (List ℕ) → Type 0
ShortBody none = Unit
ShortBody (some b) = length b < 2 ^ 62
