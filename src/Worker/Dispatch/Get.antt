-- ===== src/Worker/Dispatch/Get.antt =====
-- worker.rs: what a GET carries.
use nix_config.Common.{
  ℕ, zero, suc, ◌≤◌, ◌≡◌, ◌∙◌, refl, ap, List, [], ◌∷◌, ◌++◌, append-nil, true, none, some,
  if◌then◌else◌, leb, length, drop, replicate, codes, All, IsByte, length-replicate, arith,
}
use nix_config.Base64url.{encoded_len, encode_into}
use nix_config.Base64url.Decode.{decode64, decode-encode_into}
use nix_config.H3.Request.{encode_request}
use nix_config.Url.{contains}
use nix_config.Worker.Dispatch.{Config, padded, zero_id, query_ref, get_path, request_bytes}

drop-replicate : (n : ℕ) → ◌≡◌ {A = List ℕ} (drop n (replicate n 0)) []
drop-replicate zero = refl
drop-replicate (suc n) = drop-replicate n

zero_id-long : (buf : List ℕ) → 2 ≤ length buf → zero_id buf ≡ 0 ∷ 0 ∷ drop 2 buf
unfolding zero_id
zero_id-long [] h = absurd (omega arith)
zero_id-long (a ∷ []) h = absurd (omega arith)
zero_id-long (a ∷ b ∷ buf) h = ground arith

All-drop_two : (buf : List ℕ) → All IsByte buf → All IsByte (drop 2 buf)
All-drop_two [] h = tt
All-drop_two (a ∷ []) h = tt
All-drop_two (a ∷ b ∷ buf) (ha, (hb, h)) = h

query_ref-get :
    (cfg : Config) (query buf : List ℕ)
    → length query ≤ 1400
    → padded cfg.pad query ≡ some buf
    → query_ref cfg query ≡ some (zero_id buf)
unfolding query_ref
query_ref-get cfg query buf short e =
    let small : leb (length query) 1400 ≡ true = ground arith in rw (query_ref, e, small) refl

get_path-some :
    (path wire b64 : List ℕ) (n : ℕ)
    → encode_into wire (replicate (encoded_len (length wire)) 0) ≡ some (b64, n)
    → get_path path wire
      ≡ some (path ++ ((if contains 63 path then 38 else 63) ∷ (codes "dns=" ++ b64)))
unfolding get_path
get_path-some path wire b64 n e = rw (get_path, e) refl

request_bytes-some :
    (cfg : Config) (query wire path : List ℕ)
    → length query ≤ 1400
    → query_ref cfg query ≡ some wire
    → get_path cfg.path wire ≡ some path
    → request_bytes cfg query
      ≡ some (encode_request [] (codes "GET") cfg.authority path cfg.token none)
unfolding request_bytes
request_bytes-some cfg query wire path short e e' =
    let small : leb (length query) 1400 ≡ true = ground arith in
    rw (request_bytes, e, small, e') refl

-- A query of at most 1400 bytes goes out as a GET without a body. Its path is the configured one, then
-- `&` or `?`, then `dns=`, and a text that decodes to the query, padded where the configuration says so,
-- with its ID zeroed. The padding does not panic, and the query is made of two bytes at least.
pub request_bytes-get :
    (cfg : Config) (query buf : List ℕ)
    → length query ≤ 1400
    → padded cfg.pad query ≡ some buf
    → 2 ≤ length buf
    → All IsByte buf
    → (b64 : List ℕ) × (request_bytes cfg query
        ≡ some (
            encode_request []
              (codes "GET")
              cfg.authority
              (cfg.path ++ ((if contains 63 cfg.path then 38 else 63) ∷ (codes "dns=" ++ b64)))
              cfg.token
              none))
      × (decode64 b64 ≡ 0 ∷ 0 ∷ drop 2 buf)
request_bytes-get cfg query buf short e long bytes =
    let wire : List ℕ = 0 ∷ 0 ∷ drop 2 buf in
    let room = encoded_len (length wire) in
    let (written, encoded, _, decoded) =
      decode-encode_into wire (replicate room 0)
        (omega arith, (omega arith, All-drop_two buf bytes))
        (omega (arith, length-replicate {A = ℕ} room 0)) in
    let exact : written ++ drop room (replicate room 0) ≡ written =
      rw (drop-replicate room) (append-nil written) in
    let ref = query_ref-get cfg query buf short e ∙ ap some (zero_id-long buf long) in
    let path = get_path-some cfg.path wire written room (rw exact at encoded) in
    (written, request_bytes-some cfg query wire _ short ref path, decoded)
