-- ===== src/Worker/Dispatch.antt =====
-- worker.rs: the request that `dispatch_query` writes for a query. `none` is the panic of `pad_query` or
-- `encode_into` on an index out of bounds.
use nix_config.Common.{
  ℕ, ◌+◌, ◌≤◌, ◌<◌, ◌≡◌, List, [], ◌∷◌, ◌++◌, Bool, true, false, ◌&&◌, ◌||◌, Option, none, some,
  if◌then◌else◌, leb, length, set, take, replicate, codes,
}
use nix_config.Base64url.{encoded_len, encode_into}
use nix_config.Dns.Padding.{pad_query}
use nix_config.H3.Request.{encode_request}
use nix_config.Url.{contains}
pub mod Get

abbrev pub get_max_dns_len : ℕ
get_max_dns_len = 1400

-- What `dispatch_query` reads of the configuration; the authority and the path are the upstream URL's.
pub record Config : Type 0 where
  pub authority : List ℕ
  pub path : List ℕ
  pub token : Option (List ℕ)
  pub pad : Bool
  pub timeout : ℕ

unfoldable pub padded : Bool → List ℕ → Option (List ℕ)
padded false query = some query
padded true query = elim (pad_query query 128) [ none ↦ none | some (flag, buf) ↦ some buf ]

-- A GET has the ID zeroed.
unfoldable pub zero_id : List ℕ → List ℕ
zero_id query = if leb 2 (length query) then set (set query 0 0) 1 0 else query

unfoldable pub query_ref : Config → List ℕ → Option (List ℕ)
query_ref cfg query = elim (padded cfg.pad query) [
  | none ↦ none
  | some buf ↦ some (if leb (length query) get_max_dns_len then zero_id buf else buf)
]

unfoldable pub get_path : List ℕ → List ℕ → Option (List ℕ)
get_path path query =
    let sep = if contains 63 path then 38 else 63 in
    elim (encode_into query (replicate (encoded_len (length query)) 0)) [
      | none ↦ none
      | some (b64, n) ↦ some (path ++ (sep ∷ (codes "dns=" ++ b64)))
    ]

unfoldable pub request_bytes : Config → List ℕ → Option (List ℕ)
request_bytes cfg query = elim (query_ref cfg query) [
  | none ↦ none
  | some wire ↦
      if leb (length query) get_max_dns_len
      then (elim (get_path cfg.path wire) [
        | none ↦ none
        | some path ↦ some (encode_request [] (codes "GET") cfg.authority path cfg.token none)
      ])
      else some (encode_request [] (codes "POST") cfg.authority cfg.path cfg.token (some wire))
]
