-- ===== src/Bootstrap/Limits.antt =====
-- bootstrap.rs: how a resolution ends.
use nix_config.Common.{
  ℕ, suc, ◌+◌, ◌*◌, ◌<◌, ◌≡◌, inl, inr, refl, sym, ap, ◌∙◌, List, [], ◌∷◌, ◌++◌, true, false,
  Option-cases, Option, none, some, Result, ok, err, ◌==◌, min, arith,
}
use nix_config.Shared.Address.{IpAddr}
use nix_config.Worker.Migration.{second}
use nix_config.Worker.Quality.{u32_max}
use nix_config.Bootstrap.Answers.{Packet, parse_response}
use nix_config.Bootstrap.Query.{
  Attempt, send_failed, recv_failed, received, QueryError, io_error, no_response, attempt_loop,
  last_error, Exchange, query, answered_by, later_error, resolve, resolved, add_family,
}
use nix_config.Bootstrap.Async.{AsyncResolve, take_datagram, take_datagrams, on_readable, both}

-- With one ID for both queries, no datagram sets the answer for version 4.
take_datagram_a :
    (parse : List ℕ → Option Packet) (buf : List ℕ) (r : AsyncResolve)
    → r.id_aaaa ≡ r.id_a
    → let r' = take_datagram parse buf r in (r'.a ≡ r.a) × (r'.id_aaaa ≡ r'.id_a)
unfolding take_datagram
take_datagram_a parse buf r e = elim (Option-cases (parse_response parse buf r.id_aaaa)) [
  | inl other ↦
      let other' : parse_response parse buf r.id_a ≡ none =
        ap (λ id. parse_response parse buf id) (sym e) ∙ other in
      rw (take_datagram, other, other') (refl, e)
  | inr (answer, found) ↦ rw (take_datagram, found) (refl, e)
]

take_datagrams_a :
    (parse : List ℕ → Option Packet) (bufs : List (List ℕ)) (r : AsyncResolve)
    → r.id_aaaa ≡ r.id_a
    → (take_datagrams parse bufs r).a ≡ r.a
unfolding take_datagrams
take_datagrams_a parse [] r e = refl
take_datagrams_a parse (buf ∷ bufs) r e =
    let (same, ids) = take_datagram_a parse buf r e in
    take_datagrams_a parse bufs (take_datagram parse buf r) ids ∙ same

half : (aaaa : Option (List IpAddr × ℕ)) → both aaaa none ≡ false
half none = refl
half (some answer) = refl

-- Two queries with one ID, that for version 4 not yet answered: no datagrams complete the resolution.
pub on_readable-equal_ids :
    (parse : List ℕ → Option Packet) (bufs : List (List ℕ)) (r : AsyncResolve)
    → r.id_aaaa ≡ r.id_a
    → r.a ≡ none
    → ((on_readable parse bufs r).1 ≡ none) × ((on_readable parse bufs r).0.a ≡ none)
unfolding on_readable
on_readable-equal_ids parse bufs r e unanswered =
    let same = take_datagrams_a parse bufs r e ∙ unanswered in
    rw (same, half (take_datagrams parse bufs r).aaaa) (refl, refl)

-- The first answer, else the given result.
abbrev pub first_of :
    List (Option (List IpAddr × ℕ))
    → Result QueryError (List IpAddr × ℕ)
    → Result QueryError (List IpAddr × ℕ)
first_of [] rest = rest
first_of (none ∷ answers) rest = first_of answers rest
first_of (some r ∷ answers) rest = ok r

attempt_step :
    (parse : List ℕ → Option Packet) (replies : ℕ → Attempt) (id left i : ℕ) (last : Option ℕ)
    (answers : List (Option (List IpAddr × ℕ))) (rest : Result QueryError (List IpAddr × ℕ))
    → attempt_loop parse replies id left (i + 1) (later_error (replies i) last)
      ≡ first_of answers rest
    → attempt_loop parse replies id (suc left) i last
      ≡ first_of (answered_by parse id (replies i) ∷ answers) rest
unfolding attempt_loop
attempt_step parse replies id left i last answers rest e =
    elim (Option-cases (answered_by parse id (replies i))) [
      | inl none_here ↦ rw (attempt_loop, none_here) e
      | inr (r, here) ↦ rw (attempt_loop, here) refl
    ]

-- The answer that an attempt receives, and the error that it meets.
unfoldable pub answer_to : (List ℕ → Option Packet) → ℕ → Attempt → Option (List IpAddr × ℕ)
answer_to parse id (send_failed e) = none
answer_to parse id (recv_failed e) = none
answer_to parse id (received buf) = parse_response parse buf id

unfoldable pub error_of : Attempt → Option ℕ
error_of (send_failed e) = some e
error_of (recv_failed e) = some e
error_of (received buf) = none

-- The first error of a list, which has the last attempt first.
unfoldable pub latest_error : List (Option ℕ) → QueryError
latest_error [] = no_response
latest_error (none ∷ errors) = latest_error errors
latest_error (some e ∷ errors) = io_error e

answer_to-same :
    (parse : List ℕ → Option Packet) (id : ℕ) (x : Attempt)
    → answered_by parse id x ≡ answer_to parse id x
unfolding answer_to
answer_to-same parse id (send_failed e) = refl
answer_to-same parse id (recv_failed e) = refl
answer_to-same parse id (received buf) = refl

latest-error :
    (x : Attempt) (last : Option ℕ) (errors : List (Option ℕ))
    → last_error last ≡ latest_error errors
    → last_error (later_error x last) ≡ latest_error (error_of x ∷ errors)
unfolding error_of latest_error
latest-error (send_failed e) last errors h = refl
latest-error (recv_failed e) last errors h = refl
latest-error (received buf) last errors h = h

-- Where the packet is built and the socket is set up: the result is the answer of the first of three
-- attempts that has one; without one, it is the error of the last attempt that met one in sending or
-- receiving, and that of no response where none did.
pub query_attempts :
    (parse : List ℕ → Option Packet) (x : Exchange)
    → x.built ≡ true
    → x.bind_error ≡ none
    → let a = answer_to parse x.id in
      let e =
        latest_error
          (error_of (x.replies 2) ∷ error_of (x.replies 1) ∷ error_of (x.replies 0) ∷ []) in
      query parse x ≡ first_of (a (x.replies 0) ∷ a (x.replies 1) ∷ a (x.replies 2) ∷ []) (err e)
unfolding query
query_attempts parse x built bound =
    let last1 = later_error (x.replies 0) none in
    let last2 = later_error (x.replies 1) last1 in
    let last3 = later_error (x.replies 2) last2 in
    let rest = err (last_error last3) in
    let a = answered_by parse x.id in
    let no_error : last_error none ≡ latest_error [] = unfold latest_error in refl in
    let same =
      latest-error (x.replies 2) last2 _
        (latest-error (x.replies 1) last1 _ (latest-error (x.replies 0) none [] no_error)) in
    rw
      (
        query,
        built,
        bound,
        sym (answer_to-same parse x.id (x.replies 0)),
        sym (answer_to-same parse x.id (x.replies 1)),
        sym (answer_to-same parse x.id (x.replies 2)),
        sym same,
      )
      (attempt_step parse x.replies x.id 2 0 none (a (x.replies 1) ∷ a (x.replies 2) ∷ []) rest (
        attempt_step parse x.replies x.id 1 1 last1 (a (x.replies 2) ∷ []) rest
          (attempt_step parse x.replies x.id 0 2 last2 [] rest (unfold attempt_loop in refl))))

-- The first resolution, with an answer for both families: it expires after the lower TTL of the two, be it
-- 30 seconds or less.
pub resolve_lower_ttl :
    (parse : List ℕ → Option Packet) (aaaa a : Exchange) (now : ℕ) (v6s v4s : List IpAddr)
    (ip : IpAddr) (t6 t4 : ℕ)
    → query parse aaaa ≡ ok (ip ∷ v6s, t6)
    → query parse a ≡ ok (v4s, t4)
    → 0 < t6
    → 0 < t4
    → t6 < u32_max
    → resolve parse none aaaa a now
      ≡ some (record { addrs = ip ∷ (v6s ++ v4s); expires_at = now + min t6 t4 * second })
unfolding resolve resolved add_family
resolve_lower_ttl parse aaaa a now v6s v4s ip t6 t4 e f some6 some4 bound =
    let capped : min u32_max t6 ≡ t6 = omega arith in
    let below : (min t6 t4 == u32_max) ≡ false = ground arith in
    let some_ttl : (min t6 t4 == 0) ≡ false = ground arith in
    rw (resolve, e, f, capped, below, some_ttl) refl
