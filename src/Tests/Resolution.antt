-- ===== src/Tests/Resolution.antt =====
-- The publication of weights and the bootstrap resolution at concrete inputs.
use nix_config.Common.{
  ℕ, ◌+◌, ◌*◌, ◌%◌, ◌^◌, ◌≡◌, refl, List, [], ◌∷◌, map, true, false, Option, none, some,
  if◌then◌else◌, ◌==◌, insert_sorted, sort_by, ok, err, arith,
}
use nix_config.Shared.Address.{IpAddr, v4}
use nix_config.Shared.Resolve.{new_page, read_if_changed}
use nix_config.Worker.Migration.{second}
use nix_config.Supervisor.Weights.{
  compute_weights, measure, greatest, weigh_all, weigh_each, weigh, first_unmeasured,
}
use nix_config.Supervisor.Weights.Shares.{addr_of, weight_in}
use nix_config.Supervisor.Publication.{
  Publication, weights_round, fresh_samples, same_weights, weights_round-read,
}
use nix_config.Supervisor.Refresh.{Refresh}
use nix_config.Supervisor.Refresh.Ends.Rounds.{Steps, last_instant, EndsIn, refresh_rounds_end}
use nix_config.Supervisor.Refresh.Ends.{Round}
use nix_config.Bootstrap.Answers.{
  Packet, a_record, parse_response, read_packet, take_answers, take_answer, answer_ip,
}
use nix_config.Bootstrap.Query.{Exchange, Attempt, received, send_failed, query, attempt_loop}
use nix_config.Bootstrap.Async.{AsyncResolve, on_readable}
use nix_config.Bootstrap.Limits.{
  answer_to, error_of, latest_error, first_of, query_attempts, on_readable-equal_ids,
}

abbrev pair : List IpAddr
pair = v4 1 1 1 1 ∷ v4 8 8 8 8 ∷ []

abbrev unpublished : Publication
unpublished = record { next_weights = 0; published = []; page = new_page }

abbrev equal_weights : List (IpAddr × ℕ)
equal_weights = compute_weights pair (fresh_samples 100 []) 2

weights_changed : same_weights equal_weights [] ≡ false
unfolding compute_weights fresh_samples measure weigh_all weigh_each weigh first_unmeasured sort_by
    insert_sorted same_weights greatest
weights_changed = refl

weights_round-read_example :
    let s' = weights_round pair [] 2 5 100 100 unpublished in
    (read_if_changed 0 s'.page s'.page.seq ≡ (
      s'.page.seq,
      some (record {
        addrs = map addr_of equal_weights;
        weights = map weight_in equal_weights;
        revision = (0 + 1) % 2 ^ 32;
        workers = 2 % 2 ^ 32;
        published_mono_secs = 100;
      }),
    ))
    × ((weights_round pair [] 2 (3 * second) 100 100 s').page ≡ s'.page)
weights_round-read_example =
    weights_round-read pair [] 2 5 100 100 (3 * second) 0 unpublished (omega arith) refl refl refl
      (omega arith) (omega arith) weights_changed

abbrev packet : Packet
packet = record {
  packet_id = 7;
  answers =
      (record { rdata = a_record 16843009; ttl = 20 })
      ∷ (record { rdata = a_record 134744072; ttl = 60 })
      ∷ [];
}

abbrev parse_any : List ℕ → Option Packet
parse_any buf = some packet

abbrev second_reply : ℕ → Attempt
second_reply i = if i == 1 then received [] else send_failed 11

abbrev exchange : Exchange
exchange = record { id = 7; built = true; bind_error = none; replies = second_reply }

query_attempts_example :
    let a = answer_to parse_any 7 in
    let e =
      latest_error
        (error_of (second_reply 2) ∷ error_of (second_reply 1) ∷ error_of (second_reply 0) ∷ []) in
    query parse_any exchange
    ≡ first_of (a (second_reply 0) ∷ a (second_reply 1) ∷ a (second_reply 2) ∷ []) (err e)
query_attempts_example = query_attempts parse_any exchange refl refl

queried : query parse_any exchange ≡ ok (v4 1 1 1 1 ∷ v4 8 8 8 8 ∷ [], 20)
unfolding query attempt_loop parse_response read_packet take_answers take_answer answer_ip
queried = refl

abbrev equal_ids : AsyncResolve
equal_ids = record {
  id_aaaa = 7;
  id_a = 7;
  deadline = 3 * second;
  attempts = 1;
  aaaa = none;
  a = none;
  sent = 1;
}

on_readable-equal_ids_example :
    ((on_readable parse_any ([] ∷ [] ∷ []) equal_ids).1 ≡ none)
    × ((on_readable parse_any ([] ∷ [] ∷ []) equal_ids).0.a ≡ none)
on_readable-equal_ids_example = on_readable-equal_ids parse_any ([] ∷ [] ∷ []) equal_ids refl refl

abbrev at : ℕ → Round
at now = record { now = now; started = none; readable = true; bufs = [] ∷ [] }

abbrev refreshing : Refresh
refreshing = record { pending = some equal_ids; next_refresh = 0; candidates = [] }

abbrev eleven_rounds : List Round
eleven_rounds =
    at (1 * second)
    ∷ at (2 * second)
    ∷ at (3 * second)
    ∷ at (4 * second)
    ∷ at (5 * second)
    ∷ at (6 * second)
    ∷ at (7 * second)
    ∷ at (8 * second)
    ∷ at (9 * second)
    ∷ at (10 * second)
    ∷ at (11 * second)
    ∷ []

each_second : Steps (1 * second) 0 eleven_rounds
unfolding Steps
each_second = (
  omega arith,
  omega arith,
  (
    omega arith,
    omega arith,
    (
      omega arith,
      omega arith,
      (
        omega arith,
        omega arith,
        (
          omega arith,
          omega arith,
          (
            omega arith,
            omega arith,
            (
              omega arith,
              omega arith,
              (
                omega arith,
                omega arith,
                (
                  omega arith,
                  omega arith,
                  (omega arith, omega arith, (omega arith, omega arith, tt)),
                ),
              ),
            ),
          ),
        ),
      ),
    ),
  ),
)

refresh_rounds_end_example : EndsIn parse_any false eleven_rounds refreshing
refresh_rounds_end_example =
    refresh_rounds_end parse_any false (1 * second) 0 eleven_rounds equal_ids refreshing refl
      (omega arith) (omega arith) each_second (unfold last_instant in omega arith)
