-- ===== src/Tests/Workers.antt =====
-- url.rs, shared.rs and worker.rs at concrete inputs.
use nix_config.Common.{
  keys_where, Distinct, ℕ, zero, All, All-append, suc, ◌+◌, ◌*◌, ◌≤◌, ◌<◌, ◌≡◌, refl, List, [], ◌∷◌,
  ◌++◌, true, false, none, some, if◌then◌else◌, take, drop, replicate, codes, arith,
}
use nix_config.Url.{authority_of, contains, show_u16, show_digits}
use nix_config.Shared.Address.{v4, from_ip, to_ip}
use nix_config.Shared.Upstream.{
  UpstreamSet, total, slot_for, slot_loop, slot_target, weight_of, ip_eq, ip_position,
}
use nix_config.Shared.Upstream.Slots.{slot_for_interval}
use nix_config.Shared.Resolve.{SharedResolve, new_page, read_set}
use nix_config.Shared.Seqlock.{
  Publication, Turn, StoresInOrder, set_count, next_store, store_one, writes, reads, turns, turn,
  writer_step, reader_step, publish_writes, data_writes, entry_writes, clear_writes, apply_write,
  idle, returned,
}
use nix_config.Shared.Seqlock.Writes.{Committed}
use nix_config.Shared.Seqlock.Alone.{read_untorn}
use nix_config.Shared.Seqlock.Torn.{read_torn}
use nix_config.Worker.Quality.{Quality, on_failure}
use nix_config.Worker.Migration.{
  migration_target, failing_target, best_alternative, best_loop, second,
}
use nix_config.Worker.Dispatch.{Config, padded, request_bytes}
use nix_config.Worker.Dispatch.Get.{request_bytes-get}
use nix_config.Base64url.Decode.{decode64}
use nix_config.H3.Request.{encode_request}
use nix_config.H3.Streams.{new_h3}
use nix_config.Dns.Validate.{validate_query}
use nix_config.Dns.Question.{question_end, question_loop}
use nix_config.Dns.Servfail.{build_servfail, kept_len, mark_servfail, zero_counts}
use nix_config.Worker.Requests.{
  Requests, QuicReply, Link, receive, accept, send_servfail, give_up_all, expired_keys,
  expire_pending, expire_front, expire_queue,
}
use nix_config.Worker.Requests.Held.{Held, held_total}
use nix_config.Worker.Requests.Calls.{
  Call, receives, expires, run, step, accepted, FreshRun, run-Balanced,
}

bracketed : authority_of (codes "::1") 8443 ≡ codes "[::1]:8443"
unfolding authority_of contains show_u16 show_digits
bracketed = refl

abbrev three_two_one : UpstreamSet
three_two_one = record {
  addrs = v4 1 1 1 1 ∷ v4 8 8 8 8 ∷ v4 9 9 9 9 ∷ [];
  weights = 3 ∷ 2 ∷ 1 ∷ [];
  revision = 1;
  workers = 6;
  published_mono_secs = 0;
}

slot_for_interval_example :
    (k : ℕ) × (slot_for three_two_one 3 ≡ some k)
    × (k < 3)
    × (total (take k three_two_one.weights) * 12 ≤ (2 * 3 + 1) * total three_two_one.weights)
    × ((2 * 3 + 1) * total three_two_one.weights < total (take (suc k) three_two_one.weights) * 12)
slot_for_interval_example =
    slot_for_interval three_two_one 3 refl (omega arith) (unfold total in omega arith)
      (unfold total in omega arith)

fourth_slot : slot_for three_two_one 3 ≡ some 1
unfolding slot_for slot_loop slot_target total
fourth_slot = refl

abbrev slow : Quality
slow = record { ewma_us = 20000; ok_requests = 9; failed = 0 }

moves : migration_target three_two_one (v4 9 9 9 9) 3 (11 * second) 0 0 ≡ some (v4 1 1 1 1)
unfolding migration_target failing_target best_alternative best_loop weight_of ip_eq ip_position
moves = refl

abbrev config : Config
config = record {
  authority = codes "dns.google";
  path = codes "/q";
  token = none;
  pad = false;
  timeout = 3000;
}

abbrev tiny_query : List ℕ
tiny_query = 7 ∷ 8 ∷ 1 ∷ 0 ∷ 0 ∷ 1 ∷ 0 ∷ 0 ∷ 0 ∷ 0 ∷ 0 ∷ 0 ∷ 0 ∷ 0 ∷ 1 ∷ 0 ∷ 1 ∷ []

not_padded : padded false tiny_query ≡ some tiny_query
unfolding padded
not_padded = refl

request_bytes-get_example :
    (b64 : List ℕ) × (request_bytes config tiny_query
      ≡ some (
          encode_request []
            (codes "GET")
            (codes "dns.google")
            (codes "/q" ++ ((if contains 63 (codes "/q") then 38 else 63) ∷ (codes "dns=" ++ b64)))
            none
            none))
    × (decode64 b64 ≡ 0 ∷ 0 ∷ drop 2 tiny_query)
request_bytes-get_example =
    request_bytes-get config tiny_query tiny_query (omega arith) not_padded (omega arith)
      (omega arith)

abbrev fresh_requests : Requests
fresh_requests = record { h3 = new_h3; pending = []; queue = []; quality = slow; sent = [] }

abbrev handshaking : Link
handshaking = record { goaway = false; has_conn = true; h3_ready = false }

abbrev no_stream : QuicReply
no_stream = record { opened = none; written = false; finished = false }

abbrev calls : List Call
calls = receives handshaking no_stream tiny_query 5 0 ∷ expires 4000 ∷ []

abbrev answered : Requests
answered = record {
  h3 = new_h3;
  pending = [];
  queue = [];
  quality = record { ewma_us = 20000; ok_requests = 9; failed = 1 };
  sent = (7 ∷ 8 ∷ 129 ∷ 130 ∷ 0 ∷ 1 ∷ 0 ∷ 0 ∷ 0 ∷ 0 ∷ 0 ∷ 0 ∷ 0 ∷ 0 ∷ 1 ∷ 0 ∷ 1 ∷ [], 5) ∷ [];
}

ran : run config calls fresh_requests ≡ some answered
unfolding run step receive accept validate_query expire_pending expired_keys keys_where give_up_all
    expire_queue expire_front send_servfail build_servfail kept_len mark_servfail zero_counts
    question_end question_loop on_failure
ran = refl

fresh_run : FreshRun config calls fresh_requests
unfolding FreshRun step receive accept validate_query
fresh_run = (tt, (tt, tt))

run-Balanced_example :
    Held answered × (held_total answered ≡ held_total fresh_requests + accepted calls)
run-Balanced_example =
    run-Balanced config calls fresh_requests answered
      (record { distinct = unfold Distinct in tt; pending_long = tt; queue_long = tt }) fresh_run
      ran

abbrev one_publication : Publication
one_publication = record {
  given_addrs = v4 1 1 1 1 ∷ [];
  given_weights = 3 ∷ [];
  given_workers = 4;
  now = 100;
  later = 100;
  ttl = 300;
}

-- The 25 steps of the writer, and then a call of the reader.
abbrev schedule : List Turn
schedule = replicate 25 (writes 0) ++ replicate 9 reads

abbrev one_set : UpstreamSet
one_set = record {
  addrs = v4 1 1 1 1 ∷ [];
  weights = 3 ∷ [];
  revision = 1;
  workers = 4;
  published_mono_secs = 100;
}

read_through :
    (turns 0 schedule (record {
      page = new_page;
      writing = [];
      publications = one_publication ∷ [];
      reader = idle;
    })).reader
    ≡ returned (some one_set)
unfolding turns turn writer_step reader_step publish_writes data_writes entry_writes clear_writes
    apply_write from_ip to_ip next_store store_one
read_through = refl

All-replicate : (n : ℕ) (t : Turn) → StoresInOrder t → All StoresInOrder (replicate n t)
All-replicate zero t h = tt
All-replicate (suc n) t h = (h, All-replicate n t h)

in_program_order : All StoresInOrder schedule
in_program_order =
    All-append StoresInOrder (replicate 25 (writes 0)) (replicate 9 reads)
      (All-replicate 25 (writes 0) tt) (All-replicate 9 reads tt)

read_untorn_example :
    (page : SharedResolve) × (rest : List Publication) × Committed new_page
      (one_publication ∷ [])
      page
      rest
    × (one_set ≡ read_set page)
read_untorn_example =
    read_untorn new_page (one_publication ∷ []) 0 schedule one_set refl (omega arith)
      in_program_order read_through

read_torn_example :
    (ts : List Turn) × ((turns 5 ts (record {
      page = new_page;
      writing = [];
      publications = one_publication ∷ [];
      reader = idle;
    })).reader
      ≡ returned (some (read_set (apply_write (set_count 1) new_page))))
unfolding data_writes
read_torn_example =
    read_torn new_page one_publication [] 5 0 (set_count 1) refl (λ e. absurd (omega arith)) refl
