-- ===== src/Lib.antt =====
-- microdoh3 (pkgs/microdoh3), a DNS-over-HTTP/3 forwarder: a supervisor and one worker per CPU. A worker
-- reads DNS queries from a UDP socket, checks and pads them, sends each as a request on its QUIC connection,
-- and answers the client with the body of the response, or with SERVFAIL. The supervisor resolves the
-- upstream's name, starts workers and starts them again, and turns the scores that they write to one page of
-- shared memory into the weights that they read from another.
--
-- Files and the code that they model (paths under pkgs/microdoh3/src):
--   Base64url          base64url.rs: `encode_into` for the `dns` parameter of a GET.
--   Dns, Dns/*         dns.rs: `validate_query`, `question_end`, `build_servfail`, `pad_query`.
--   Varint             h3.rs: `varint_encode` and `varint_decode`.
--   Qpack/*            qpack.rs, qpack_static.rs and huffman_table.rs: prefix integers, the encoder of
--                      field sections, the decoder with its iterator, and Huffman strings.
--   H3/Request         h3.rs: `client_preamble` and `encode_request`.
--   H3/Status          h3.rs: `parse_status`.
--   H3/Frames          h3.rs: `FrameParser`.
--   H3/Streams         h3.rs: the struct `H3`, with `register_request`, `feed`, `finish` and `reset`.
--   Url, Url/*         url.rs: `HttpsUrl::parse`.
--   Quic               quic.rs: `read_stream`, `unmap_ip` and `unmap_addr`.
--   Shared/Address     shared.rs: `RawAddr` and `score_from_rtt`.
--   Shared/Upstream    shared.rs: `UpstreamSet` with `slot_for` and `weight_of`; Slots and Equal are about it.
--   Shared/Resolve     shared.rs: the resolve page, `publish` and `read_if_changed`.
--   Shared/Seqlock     shared.rs: the same page under interleaved stores and loads; Untorn, Alone and Torn
--                      are about the sets that are read.
--   Shared/Scores      shared.rs: the scores page, `ScoreWriter::write` and `ScoreReader::read`.
--   Worker/Quality     worker.rs: `Quality`.
--   Worker/Migration   worker.rs: `migration_slot_open`, `best_alternative` and `migration_target`.
--   Worker/Dispatch    worker.rs: the request that `dispatch_query` writes.
--   Worker/Requests    worker.rs: `Pending`, the queue, `dispatch_query`, and what one datagram, one event or
--                      one deadline does to them; Queue/* is about the order and deadlines of the queue.
--   Worker/Connection  worker.rs: all that the loop of `run` keeps, `connect_and_preamble`, the loss of a
--                      connection and the reconnect of `housekeeping`. Its children have the rest of the
--                      loop: Events `process_quic_events` and `flush_queue`; Housekeeping `housekeeping` and
--                      the timer; Turns the start of `run`, `drain_dns` and a turn of its loop. Backoff,
--                      Migrates, Steady/*, Deadlines/* and Timer are about these.
--   Bootstrap/Answers  bootstrap.rs: `parse_response`.
--   Bootstrap/Query    bootstrap.rs: `query`, `resolve` and `resolve_upstream`.
--   Bootstrap/Async    bootstrap.rs: `AsyncResolve` and `rand_id`; Bootstrap/Limits is about both.
--   Supervisor/Cpus    main.rs: `parse_cpumask`, `xps_cpus_of`, `default_route_iface` and
--                      `xps_worker_cpus`; Cpus/Plan `physical_cores` and the CPUs that `main` chooses.
--                      Cores, Masks, Queues and Routes are about these.
--   Supervisor/Restarts    main.rs: `spawn_worker`, `backoff_delay`, `schedule_child_exit`, and the prefork,
--                          restarts, reaping and shutdown of `run`; Kept/* and Lost are about these.
--   Supervisor/Refresh     main.rs: the refresh of the addresses in the loop of `run`, and its poll timeout.
--   Supervisor/Candidates  main.rs: `update_candidates`.
--   Supervisor/Weights     main.rs: `compute_weights`; Weights/* is about it.
--   Supervisor/Publication main.rs: the weights of a round and their publication.
--   Common             operators, lists over the native numbers, association lists and what is filtered out
--                      of them, sorting, results, bits, texts.
--   Tests              runs and instances at concrete inputs.
--
-- How the code is carried over. A byte slice is a list of numbers below 256, a text the list of its UTF-8
-- bytes. Fixed-width sums, shifts and casts wrap as written (`% 2 ^ w`). A mutable argument is an argument
-- and a result; a `HashMap` is an association list; a callback that pushes events returns them. An error is
-- a value of the code's own enum; where an index out of bounds panics, the result is `none`. An instant is a
-- number of nanoseconds since some start, and a duration a number of nanoseconds.
--
-- Bounds on loops. `question_loop` gets one round for each byte after the header, and moves by a byte at
-- least. `frames_loop` gets one round for each buffered byte, and a frame takes two. `take_symbols` gets one
-- round for each bit, and a symbol takes five bits; `match_code` gets the lengths 5 to 30. `status_loop` gets
-- one round for each byte. The loop of `write_prefix_int` is recursion on the order of the numbers.
-- `show_digits` gets five rounds, enough for 16 bits. `attempt_loop` gets the attempts that are left. The
-- loops over a queue, over events, datagrams or a map are recursion on a list: what a socket, `waitpid` or the
-- QUIC library gives before it would block is a finite list.
--
-- The worker and the supervisor. A call of the QUIC library, of `fork`, `waitpid` or of the packet parser is
-- an argument with what it returned; the clock is an argument. A page of shared memory is a value.
-- Shared/Resolve and Shared/Scores take a call of a reader or a writer as one step on it, with the sequence
-- counter that a reader loads last as an argument, since the writer may have gone on by then; Shared/Seqlock
-- takes each store and load of a field of the resolve page as a step: the loads in program order, between the
-- fences of the reader, and the stores of a publication in any order but for the last, which alone has a fence
-- before it. A round of the supervisor reads the clock once here, where the code reads it several times. The
-- entries of a
-- `HashMap`, whose order the code leaves open, stand in the order of insertion, the newest first. The weights
-- take fewer than `2 ^ 31` workers, so that the division by twice their number, which wraps, is none by 0.
--
-- Not modelled: epoll, timers and sockets (event.rs and the socket calls elsewhere), the QUIC library and the
-- rest of its binding (quic.rs), an error of a socket or of the poller, which ends `run` of worker.rs, the
-- child's side of `fork`, the command line, signals and `pin_to_cpu` of main.rs, `build_query` and the
-- unused `is_fresh` of bootstrap.rs, `read_initial` (a spin loop) and the mapping of memory in shared.rs. The
-- allocation of memory and the texts of errors and log lines are left out everywhere.
pub mod Common
pub mod Base64url
pub mod Dns
pub mod Varint
pub mod Qpack
pub mod H3
pub mod Shared
pub mod Url
pub mod Quic
pub mod Worker
pub mod Bootstrap
pub mod Supervisor
mod Tests
