-- ===== src/Shared/Scores.antt =====
-- shared.rs: the scores page, with `ScoreWriter::write` and `ScoreReader::read`. As for the resolve
-- page, the clock and the sequence counter that `read` loads at its end are arguments.
use nix_config.Common.{
  ℕ, ◌+◌, ◌-◌, ◌%◌, ◌^◌, ◌<◌, ◌≡◌, ◌≢◌, refl, List, [], ◌∷◌, Bool, true, Option, none, some,
  if◌then◌else◌, leb, ◌==◌, ◌||◌, ◌&&◌, not, length, get_or, set, min, arith, get_or-set_self,
  get_or-set_ne, sym,
}
use nix_config.Shared.Address.{IpAddr, v4, v6, RawAddr, default_raw, from_ip, to_ip, max_workers}

pub record ScoreSlot : Type 0 where
  pub seq : ℕ
  pub addr : RawAddr
  pub score : ℕ
  pub ok_requests : ℕ
  pub fail_requests : ℕ
  pub flags : ℕ
  pub updated_mono_secs : ℕ

pub record ScoreSample : Type 0 where
  pub addr : Option IpAddr
  pub score : ℕ
  pub ok_requests : ℕ
  pub fail_requests : ℕ
  pub flags : ℕ
  pub updated_mono_secs : ℕ

abbrev pub empty_slot : ScoreSlot
empty_slot = record {
  seq = 0;
  addr = default_raw;
  score = 0;
  ok_requests = 0;
  fail_requests = 0;
  flags = 0;
  updated_mono_secs = 0;
}

unfoldable pub raw_of : Option IpAddr → RawAddr
raw_of none = default_raw
raw_of (some ip) = from_ip ip

-- The slot that `map` claims.
abbrev pub claimed : ℕ → ℕ
claimed idx = min idx (max_workers - 1)

unfoldable pub write_slot : ScoreSample → ℕ → ScoreSlot → ScoreSlot
write_slot sample now s = record {
  seq = (s.seq + 2) % 2 ^ 32;
  addr = raw_of sample.addr;
  score = sample.score;
  ok_requests = sample.ok_requests;
  fail_requests = sample.fail_requests;
  flags = sample.flags;
  updated_mono_secs = now;
}

unfoldable pub write : ℕ → ScoreSample → ℕ → List ScoreSlot → List ScoreSlot
write idx sample now slots =
    set slots (claimed idx) (write_slot sample now (get_or slots (claimed idx) empty_slot))

unfoldable pub all_zero : List ℕ → Bool
all_zero [] = true
all_zero (b ∷ bytes) = (b == 0) && all_zero bytes

unfoldable pub addr_of : RawAddr → Option IpAddr
addr_of raw = if all_zero raw.bytes && (raw.is_v6 == 0) then none else some (to_ip raw)

unfoldable pub read_slot : ScoreSlot → ℕ → Option ScoreSample
read_slot s second =
    if (s.seq == 0) || (s.seq % 2 == 1)
    then none
    else if not (s.seq == second)
    then none
    else some (record {
      addr = addr_of s.addr;
      score = s.score;
      ok_requests = s.ok_requests;
      fail_requests = s.fail_requests;
      flags = s.flags;
      updated_mono_secs = s.updated_mono_secs;
    })

unfoldable pub read : List ScoreSlot → ℕ → ℕ → Option ScoreSample
read slots idx second =
    if leb max_workers idx then none else read_slot (get_or slots idx empty_slot) second

addr_of-raw_of : (addr : Option IpAddr) → addr ≢ some (v4 0 0 0 0) → addr_of (raw_of addr) ≡ addr
unfolding addr_of raw_of from_ip to_ip all_zero
addr_of-raw_of none h = refl
addr_of-raw_of (some (v6 octets)) h = ground arith
addr_of-raw_of (some (v4 a b c d)) h =
    ground
      (arith, λ (ea : a ≡ 0) (eb : b ≡ 0) (ec : c ≡ 0) (ed : d ≡ 0). h (same a b c d ea eb ec ed))
  where
    same :
        (a b c d : ℕ)
        → a ≡ 0
        → b ≡ 0
        → c ≡ 0
        → d ≡ 0
        → ◌≡◌ {A = Option IpAddr} (some (v4 a b c d)) (some (v4 0 0 0 0))
    same a b c d ea eb ec ed = cc

-- A worker with an index below 32 that writes its slot, at rest and not about to wrap to 0: the
-- supervisor reads the sample back from this slot, stamped with the time, unless the address is
-- 0.0.0.0, and every other slot reads as before.
pub read-write :
    (idx j second : ℕ) (sample : ScoreSample) (now : ℕ) (slots : List ScoreSlot)
    → j ≢ idx
    → length slots ≡ 32
    → idx < 32
    → sample.addr ≢ some (v4 0 0 0 0)
    → (get_or slots idx empty_slot).seq % 2 ≡ 0
    → ((get_or slots idx empty_slot).seq + 2) % 2 ^ 32 ≢ 0
    → let written = write idx sample now slots in
      (read written idx (get_or written idx empty_slot).seq
        ≡ some (record sample { updated_mono_secs = now }))
      × (read written j second ≡ read slots j second)
unfolding read read_slot write write_slot
read-write idx j second sample now slots other hl hi ha even nonzero =
    let claim : min idx 31 ≡ idx = omega arith in
    let old : ScoreSlot = get_or slots idx empty_slot in
    let got = get_or-set_self slots idx (write_slot sample now old) empty_slot (omega arith) in
    (
      rw (claim, got) (ground (arith, addr_of-raw_of sample.addr ha)),
      rw
          (
            claim,
            get_or-set_ne slots idx j (write_slot sample now old) empty_slot (λ e. other (sym e)),
          )
          refl,
    )
