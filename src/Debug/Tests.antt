-- ===== src/Debug/Tests.antt =====
-- The debug files at concrete inputs.
use wcn36xx.Common.{
  ℕ, ◌+◌, ◌-◌, ◌*◌, ◌≡◌, refl, true, false, if◌then◌else◌, leb, ◌&&◌, Option, none, some, List, [],
  ◌∷◌, ◌++◌, zeros, arith,
}
use wcn36xx.Smd.State.{Hal, refused}
use wcn36xx.Smd.Scan.{dump_cmd_msg}
use wcn36xx.Pmc.State.{Vif, bmps}
use wcn36xx.Debug.Bmps.{
  Listed, bytes, write_file_bool_bmps, read_file_bool_bmps,
  write_file_bool_bmps-read_file_bool_bmps,
}
use wcn36xx.Debug.Dump.{join, Parsed, write_file_dump, write_file_dump-join}
use wcn36xx.Debug.Files.{Dfs, dir, file, bmps_switcher, dump, debugfs_init, debugfs_exit}

abbrev unwilling : Hal
unwilling = record {
  buf = zeros 4096;
  rsp_len = 0;
  completed = false;
  ind_queue = [];
  ind_pending = false;
  sent = [];
  replies = refused 4 ∷ [];
  allocs = [];
}

abbrev asleep : Vif
asleep = record { bss_index = 1; sync_tsf = 1000; dtim_period = 2; pw_state = bmps }

-- An access point and a station in power save.
abbrev two : List Listed
two = record { is_station = false; vif = asleep } ∷ record { is_station = true; vif = asleep } ∷ []

write_file_bool_bmps-read_file_bool_bmps_example :
    let w = write_file_bool_bmps 7 true (b'n' ∷ b'\n' ∷ []) two unwilling in
    (w.0 ≡ bytes 2) × (read_file_bool_bmps 9 w.1 2 0 ≡ b'0' ∷ b'\n' ∷ [])
write_file_bool_bmps-read_file_bool_bmps_example =
    write_file_bool_bmps-read_file_bool_bmps 7 9 b'n' (b'\n' ∷ []) two unwilling refl

-- Without a station interface the file holds what was on the stack.
stack_byte : read_file_bool_bmps 9 [] 2 0 ≡ 9 ∷ b'\n' ∷ []
unfolding read_file_bool_bmps
stack_byte = refl

-- Decimal digits as a number.
abbrev decimal_from : ℕ → List ℕ → Option ℕ
decimal_from n [] = some n
decimal_from n (c ∷ cs) =
    let rest = decimal_from (n * 10 + (c - b'0')) cs in
    if leb b'0' c && leb c b'9' then rest else none

abbrev decimal : List ℕ → Option ℕ
decimal [] = none
decimal (c ∷ cs) = decimal_from 0 (c ∷ cs)

abbrev ten : List ℕ
ten = b'1' ∷ b'0' ∷ []

abbrev seven : List ℕ
seven = b'7' ∷ []

ten-seven : Parsed decimal ten 10 (seven ∷ []) (7 ∷ [])
ten-seven = ((refl, refl, (refl, refl, tt)), refl, ((refl, refl, tt), refl))

write_file_dump-join_example :
    let w = write_file_dump decimal true (join ten (seven ∷ [])) unwilling in
    (w.0 ≡ bytes 4) × (w.1.sent ≡ [] ++ (dump_cmd_msg 10 7 0 0 0 ∷ []))
write_file_dump-join_example =
    write_file_dump-join decimal ten 10 (seven ∷ []) (7 ∷ []) unwilling (omega arith) (omega arith)
      ten-seven

abbrev empty : Dfs
empty = record { rootdir = none; entries = dir 3 ∷ [] }

leftover :
    (debugfs_exit (debugfs_init none true true empty)).entries
    ≡ file none dump ∷ file none bmps_switcher ∷ dir 3 ∷ []
unfolding debugfs_exit debugfs_init
leftover = refl
