-- ===== src/Phasor/Cfg/Tests.antt =====
-- Configuration frames through the parser.
use sparcs.Prelude.{
  ℕ, ◌+◌, ◌*◌, ◌%◌, ◌≡◌, refl, List, [], ◌∷◌, ◌++◌, some, arith, foldl, ltb, replicate, drop,
}
use sparcs.Phasor.Cfg.{Platform, CfgData, parse_cfg_msg}
use sparcs.Phasor.Cfg.Refuse.{IsGood, IsFilled, parse_accepts}

abbrev platform : Platform
platform = record { crc_ccitt = foldl (λ s x. (s * 31 + x) % 65536) 65535; isprint = λ c. ltb 31 c }

-- A second configuration frame with one PMU that has no channels, but for its checksum.
abbrev cfg_body : List ℕ
cfg_body =
    0xaa
    ∷ 0x31
    ∷ 0
    ∷ 54
    ∷ 0
    ∷ 5
    ∷ 1
    ∷ 2
    ∷ 3
    ∷ 4
    ∷ (replicate 9 0
        ++ 1 ∷ (0x41 ∷ 0x42 ∷ replicate 14 0 ++ (0 ∷ 7 ∷ replicate 12 0 ++ 0 ∷ 30 ∷ [])))

abbrev cfg_frame : List ℕ
cfg_frame = cfg_body ++ 0x45 ∷ 0x0a ∷ []

-- What the parser makes of it: no metadata, and a rate of 0 where the frame says 30.
abbrev descriptor : CfgData
descriptor = record {
  frame_type = 3;
  frame_length = 54;
  c37_version = 1;
  data_stream_id = 5;
  time_stamp = 16908292;
  raw_frac_sec = 0;
  u_sec_frac_sec = 0;
  time_quality = 0;
  time_base = 0;
  num_pmu = 1;
  pmu_metadata = [];
  data_rate = 0;
}

parsed : parse_cfg_msg platform cfg_frame 54 ≡ some (some descriptor)
unfolding parse_cfg_msg
parsed = refl

parse_accepts_example : IsGood platform cfg_frame 54 × IsFilled cfg_frame descriptor
parse_accepts_example =
    parse_accepts platform cfg_frame 54 descriptor (omega arith) (omega arith) parsed

-- The same bytes as a data frame.
abbrev data_frame : List ℕ
data_frame = 0xaa ∷ 0x01 ∷ drop 2 cfg_frame
