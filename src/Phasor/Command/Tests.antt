-- ===== src/Phasor/Command/Tests.antt =====
-- A command frame of the code.
use sparcs.Prelude.{
  ◌+◌, ◌*◌, ◌%◌, ◌^◌, ◌≡◌, false, [], ◌∷◌, ◌++◌, get_or, take, be16, be32, foldl, ltb,
}
use sparcs.Phasor.Buffer.Inv.{frame_type}
use sparcs.Phasor.Cfg.{Platform}
use sparcs.Phasor.Channel.Stream.{Frames}
use sparcs.Phasor.Channel.Deliver.{IsFrame}
use sparcs.Phasor.Command.{send_command}
use sparcs.Phasor.Command.Wire.{send_command_lem}

abbrev platform : Platform
platform = record { crc_ccitt = foldl (λ s x. (s * 31 + x) % 65536) 65535; isprint = λ c. ltb 31 c }

send_command_example :
    let f = send_command platform 1500000000 5 false 0 in
    IsFrame f
    × Frames f (f ∷ []) []
    × (frame_type f ≡ 4)
    × (be32 (get_or f 6 0) (get_or f 7 0) (get_or f 8 0) (get_or f 9 0) ≡ 1500000000)
    × (get_or f 15 0 ≡ 5)
    × (be16 (get_or f 16 0) (get_or f 17 0) ≡ platform.crc_ccitt (take 16 f ++ 0 ∷ 0 ∷ []) % 2 ^ 16)
send_command_example = send_command_lem platform 1500000000 5 0
