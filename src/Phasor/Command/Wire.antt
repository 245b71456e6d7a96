-- ===== src/Phasor/Command/Wire.antt =====
-- A command frame as the receiving side of the same code would read it.
use sparcs.Prelude.{ℕ, ◌%◌, ◌^◌, ◌≡◌, refl, false, [], ◌∷◌, ◌++◌, get_or, take, arith, be16, be32}
use sparcs.Phasor.Buffer.Inv.{frame_type}
use sparcs.Phasor.Cfg.{Platform}
use sparcs.Phasor.Channel.Stream.{Frames, done, next}
use sparcs.Phasor.Channel.Deliver.{IsFrame}
use sparcs.Phasor.Command.{send_command}

-- The frame that `sendCommand` forms without data, as the receiving side of the code would read
-- it: it is one whole frame whose size field is its length, of the type of a command, with the
-- time modulo 2 ^ 32 and the low byte of the command where they belong; its last two bytes are
-- the CRC of its first 16 bytes followed by two zeros.
pub send_command_lem :
    (p : Platform) (t command_type data_len : ℕ)
    → let f = send_command p t command_type false data_len in
      IsFrame f
      × Frames f (f ∷ []) []
      × (frame_type f ≡ 4)
      × (be32 (get_or f 6 0) (get_or f 7 0) (get_or f 8 0) (get_or f 9 0) ≡ t % 2 ^ 32)
      × (get_or f 15 0 ≡ command_type % 256)
      × (be16 (get_or f 16 0) (get_or f 17 0) ≡ p.crc_ccitt (take 16 f ++ 0 ∷ 0 ∷ []) % 2 ^ 16)
unfolding send_command
send_command_lem p t command_type data_len = (
  record { header = omega arith; small = omega arith; sized = refl },
  next (omega arith) (omega arith) (done (λ h. omega arith) refl),
  refl,
  omega arith,
  refl,
  omega arith,
)
