-- ===== src/Phasor/Command.antt =====
-- The command frame that the data channel sends: `C37_DataChannel::sendCommand` in
-- C37_DataChannel.cpp, with the offsets of C37_MsgFormats.h. The result is what is handed to
-- `async_write`. The time is the argument `t`, which is not negative. A write outside the vector
-- changes nothing here.
pub mod Wire
mod Tests
use sparcs.Prelude.{
  ℕ, ◌+◌, ◌/◌, ◌%◌, Bool, true, false, List, ◌++◌, [], ◌∷◌, if◌then◌else◌, set, replicate, u32,
}
use sparcs.Phasor.Cfg.{Platform}

-- Several bytes from index `i` on.
abbrev pub put_bytes : ℕ → List ℕ → List ℕ → List ℕ
put_bytes i [] buf = buf
put_bytes i (x ∷ xs) buf = put_bytes (i + 1) xs (set buf i x)

-- The vector before the checksum is written.
unfoldable pub command_body : ℕ → ℕ → ℕ → List ℕ
command_body t command_type data_len =
    let frame_len = u32 (16 + data_len + 2) in
    put_bytes 0
      (0xaa
        ∷ 0x41
        ∷ (frame_len / 256 % 256)
        ∷ (frame_len % 256)
        ∷ 0
        ∷ 1
        ∷ (t / 16777216 % 256)
        ∷ (t / 65536 % 256)
        ∷ (t / 256 % 256)
        ∷ (t % 256)
        ∷ 0
        ∷ 0
        ∷ 0
        ∷ 0
        ∷ 0
        ∷ (command_type % 256)
        ∷ [])
      (replicate frame_len 0)

-- The checksum is taken of the whole vector, its own two bytes included, which are 0 then. The
-- data are not copied.
unfoldable pub send_command : Platform → ℕ → ℕ → Bool → ℕ → List ℕ
unfolding command_body
send_command p t command_type has_data data_len =
    let n = if has_data then data_len else 0 in
    let body = command_body t command_type n in
    let sum = p.crc_ccitt body in
    set (set body (u32 (n + 14 + 2)) (sum / 256 % 256)) (u32 (n + 14 + 3)) (sum % 256)

unfoldable pub send_cfg_1_cmd : Platform → ℕ → List ℕ
unfolding send_command
send_cfg_1_cmd p t = send_command p t 4 false 0

unfoldable pub send_cfg_2_cmd : Platform → ℕ → List ℕ
unfolding send_command
send_cfg_2_cmd p t = send_command p t 5 false 0
