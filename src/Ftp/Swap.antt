-- ===== src/Ftp/Swap.antt =====
-- The bytes of a data file before they are offered to the services: `postProcessUPMUdata` and
-- `swapBytesUint` of ftp/serviceDataDiscovery/serviceDataDiscovery.cpp, on a host whose words have
-- the least significant byte first. `none` is an access outside of the buffer.
pub mod Words
mod Tests
use sparcs.Prelude.{
  ℕ, zero, suc, ◌+◌, ◌-◌, ◌*◌, ◌/◌, ◌%◌, Bool, true, false, ◌&&◌, Option, none, some, List, [], ◌∷◌,
  ◌++◌, length, get_or, ltb, ◌==◌, if◌then◌else◌, le_bytes,
}

-- The four masks and shifts. The bytes of a word do not meet, so that `|` adds them.
unfoldable pub swap_bytes_uint : ℕ → ℕ
swap_bytes_uint temp =
    temp / 16777216 % 256
    + temp / 65536 % 256 * 256
    + temp / 256 % 256 * 65536
    + temp % 256 * 16777216

-- A word of the host's memory.
abbrev pub le_word : ℕ → ℕ → ℕ → ℕ → ℕ
le_word a b c d = a + b * 256 + c * 65536 + d * 16777216

-- The inner loop, for `words` words, and then `next` behind them.
abbrev pub swap_words : ℕ → (List ℕ → Option (List ℕ)) → List ℕ → Option (List ℕ)
swap_words zero next bytes = next bytes
swap_words (suc words) next (a ∷ b ∷ c ∷ d ∷ bytes) = elim (swap_words words next bytes) [
  | none ↦ none
  | some rest ↦ some (le_bytes (swap_bytes_uint (le_word a b c d)) ++ rest)
]
swap_words (suc words) next _ = none

-- The outer loop: blocks of 6312 bytes, which are 1578 words, while `dataPtr < dataBuf + dataLen`.
abbrev pub swap_blocks : ℕ → List ℕ → Option (List ℕ)
swap_blocks zero bytes = some bytes
swap_blocks (suc blocks) bytes = swap_words 1578 (swap_blocks blocks) bytes

-- The rounds of the outer loop.
abbrev pub blocks_of : ℕ → ℕ
blocks_of data_len = (data_len + 6311) / 6312

-- The first two bytes of the year's high half decide on the byte order.
unfoldable pub post_process_upmu_data : List ℕ → Option (List ℕ)
post_process_upmu_data buf =
    if ltb (length buf) 6
    then none
    else (if (get_or buf 4 0 == 0) && (get_or buf 5 0 == 0)
        then swap_blocks (blocks_of (length buf)) buf
        else some buf)
