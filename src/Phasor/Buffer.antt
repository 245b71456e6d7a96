-- ===== src/Phasor/Buffer.antt =====
-- The receive buffer of the synchrophasor channel: C37_Buffer.h and C37_Buffer.cpp.
-- `buffer` is the array of 1024 bytes. `remove_msg_from_buffer` reads one cell past its end when
-- the buffer is full; that cell is the low byte of `maxBufferBytes`, which is 0, and so is the
-- default of `get_or`. The proofs do not depend on it: the cell is copied beyond the valid bytes.
-- `unsigned int` sums wrap at 2 ^ 32.
pub mod Shift
pub mod Inv
pub mod Examine
pub mod Remove
pub mod Receive
pub mod Reach
mod Tests
use sparcs.Prelude.{
  ℕ, zero, suc, ◌+◌, ◌-◌, ◌/◌, ◌≡◌, bit_and, Bool, true, false, ◌||◌, not, List, [], ◌∷◌, ltb, leb,
  if◌then◌else◌, get_or, length, set, replicate, u32, sub_u32, be16,
}

pub data BufState : Type 0 where
  unknown_msg partial_msg complete_msg : BufState

pub record Buffer : Type 0 where
  pub buffer : List ℕ
  pub max_buffer_bytes : ℕ
  pub valid_buffer_bytes : ℕ
  pub buf_state : BufState
  pub msg_len_bytes : ℕ
  pub msg_type : ℕ
  pub msg_counter : ℕ

abbrev pub default_buffer_len : ℕ
default_buffer_len = 1024

-- The constructor. `buffer` and `msgType` are not initialised there; zeros stand for them.
unfoldable pub new_buffer : Buffer
new_buffer = record {
  buffer = replicate default_buffer_len 0;
  max_buffer_bytes = default_buffer_len;
  valid_buffer_bytes = 0;
  buf_state = unknown_msg;
  msg_len_bytes = 0;
  msg_type = 0;
  msg_counter = 0;
}

unfoldable pub init : Buffer → Buffer
init b = record b {
  max_buffer_bytes = default_buffer_len;
  valid_buffer_bytes = 0;
  buf_state = unknown_msg;
  msg_len_bytes = 0;
  msg_counter = 0;
}

unfoldable pub set_bytes_received : ℕ → Buffer → Buffer
set_bytes_received n b = record b { valid_buffer_bytes = u32 (b.valid_buffer_bytes + n) }

-- The `int` that the methods return: a count of bytes, or one of the negative codes of
-- C37_MsgFormats.h. `ERR_ILLEGAL_BUF_STATE` belongs to no value of the state's enumeration.
pub data Status : Type 0 where
  bytes_left : ℕ → Status
  err_msg_larger_than_buffer err_exam_buf_call_out_of_seq err_buf_state_mangled : Status

-- `maxBufferBytes - validBufferBytes`, which is also the size that `getBufferDesc` offers.
abbrev pub space : Buffer → ℕ
space b = sub_u32 b.max_buffer_bytes b.valid_buffer_bytes

-- Where the next bytes go, and how many fit.
unfoldable pub get_buffer_desc : Buffer → ℕ × ℕ
get_buffer_desc b = (b.valid_buffer_bytes, space b)

-- `case partialMsg`
unfoldable pub examine_partial : Buffer → Buffer × Status
examine_partial b =
    if leb b.msg_len_bytes b.valid_buffer_bytes
    then (
      record b { buf_state = complete_msg; msg_counter = u32 (b.msg_counter + 1) },
      bytes_left 0,
    )
    else (b, bytes_left (space b))

-- The length and type fields of the frame at the start of the buffer.
unfoldable pub read_header : Buffer → Buffer
read_header b = record b {
  msg_len_bytes = be16 (get_or b.buffer 2 0) (get_or b.buffer 3 0);
  msg_type = bit_and (get_or b.buffer 1 0) 0x70 / 16;
}

-- `case unknownMsg`, which falls through into `case partialMsg`.
unfoldable pub examine_unknown : Buffer → Buffer × Status
unfolding examine_partial read_header
examine_unknown b =
    let h = read_header b in
    if leb 4 b.valid_buffer_bytes
    then if ltb h.max_buffer_bytes h.msg_len_bytes
      then (h, err_msg_larger_than_buffer)
      else examine_partial (record h { buf_state = partial_msg })
    else (b, bytes_left (space b))

examine_in : BufState → Buffer → Buffer × Status
unfolding examine_unknown examine_partial
examine_in unknown_msg b = examine_unknown b
examine_in partial_msg b = examine_partial b
examine_in complete_msg b = (b, err_exam_buf_call_out_of_seq)

unfoldable pub examine_buffer : Buffer → Buffer × Status
unfolding examine_in
examine_buffer b = examine_in b.buf_state b

-- `for (i; i < i + n; i++) buffer[j++] = buffer[i];`
unfoldable pub move_down : ℕ → ℕ → ℕ → List ℕ → List ℕ
move_down zero i j buf = buf
move_down (suc n) i j buf = move_down n (i + 1) (j + 1) (set buf j (get_or buf i 0))

abbrev pub is_complete : BufState → Bool
is_complete complete_msg = true
is_complete unknown_msg = false
is_complete partial_msg = false

-- The guard that the three `remove` methods share.
unfoldable pub is_mangled : Buffer → Bool
is_mangled b =
    not (is_complete b.buf_state)
    || ltb b.valid_buffer_bytes b.msg_len_bytes
    || ltb b.max_buffer_bytes b.msg_len_bytes

-- The state after the loop: the bytes behind the message have moved to the front.
unfoldable pub drop_msg : Buffer → Buffer
unfolding move_down
drop_msg b = record b {
  buffer = move_down (b.valid_buffer_bytes + 1 - b.msg_len_bytes) b.msg_len_bytes 0 b.buffer;
  valid_buffer_bytes = sub_u32 b.valid_buffer_bytes b.msg_len_bytes;
  buf_state = unknown_msg;
  msg_len_bytes = 0;
}

unfoldable pub remove_msg_from_buffer : Buffer → Buffer × Status
unfolding is_mangled drop_msg
remove_msg_from_buffer b =
    if is_mangled b
    then (b, err_buf_state_mangled)
    else let c = drop_msg b in (c, bytes_left (space c))

-- The loop of `removeC37MsgFromBuffer` and `removeRawMsgFromBuffer`, which copies each byte to
-- `dataBuf` too.
unfoldable pub copy_down : ℕ → ℕ → ℕ → List ℕ → List ℕ → List ℕ × List ℕ
copy_down zero i j out buf = (out, buf)
copy_down (suc n) i j out buf =
    let v = get_or buf i 0 in copy_down n (i + 1) (j + 1) (set out j v) (set buf j v)

unfoldable pub remove_c37_msg_from_buffer : List ℕ → Buffer → List ℕ × Buffer × Status
unfolding is_mangled copy_down
remove_c37_msg_from_buffer out b =
    let (out', buf') =
      copy_down (b.valid_buffer_bytes + 1 - b.msg_len_bytes) b.msg_len_bytes 0 out b.buffer in
    let c = record b {
      buffer = buf';
      valid_buffer_bytes = sub_u32 b.valid_buffer_bytes b.msg_len_bytes;
      buf_state = unknown_msg;
      msg_len_bytes = 0;
    } in
    if is_mangled b then (out, b, err_buf_state_mangled) else (out', c, bytes_left (space c))

-- What `async_read` does before it calls the handler: the bytes go to the region that
-- `getBufferDesc` names, one after another.
unfoldable pub store_bytes : ℕ → List ℕ → List ℕ → List ℕ
store_bytes i [] buf = buf
store_bytes i (x ∷ xs) buf = store_bytes (i + 1) xs (set buf i x)

-- The bytes have been stored and their number reported.
unfoldable pub receive : List ℕ → Buffer → Buffer
unfolding store_bytes set_bytes_received get_buffer_desc
receive xs b =
    set_bytes_received (length xs)
      (record b { buffer = store_bytes (get_buffer_desc b).0 xs b.buffer })
