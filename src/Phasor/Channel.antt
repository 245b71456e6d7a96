-- ===== src/Phasor/Channel.antt =====
-- The synchrophasor data channel: C37_DataChannel.h and C37_DataChannel.cpp. Boost.Asio runs the
-- handlers one at a time; the bytes that an `async_read` delivered are an argument of
-- `read_handler`, and the operation that a handler starts next is part of its result. The `while`
-- loop takes fuel: `none` means that it has not ended. The atomic counters are 64-bit and taken as
-- unbounded. A descriptor is the result of the parser (`Cfg`), in which a stray read is `none`.
pub mod Stream
pub mod Drain
pub mod Deliver
pub mod Stuck
mod Tests
use sparcs.Prelude.{
  ℕ, zero, suc, ◌+◌, ◌*◌, Bool, true, false, Option, none, some, List, [], ◌∷◌, ◌++◌, length, ◌==◌,
  if◌then◌else◌, get_or, be32,
}
use sparcs.Phasor.Buffer.{
  Buffer, Status, bytes_left, err_msg_larger_than_buffer, err_exam_buf_call_out_of_seq,
  err_buf_state_mangled, new_buffer, init, receive, examine_buffer, remove_msg_from_buffer,
  get_buffer_desc,
}
use sparcs.Phasor.Cfg.{Platform, CfgData, parse_cfg_msg, ◌>>=◌}
use sparcs.Phasor.Reformat.{Reformat, SecBuffer, new_reformat, process_c37_event}

pub record Channel : Type 0 where
  pub c37_buf : Buffer
  pub c37reformat : Reformat
  pub cfg_1_descriptor : Option (Option CfgData)
  pub cfg_2_descriptor : Option (Option CfgData)
  pub bytes_recv : ℕ
  pub c37events_recv : ℕ
  pub c37events_queued : ℕ
  pub num_connects : ℕ

unfoldable pub new_channel : Channel
unfolding new_buffer new_reformat
new_channel = record {
  c37_buf = new_buffer;
  c37reformat = new_reformat;
  cfg_1_descriptor = some none;
  cfg_2_descriptor = some none;
  bytes_recv = 0;
  c37events_recv = 0;
  c37events_queued = 0;
  num_connects = 0;
}

-- The time stamp of the frame at the start of the buffer.
abbrev pub frac_time : List ℕ → ℕ
frac_time buf = get_or buf 11 0 * 65536 + get_or buf 12 0 * 256 + get_or buf 13 0

abbrev pub soc_time : List ℕ → ℕ
soc_time buf = be32 (get_or buf 6 0) (get_or buf 7 0) (get_or buf 8 0) (get_or buf 9 0)

abbrev pub posted_list : Option SecBuffer → List SecBuffer
posted_list none = []
posted_list (some b) = b ∷ []

-- `case DATA_MSG_TYPE_VALUE`
unfoldable pub on_data : Channel → Channel × List SecBuffer
on_data ch =
    let b = ch.c37_buf in
    let (r, posted) = process_c37_event (frac_time b.buffer) (soc_time b.buffer) b ch.c37reformat in
    (
      record ch {
        c37_buf = (remove_msg_from_buffer b).0;
        c37reformat = r;
        c37events_recv = ch.c37events_recv + 1;
        c37events_queued = ch.c37events_queued + 1;
      },
      posted_list posted,
    )

abbrev pub removed : Channel → Channel
removed ch = record ch { c37_buf = (remove_msg_from_buffer ch.c37_buf).0 }

-- The `switch` over the type of a complete message.
unfoldable pub dispatch : Platform → Channel → Channel × List SecBuffer
unfolding on_data
dispatch p ch =
    let b = ch.c37_buf in
    let parsed = parse_cfg_msg p b.buffer b.msg_len_bytes in
    if b.msg_type == 0
    then on_data ch
    else if b.msg_type == 2
    then (record (removed ch) { cfg_1_descriptor = parsed }, [])
    else if b.msg_type == 3
    then (record (removed ch) { cfg_2_descriptor = parsed }, [])
    else (removed ch, [])

-- `examineBuffer() == 0`
abbrev pub is_zero : Status → Bool
is_zero (bytes_left n) = n == 0
is_zero err_msg_larger_than_buffer = false
is_zero err_exam_buf_call_out_of_seq = false
is_zero err_buf_state_mangled = false

-- The body of the loop, on a channel whose buffer holds a complete message.
unfoldable pub on_message : Platform → Channel → Channel × List SecBuffer
unfolding dispatch
on_message p ch = dispatch p (record ch { bytes_recv = ch.bytes_recv + ch.c37_buf.msg_len_bytes })

-- `while (C37_buf.examineBuffer() == 0) { ... }`
unfoldable pub drain : Platform → ℕ → Channel → Option (Channel × List SecBuffer)
unfolding on_message
drain p zero ch = none
drain p (suc fuel) ch =
    let e = examine_buffer ch.c37_buf in
    let ch' = record ch { c37_buf = e.0 } in
    let m = on_message p ch' in
    let rest = (do (last, posted) ← drain p fuel m.0; some (last, m.1 ++ posted)) in
    if is_zero e.1 then rest else some (ch', [])

-- What a handler starts next: a read into the region of the buffer, or a new connection.
pub data Next : Type 0 where
  async_read : ℕ × ℕ → Next
  reconnect : Next

-- `read_handler`, called with the bytes that were transferred.
unfoldable pub read_handler :
    Platform → ℕ → List ℕ → Channel → Option (Channel × List SecBuffer × Next)
unfolding drain
read_handler p fuel xs ch =
    if length xs == 0 then some (record ch { c37_buf = init ch.c37_buf }, [], reconnect) else (do
      (ch', posted) ← drain p fuel (record ch { c37_buf = receive xs ch.c37_buf })
      some (ch', posted, async_read (get_buffer_desc ch'.c37_buf)))

-- `connect_handler`: `ok` is a connection with no error.
unfoldable pub connect_handler : Bool → Channel → Channel × Next
connect_handler ok ch =
    if ok
    then (record ch { num_connects = ch.num_connects + 1 }, async_read (get_buffer_desc ch.c37_buf))
    else (ch, reconnect)
