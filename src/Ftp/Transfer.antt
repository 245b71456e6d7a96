-- ===== src/Ftp/Transfer.antt =====
-- Single transfers of upmuFtpAccess.cpp: `verifyDataDirPresent`, `getDataFileLength` and
-- `getDataFile`. What libcurl answers is an argument: whether `curl_easy_init` gives a channel, the
-- code of `curl_easy_perform`, and what was delivered. A channel that is kept between calls is a
-- Boolean, `true` if it is open.
pub mod Channels
mod Tests
use sparcs.Prelude.{ℕ, Bool, true, false, ◌||◌, Option, none, some, List, length, if◌then◌else◌}
use mathlib.Core.List.{flatten}
use sparcs.Ftp.FileList.{write_memory}

pub data CurlCode : Type 0 where
  curle_ok curle_operation_timedout curle_other : CurlCode

pub data Presence : Type 0 where
  dir_present ftp_not_resp dir_not_present : Presence

presence_of : CurlCode → Presence
presence_of curle_ok = dir_present
presence_of curle_operation_timedout = ftp_not_resp
presence_of curle_other = dir_not_present

-- `none` is the value of `sts` that nothing was assigned to.
unfoldable pub verify_data_dir_present : Bool → CurlCode → Option Presence
unfolding presence_of
verify_data_dir_present init_ok res = if init_ok then some (presence_of res) else none

abbrev pub is_ok : CurlCode → Bool
is_ok curle_ok = true
is_ok curle_operation_timedout = false
is_ok curle_other = false

-- The channel afterwards, and the length that was stored; `none` is DATA_ACCESS_ERROR.
unfoldable pub get_data_file_length : Bool → Bool → CurlCode → ℕ → Bool × Option ℕ
get_data_file_length open_before init_ok res size =
    if open_before || init_ok
    then if is_ok res then (true, some size) else (false, none)
    else (false, none)

-- What `getDataFile` does: the buffer and the size that it returns, the error, or no `return` at all.
pub data Outcome : Type 0 where
  file : List ℕ → ℕ → Outcome
  data_access_error no_return : Outcome

unfoldable pub get_data_file : Bool → Bool → CurlCode → List ℕ → List (List ℕ) → Bool × Outcome
get_data_file open_before init_ok res unwritten chunks =
    if open_before || init_ok
    then if is_ok res
      then (true, file (write_memory unwritten chunks) (length (flatten chunks)))
      else (false, data_access_error)
    else (false, no_return)
