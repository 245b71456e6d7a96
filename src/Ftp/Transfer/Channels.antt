-- ===== src/Ftp/Transfer/Channels.antt =====
-- What a transfer returns, and when its channel stays open.
use sparcs.Prelude.{
  ℕ, ◌≡◌, refl, Bool, true, false, ◌||◌, List, [], ◌∷◌, length, take, take-append_length,
}
use mathlib.Core.List.{flatten}
use sparcs.Ftp.FileList.{write_memory}
use sparcs.Ftp.Transfer.{CurlCode, is_ok, get_data_file, file, data_access_error, no_return}

-- The bytes that were delivered are at the front of the memory.
delivered :
    (unwritten : List ℕ) (chunks : List (List ℕ))
    → take (length (flatten chunks)) (write_memory unwritten chunks) ≡ flatten chunks
unfolding write_memory flatten
delivered unwritten [] = refl
delivered unwritten (c ∷ cs) = take-append_length (flatten (c ∷ cs)) (0 ∷ [])

-- `getDataFile` on every branch: with a channel and a transfer that succeeds, the channel stays
-- open, the size returned is that of all that was delivered, and so many bytes of the buffer
-- are just that; with a channel and a transfer that fails, the channel is closed and the answer
-- is the error; without a channel nothing is returned.
pub get_data_file_lem :
    (open_before init_ok : Bool) (res : CurlCode) (unwritten : List ℕ) (chunks : List (List ℕ))
    → let r = get_data_file open_before init_ok res unwritten chunks in
      ((open_before || init_ok) ≡ true
        → is_ok res ≡ true
        → (r.0 ≡ true)
          × (r.1 ≡ file (write_memory unwritten chunks) (length (flatten chunks)))
          × (take (length (flatten chunks)) (write_memory unwritten chunks) ≡ flatten chunks))
      × ((open_before || init_ok) ≡ true
          → is_ok res ≡ false
          → (r.0 ≡ false) × (r.1 ≡ data_access_error))
      × ((open_before || init_ok) ≡ false → (r.0 ≡ false) × (r.1 ≡ no_return))
unfolding get_data_file write_memory
get_data_file_lem open_before init_ok res unwritten chunks = (
  λ o k. rw (o, k) (refl, refl, delivered unwritten chunks),
  λ o k. rw (o, k) (refl, refl),
  λ o. rw o (refl, refl),
)
