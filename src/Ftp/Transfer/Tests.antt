-- ===== src/Ftp/Transfer/Tests.antt =====
-- A transfer on a new channel, and one without a channel.
use sparcs.Prelude.{ℕ, ◌≡◌, refl, true, false, List, [], ◌∷◌}
use mathlib.Core.List.{flatten}
use sparcs.Ftp.FileList.{write_memory}
use sparcs.Ftp.Transfer.{curle_ok, get_data_file, file, no_return}

abbrev chunks : List (List ℕ)
chunks = (1 ∷ 0 ∷ []) ∷ (7 ∷ []) ∷ []

fetched : get_data_file false true curle_ok [] chunks ≡ (true, file (1 ∷ 0 ∷ 7 ∷ 0 ∷ []) 3)
unfolding get_data_file write_memory flatten
fetched = refl

no_channel : get_data_file false false curle_ok [] chunks ≡ (false, no_return)
unfolding get_data_file
no_channel = refl
