-- ===== src/Reader/Client/Loop.antt =====
-- The loop of `main` of cassspeedclient/main.cpp over the chunks of the time that was asked for. What
-- the server answers to a chunk is an argument. The times are not negative, and the end of a chunk fits
-- a `long`.
use sparcs.Prelude.{
  ℕ, zero, suc, ◌+◌, ◌-◌, ◌*◌, ◌%◌, ◌^◌, Bool, false, List, [], ◌∷◌, ◌++◌, ltb, if◌then◌else◌, u32,
}
use sparcs.Prelude.Ints.{ℤ, pos, negsuc, quot}
use sparcs.Ftp.FileTime.{int_of}
use sparcs.Prelude.Text.{to_string}

-- The fields of `datatotransmit` that stay the same, as texts.
pub record Asked : Type 0 where
  pub nodeviceids : List ℕ
  pub deviceids : List ℕ
  pub nosamplesets : List ℕ
  pub requested : List ℕ
  pub compression_method : List ℕ
  pub stepsize : List ℕ

-- `datatotransmit` and the zero behind it, with which it is sent.
unfoldable pub data_to_transmit : Asked → ℕ → ℕ → List ℕ
data_to_transmit a from until =
    (a.nodeviceids
      ++ 59
        ∷ (a.deviceids
            ++ 59
              ∷ (a.nosamplesets
                  ++ 59
                    ∷ (to_string from
                        ++ 59
                          ∷ (to_string until
                              ++ 59
                                ∷ (a.requested
                                    ++ 59 ∷ (a.compression_method ++ 59 ∷ a.stepsize)))))))
    ++ 0 ∷ []

-- What a chunk ends in: the socket fails, the server sends the code `-k`, or a payload whose
-- `timestampend` is given.
pub data Answer : Type 0 where
  socket_failed : Answer
  code : ℕ → Answer
  payload : ℕ → Answer

pub data LoopEnd : Type 0 where
  running : LoopEnd
  finished : LoopEnd
  exited : ℤ → LoopEnd

-- `timestampend_loop`
abbrev pub chunk_end : ℕ → ℕ → ℕ → ℕ
chunk_end delta_t timestampend from =
    if ltb timestampend (from + delta_t) then timestampend else from + delta_t

-- A value of an `int` in the 64 bits of a `long`.
abbrev pub widened : ℤ → ℕ
widened (pos n) = n
widened (negsuc n) = 2 ^ 64 - 1 - n

-- `(stoi(stepsize)+1)*1000/120`, in an `int`.
abbrev pub last_step : ℕ → ℕ
last_step stepsize = widened (quot (int_of (u32 ((stepsize + 1) * 1000))) 120)

-- Whether 64 bits, read as a `long`, are more than a time.
abbrev pub is_after : ℕ → ℕ → Bool
is_after time bits = if ltb bits (2 ^ 63) then ltb time bits else false

-- The test behind the loop's body, a sum of `long`.
abbrev pub is_last : ℕ → ℕ → ℕ → Bool
is_last stepsize timestampend from = is_after timestampend ((from + last_step stepsize) % 2 ^ 64)

abbrev pub before {ℓ κ} : {A : Type ℓ} {B : Type κ} → A → List A × B → List A × B
before a (as', b) = (a ∷ as', b)

-- The chunks that are asked for, and how the loop ends. `known` is whether the format is one of the
-- three that are written.
module _ (delta_t stepsize timestampend : ℕ) (known : Bool) (answer : ℕ → ℕ → Answer) where
  abbrev pub after_answer : ℕ → Answer → (ℕ → List (ℕ × ℕ) × LoopEnd) → List (ℕ × ℕ) × LoopEnd
  after_answer from socket_failed next = ([], exited (pos 0))
  after_answer from (code k) next = ([], exited (pos (100 + k)))
  after_answer from (payload t) next =
      let rest = next t in
      if known
      then if is_last stepsize timestampend t then ([], finished) else rest
      else ([], exited (negsuc 2))

  unfoldable pub chunk_loop : ℕ → ℕ → List (ℕ × ℕ) × LoopEnd
  chunk_loop zero from = ([], running)
  chunk_loop (suc fuel) from =
      let until = chunk_end delta_t timestampend from in
      before (from, until) (after_answer from (answer from until) (chunk_loop fuel))
