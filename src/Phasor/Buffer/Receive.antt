-- ===== src/Phasor/Buffer/Receive.antt =====
-- Receiving bytes: what the buffer holds afterwards.
use sparcs.Prelude.{
  ℕ, zero, suc, ◌+◌, ◌≤◌, ◌<◌, ◌≡◌, refl, ap, ◌∙◌, List, [], ◌∷◌, ◌++◌, length, get_or, set, take,
  arith, length-set, get_or-set_ne,
}
use mathlib.Core.List.{append-nil, append_assoc}
use sparcs.Phasor.Buffer.{
  Buffer, BufState, unknown_msg, partial_msg, complete_msg, receive, store_bytes,
}
use sparcs.Phasor.Buffer.Inv.{IsValid, Known, contents}

-- Bytes stored behind the first `v`.
length-store_bytes : (i : ℕ) (xs buf : List ℕ) → length (store_bytes i xs buf) ≡ length buf
unfolding store_bytes
length-store_bytes i [] buf = refl
length-store_bytes i (x ∷ xs) buf = length-store_bytes (i + 1) xs (set buf i x) ∙ length-set buf i x

take-set :
    (v x : ℕ) (buf : List ℕ) → v < length buf → take (v + 1) (set buf v x) ≡ take v buf ++ x ∷ []
take-set v x [] h = absurd (omega arith)
take-set zero x (y ∷ buf) h = refl
take-set (suc v) x (y ∷ buf) h =
    let e : suc v + 1 ≡ suc (v + 1) = omega arith in
    rw e (ap (◌∷◌ y) (take-set v x buf (omega arith)))

take-store_bytes :
    (v : ℕ) (xs buf : List ℕ)
    → v + length xs ≤ length buf
    → take (v + length xs) (store_bytes v xs buf) ≡ take v buf ++ xs
unfolding store_bytes
take-store_bytes v [] buf h = let e : v + 0 ≡ v = omega arith in rw (e, append-nil) refl
take-store_bytes v (x ∷ xs) buf h =
    let e : v + suc (length xs) ≡ v + 1 + length xs = omega arith in
    rw e (
      take-store_bytes (v + 1) xs (set buf v x) (omega (arith, length-set buf v x))
      ∙ rw (take-set v x buf (omega arith)) (append_assoc (take v buf) (x ∷ []) xs))

pub valid-receive :
    (xs : List ℕ) (b : Buffer)
    → IsValid b
    → b.valid_buffer_bytes + length xs ≤ 1024
    → (receive xs b).valid_buffer_bytes ≡ b.valid_buffer_bytes + length xs
unfolding receive
valid-receive xs b v h = omega arith

-- Bytes received into a valid buffer that has room for them stand behind those held before,
-- which are unchanged.
pub contents-receive :
    (xs : List ℕ) (b : Buffer)
    → IsValid b
    → b.valid_buffer_bytes + length xs ≤ 1024
    → contents (receive xs b) ≡ contents b ++ xs
unfolding receive
contents-receive xs b v h =
    rw (valid-receive xs b v h)
      (take-store_bytes b.valid_buffer_bytes xs b.buffer (omega (arith, v.array)))

-- A header that is held stays.
store_bytes_keeps :
    (i k : ℕ) (xs buf : List ℕ) → k < i → get_or (store_bytes i xs buf) k 0 ≡ get_or buf k 0
unfolding store_bytes
store_bytes_keeps i k [] buf h = refl
store_bytes_keeps i k (x ∷ xs) buf h =
    store_bytes_keeps (i + 1) k xs (set buf i x) (omega arith)
    ∙ get_or-set_ne buf i k x 0 (λ e. omega arith)

receive-Known :
    (s : BufState) (xs : List ℕ) (b : Buffer)
    → IsValid b
    → b.valid_buffer_bytes + length xs ≤ 1024
    → Known s b
    → Known s (receive xs b)
unfolding receive
receive-Known unknown_msg xs b v h k = tt
receive-Known partial_msg xs b v h k = (
  omega arith,
  rw
      (
        store_bytes_keeps b.valid_buffer_bytes 2 xs b.buffer (omega arith),
        store_bytes_keeps b.valid_buffer_bytes 3 xs b.buffer (omega arith),
      )
      k.1,
  rw (store_bytes_keeps b.valid_buffer_bytes 1 xs b.buffer (omega arith)) k.2,
  k.3,
)
receive-Known complete_msg xs b v h k = (
  omega arith,
  rw
      (
        store_bytes_keeps b.valid_buffer_bytes 2 xs b.buffer (omega arith),
        store_bytes_keeps b.valid_buffer_bytes 3 xs b.buffer (omega arith),
      )
      k.1,
  rw (store_bytes_keeps b.valid_buffer_bytes 1 xs b.buffer (omega arith)) k.2,
  omega arith,
)

pub buf_state-receive : (xs : List ℕ) (b : Buffer) → (receive xs b).buf_state ≡ b.buf_state
unfolding receive
buf_state-receive xs b = refl

pub receive-IsValid :
    (xs : List ℕ) (b : Buffer)
    → IsValid b
    → b.valid_buffer_bytes + length xs ≤ 1024
    → IsValid (receive xs b)
unfolding receive
receive-IsValid xs b v h = record {
  array = length-store_bytes b.valid_buffer_bytes xs b.buffer ∙ v.array;
  cap = v.cap;
  fits = omega arith;
  known = receive-Known b.buf_state xs b v h v.known;
}
