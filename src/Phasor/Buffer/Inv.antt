-- ===== src/Phasor/Buffer/Inv.antt =====
-- The invariant of the receive buffer, and what each operation does to the bytes that it holds.
use sparcs.Prelude.{
  ℕ, ◌/◌, ◌≤◌, ◌≡◌, refl, ◌∙◌, bit_and, List, length, get_or, take, arith, be16, length-take,
  Bool-cases, inl, inr, leb, ltb, leb→le,
}
use mathlib.Core.Path.{subst}
use sparcs.Phasor.Buffer.{
  Buffer, BufState, unknown_msg, partial_msg, complete_msg, init, new_buffer, examine_buffer,
  examine_in, examine_unknown, examine_partial, read_header,
}

-- The bytes received and not yet removed.
abbrev pub contents : Buffer → List ℕ
contents b = take b.valid_buffer_bytes b.buffer

-- The header fields of a frame.
abbrev pub frame_size : List ℕ → ℕ
frame_size xs = be16 (get_or xs 2 0) (get_or xs 3 0)

abbrev pub frame_type : List ℕ → ℕ
frame_type xs = bit_and (get_or xs 1 0) 0x70 / 16

-- A whole frame that the buffer can hold stands at the start.
abbrev pub HasFrame : List ℕ → Type 0
HasFrame xs = (4 ≤ length xs) × (frame_size xs ≤ 1024) × (frame_size xs ≤ length xs)

-- In the two later states the fields read from the header are those of the bytes held.
abbrev pub Known : BufState → Buffer → Type 0
Known unknown_msg b = Unit {0}
Known partial_msg b =
    (4 ≤ b.valid_buffer_bytes)
    × (b.msg_len_bytes ≡ frame_size b.buffer)
    × (b.msg_type ≡ frame_type b.buffer)
    × (b.msg_len_bytes ≤ 1024)
Known complete_msg b =
    (4 ≤ b.valid_buffer_bytes)
    × (b.msg_len_bytes ≡ frame_size b.buffer)
    × (b.msg_type ≡ frame_type b.buffer)
    × (b.msg_len_bytes ≤ b.valid_buffer_bytes)

pub record IsValid (b : Buffer) : Type 0 where
  pub array : length b.buffer ≡ 1024
  pub cap : b.max_buffer_bytes ≡ 1024
  pub fits : b.valid_buffer_bytes ≤ 1024
  pub known : Known b.buf_state b

pub new_buffer-IsValid : IsValid new_buffer
unfolding new_buffer
new_buffer-IsValid = record { array = refl; cap = refl; fits = omega arith; known = tt }

pub init-IsValid : (b : Buffer) → length b.buffer ≡ 1024 → IsValid (init b)
unfolding init
init-IsValid b h = record { array = h; cap = refl; fits = omega arith; known = tt }

pub length-contents : {b : Buffer} → IsValid b → length (contents b) ≡ b.valid_buffer_bytes
length-contents {b} v = omega (arith, length-take b.valid_buffer_bytes b.buffer)

-- What `examine_buffer` leaves as it was.
examine_partial_keeps :
    (b : Buffer)
    → ((examine_partial b).0.buffer ≡ b.buffer)
      × ((examine_partial b).0.valid_buffer_bytes ≡ b.valid_buffer_bytes)
      × ((examine_partial b).0.max_buffer_bytes ≡ b.max_buffer_bytes)
unfolding examine_partial
examine_partial_keeps b = ground arith

examine_unknown_keeps :
    (b : Buffer)
    → ((examine_unknown b).0.buffer ≡ b.buffer)
      × ((examine_unknown b).0.valid_buffer_bytes ≡ b.valid_buffer_bytes)
      × ((examine_unknown b).0.max_buffer_bytes ≡ b.max_buffer_bytes)
unfolding examine_unknown
examine_unknown_keeps b = ground arith

examine_in_keeps :
    (s : BufState) (b : Buffer)
    → ((examine_in s b).0.buffer ≡ b.buffer)
      × ((examine_in s b).0.valid_buffer_bytes ≡ b.valid_buffer_bytes)
      × ((examine_in s b).0.max_buffer_bytes ≡ b.max_buffer_bytes)
unfolding examine_in
examine_in_keeps unknown_msg b = examine_unknown_keeps b
examine_in_keeps partial_msg b = examine_partial_keeps b
examine_in_keeps complete_msg b = (refl, refl, refl)

examine_partial-Known :
    (b : Buffer)
    → b.buf_state ≡ partial_msg
    → Known partial_msg b
    → Known (examine_partial b).0.buf_state (examine_partial b).0
unfolding examine_partial
examine_partial-Known b e k = elim (Bool-cases (leb b.msg_len_bytes b.valid_buffer_bytes)) [
  | inl t ↦ rw (t, examine_partial) (k.0, k.1, k.2, leb→le _ _ t)
  | inr f ↦ rw (f, examine_partial) (rw e k)
]

examine_unknown-Known :
    (b : Buffer)
    → b.max_buffer_bytes ≡ 1024
    → b.buf_state ≡ unknown_msg
    → Known (examine_unknown b).0.buf_state (examine_unknown b).0
unfolding examine_unknown
examine_unknown-Known b m e = elim (Bool-cases (leb 4 b.valid_buffer_bytes)) [
  | inr f ↦ rw (f, examine_unknown) (rw e tt)
  | inl t ↦ elim (Bool-cases (ltb b.max_buffer_bytes (frame_size b.buffer))) [
    | inl large ↦ rw (t, large, examine_unknown) (rw e tt)
    | inr small ↦
        rw (t, small, examine_unknown)
          (examine_partial-Known (record (read_header b) { buf_state = partial_msg }) refl
            (leb→le _ _ t, refl, refl, ground arith))
  ]
]

examine_in-Known :
    (s : BufState) (b : Buffer)
    → b.max_buffer_bytes ≡ 1024
    → b.buf_state ≡ s
    → Known s b
    → Known (examine_in s b).0.buf_state (examine_in s b).0
unfolding examine_in
examine_in-Known unknown_msg b m e k = examine_unknown-Known b m e
examine_in-Known partial_msg b m e k = examine_partial-Known b e k
examine_in-Known complete_msg b m e k = rw e k

-- `examine_buffer` keeps the invariant, the bytes and their number.
pub examine_buffer-IsValid : (b : Buffer) → IsValid b → IsValid (examine_buffer b).0
unfolding examine_buffer
examine_buffer-IsValid b v =
    let k = examine_in_keeps b.buf_state b in
    record {
      array = rw (k.0) v.array;
      cap = k.2 ∙ v.cap;
      fits = omega (arith, k.1);
      known = examine_in-Known b.buf_state b v.cap refl v.known;
    }

pub contents-examine_buffer : (b : Buffer) → contents (examine_buffer b).0 ≡ contents b
unfolding examine_buffer
contents-examine_buffer b = let k = examine_in_keeps b.buf_state b in rw (k.0, k.1)

-- What the invariant says in the complete state.
pub complete-Known : (b : Buffer) → IsValid b → b.buf_state ≡ complete_msg → Known complete_msg b
complete-Known b v e = subst (λ s. Known s b) e v.known
