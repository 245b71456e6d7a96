-- ===== src/Phasor/Reformat/Block.antt =====
-- The layout of a saved event's block, as `processEventBuffer` writes it.
use sparcs.Prelude.{
  ℕ, zero, suc, ◌+◌, ◌-◌, ◌*◌, ◌≤◌, ◌<◌, ◌≡◌, refl, ap, ◌∙◌, List, [], ◌∷◌, ◌++◌, map, arith,
  length, get_or, drop, length-append, length-take, length-drop, get_or-take, get_or-drop,
  get_or-append_left, le_bytes,
}
use mathlib.Core.List.{flatten}
use native.Mathlib.Decide.{dec_lt}
use sparcs.Phasor.Reformat.{block_of, slice}

get_or-append_right : (xs ys : List ℕ) (k : ℕ) → get_or (xs ++ ys) (length xs + k) 0 ≡ get_or ys k 0
get_or-append_right [] ys k = ap (λ m. get_or ys m 0) (omega arith)
get_or-append_right (x ∷ xs) ys k =
    let e : suc (length xs) + k ≡ suc (length xs + k) = omega arith in
    rw e (get_or-append_right xs ys k)

length-slice : (i n : ℕ) (xs : List ℕ) → i + n ≤ length xs → length (slice i n xs) ≡ n
length-slice i n xs h = omega (arith, length-take n (drop i xs), length-drop i xs)

get_or-slice : (i n k : ℕ) (xs : List ℕ) → k < n → get_or (slice i n xs) k 0 ≡ get_or xs (i + k) 0
get_or-slice i n k xs h = get_or-take n k (drop i xs) 0 h ∙ get_or-drop i k xs 0

-- A block is 60 bytes.
pub length-block_of : (pin : List ℕ) → 64 ≤ length pin → length (block_of pin) ≡ 60
unfolding block_of
length-block_of pin h = omega (
  arith,
  length-append (slice 6 4 pin) (slice 10 4 pin ++ slice 16 48 pin),
  length-append (slice 10 4 pin) (slice 16 48 pin),
  length-slice 6 4 pin,
  length-slice 10 4 pin,
  length-slice 16 48 pin,
)

-- Two slices of 4 and one of 48 bytes, one behind the other.
parts_first :
    (pin : List ℕ) (k : ℕ)
    → 64 ≤ length pin
    → k < 8
    → get_or (slice 6 4 pin ++ (slice 10 4 pin ++ slice 16 48 pin)) k 0 ≡ get_or pin (6 + k) 0
parts_first pin k h q = elim (dec_lt k 4) [
  | yes p ↦
      get_or-append_left (slice 6 4 pin) (slice 10 4 pin ++ slice 16 48 pin) k 0
        (omega (arith, length-slice 6 4 pin))
      ∙ get_or-slice 6 4 k pin p
  | no p ↦
      let e : k ≡ length (slice 6 4 pin) + (k - 4) = omega (arith, length-slice 6 4 pin) in
      let e' : 10 + (k - 4) ≡ 6 + k = omega arith in
      ap (λ m. get_or (slice 6 4 pin ++ (slice 10 4 pin ++ slice 16 48 pin)) m 0) e
      ∙ get_or-append_right (slice 6 4 pin) (slice 10 4 pin ++ slice 16 48 pin) (k - 4)
      ∙ get_or-append_left (slice 10 4 pin) (slice 16 48 pin) (k - 4) 0
          (omega (arith, length-slice 10 4 pin))
      ∙ get_or-slice 10 4 (k - 4) pin (omega arith)
      ∙ ap (λ m. get_or pin m 0) e'
]

parts_last :
    (pin : List ℕ) (k : ℕ)
    → 64 ≤ length pin
    → k < 48
    → get_or (slice 6 4 pin ++ (slice 10 4 pin ++ slice 16 48 pin)) (8 + k) 0
      ≡ get_or pin (16 + k) 0
parts_last pin k h q =
    let a = slice 6 4 pin in
    let b = slice 10 4 pin in
    let c = slice 16 48 pin in
    let e : 8 + k ≡ length a + (length b + k) =
      omega (arith, length-slice 6 4 pin, length-slice 10 4 pin) in
    ap (λ m. get_or (a ++ (b ++ c)) m 0) e
    ∙ get_or-append_right a (b ++ c) (length b + k)
    ∙ get_or-append_right b c k
    ∙ get_or-slice 16 48 k pin q

get_or-block_of :
    (pin : List ℕ) (k : ℕ)
    → get_or (block_of pin) (4 + k) 0
      ≡ get_or (slice 6 4 pin ++ (slice 10 4 pin ++ slice 16 48 pin)) k 0
unfolding block_of
get_or-block_of pin k = let e : 4 + k ≡ suc (suc (suc (suc k))) = omega arith in rw e refl

-- A byte of the saved event is a byte of the frame, four places on: the length word is in front.
event_at : (f : List ℕ) (k : ℕ) → get_or (le_bytes 74 ++ f) (4 + k) 0 ≡ get_or f k 0
event_at f k = let e : 4 + k ≡ suc (suc (suc (suc k))) = omega arith in rw e refl

-- The block of a frame of 74 bytes: 60 bytes long, it begins with its length and byte 9 of the
-- frame as the lock, then has bytes 2 to 9 of the frame in the places of the time and the
-- fraction, and from byte 12 on bytes 12 to 59 of the frame.
pub block_layout :
    (f : List ℕ)
    → length f ≡ 74
    → let blk = block_of (le_bytes 74 ++ f) in
      (length blk ≡ 60)
      × (get_or blk 0 0 ≡ 60)
      × (get_or blk 1 0 ≡ 0)
      × (get_or blk 2 0 ≡ get_or f 9 0)
      × (get_or blk 3 0 ≡ 0)
      × ((k : ℕ) → k < 8 → get_or blk (4 + k) 0 ≡ get_or f (2 + k) 0)
      × ((k : ℕ) → k < 48 → get_or blk (12 + k) 0 ≡ get_or f (12 + k) 0)
unfolding block_of
block_layout f h =
    let pin = le_bytes 74 ++ f in
    let long : 64 ≤ length pin = omega arith in
    (
      length-block_of pin long,
      refl,
      refl,
      refl,
      refl,
      λ k q.
          let e : 6 + k ≡ 4 + (2 + k) = omega arith in
          get_or-block_of pin k
          ∙ parts_first pin k long q
          ∙ ap (λ m. get_or pin m 0) e
          ∙ event_at f (2 + k),
      λ k q.
          let e : 16 + k ≡ 4 + (12 + k) = omega arith in
          let e' : 12 + k ≡ 4 + (8 + k) = omega arith in
          ap (λ m. get_or (block_of pin) m 0) e'
          ∙ get_or-block_of pin (8 + k)
          ∙ parts_last pin k long q
          ∙ ap (λ m. get_or pin m 0) e
          ∙ event_at f (12 + k),
    )

-- A posted buffer of several blocks.
abbrev pub AllLong : List (List ℕ) → Type 0
AllLong [] = Unit {0}
AllLong (f ∷ fs) = (length f ≡ 74) × AllLong fs

abbrev pub blocks : List (List ℕ) → List ℕ
blocks fs = flatten (map (λ f. block_of (le_bytes 74 ++ f)) fs)

pub length-blocks : (fs : List (List ℕ)) → AllLong fs → length (blocks fs) ≡ 60 * length fs
unfolding flatten
length-blocks [] a = omega arith
length-blocks (f ∷ fs) a = omega (
  arith,
  length-append (block_of (le_bytes 74 ++ f)) (blocks fs),
  length-blocks fs a.1,
  length-block_of (le_bytes 74 ++ f),
  a.0,
)

-- Byte `j` of block `i`.
pub get_or-blocks :
    (fs : List (List ℕ)) (i j : ℕ)
    → AllLong fs
    → i < length fs
    → j < 60
    → get_or (blocks fs) (60 * i + j) 0 ≡ get_or (block_of (le_bytes 74 ++ get_or fs i [])) j 0
unfolding flatten
get_or-blocks [] i j a h q = absurd (omega arith)
get_or-blocks (f ∷ fs) zero j a h q =
    let e : 60 * 0 + j ≡ j = omega arith in
    rw e (
      get_or-append_left (block_of (le_bytes 74 ++ f)) (blocks fs) j 0
        (omega (arith, length-block_of (le_bytes 74 ++ f), a.0)))
get_or-blocks (f ∷ fs) (suc i) j a h q =
    let blk = block_of (le_bytes 74 ++ f) in
    let e : 60 * suc i + j ≡ length blk + (60 * i + j) =
      omega (arith, length-block_of (le_bytes 74 ++ f), a.0) in
    rw e
      (get_or-append_right blk (blocks fs) (60 * i + j) ∙ get_or-blocks fs i j a.1 (omega arith) q)
