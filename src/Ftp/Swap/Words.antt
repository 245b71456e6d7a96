-- ===== src/Ftp/Swap/Words.antt =====
-- The bytes of each word in the other order.
use sparcs.Prelude.{
  ℕ, zero, suc, ◌*◌, ◌/◌, ◌%◌, ◌<◌, ◌≤◌, ◌≡◌, refl, ap, ◌∙◌, false, Option, none, some, List, [],
  ◌∷◌, ◌++◌, length, get_or, drop, ltb, ◌==◌, ==_iff, Bool-cases, ltb→lt, inl, inr, if◌then◌else◌,
  le_bytes, arith, length-drop,
}
use sparcs.Ftp.Swap.{
  swap_bytes_uint, le_word, swap_words, swap_blocks, blocks_of, post_process_upmu_data,
}

abbrev pub AreBytes : List ℕ → Type 0
AreBytes [] = Unit
AreBytes (b ∷ bs) = (b < 256) × AreBytes bs

abbrev pub reverse_words : List ℕ → List ℕ
reverse_words (a ∷ b ∷ c ∷ d ∷ bytes) = d ∷ c ∷ b ∷ a ∷ reverse_words bytes
reverse_words bytes = bytes

le_bytes-le_word :
    (a b c d : ℕ)
    → a < 256
    → b < 256
    → c < 256
    → d < 256
    → le_bytes (le_word a b c d) ≡ a ∷ b ∷ c ∷ d ∷ []
le_bytes-le_word a b c d p q r s =
    let w0 : le_word a b c d / 16777216 % 256 ≡ d = omega arith in
    let w1 : le_word a b c d / 65536 % 256 ≡ c = omega arith in
    let w2 : le_word a b c d / 256 % 256 ≡ b = omega arith in
    let w3 : le_word a b c d % 256 ≡ a = omega arith in rw (w0, w1, w2, w3)

swap-le_word :
    (a b c d : ℕ)
    → a < 256
    → b < 256
    → c < 256
    → d < 256
    → swap_bytes_uint (le_word a b c d) ≡ le_word d c b a
unfolding swap_bytes_uint
swap-le_word a b c d p q r s = omega arith

swap_words_all :
    (n : ℕ) (next : List ℕ → Option (List ℕ)) (bytes : List ℕ)
    → AreBytes bytes
    → 4 * n ≤ length bytes
    → next (drop (4 * n) bytes) ≡ some (reverse_words (drop (4 * n) bytes))
    → swap_words n next bytes ≡ some (reverse_words bytes)
swap_words_all zero next bytes b h e = e
swap_words_all (suc n) next [] b h e = absurd (omega arith)
swap_words_all (suc n) next (a ∷ []) b h e = absurd (omega arith)
swap_words_all (suc n) next (a ∷ b ∷ []) p h e = absurd (omega arith)
swap_words_all (suc n) next (a ∷ b ∷ c ∷ []) p h e = absurd (omega arith)
swap_words_all (suc n) next (a ∷ b ∷ c ∷ d ∷ bytes) p h e =
    let (pa, (pb, (pc, (pd, ps)))) = p in
    let k : 4 * suc n ≡ suc (suc (suc (suc (4 * n)))) = omega arith in
    let e' : next (drop (4 * n) bytes) ≡ some (reverse_words (drop (4 * n) bytes)) = rw k at e in
    let rest = swap_words_all n next bytes ps (omega arith) e' in
    let word = swap-le_word a b c d pa pb pc pd in
    let out = le_bytes-le_word d c b a pd pc pb pa in
    rw (rest, word) (ap (λ l. some (l ++ reverse_words bytes)) out)

swap_words_short :
    (n : ℕ) (next : List ℕ → Option (List ℕ)) (bytes : List ℕ)
    → length bytes < 4 * n
    → swap_words n next bytes ≡ none
swap_words_short zero next bytes h = absurd (omega arith)
swap_words_short (suc n) next [] h = refl
swap_words_short (suc n) next (a ∷ []) h = refl
swap_words_short (suc n) next (a ∷ b ∷ []) h = refl
swap_words_short (suc n) next (a ∷ b ∷ c ∷ []) h = refl
swap_words_short (suc n) next (a ∷ b ∷ c ∷ d ∷ bytes) h =
    let rest = swap_words_short n next bytes (omega arith) in rw rest

swap_words-none :
    (n : ℕ) (next : List ℕ → Option (List ℕ)) (bytes : List ℕ)
    → next (drop (4 * n) bytes) ≡ none
    → swap_words n next bytes ≡ none
swap_words-none zero next bytes h = h
swap_words-none (suc n) next [] h = refl
swap_words-none (suc n) next (a ∷ []) h = refl
swap_words-none (suc n) next (a ∷ b ∷ []) h = refl
swap_words-none (suc n) next (a ∷ b ∷ c ∷ []) h = refl
swap_words-none (suc n) next (a ∷ b ∷ c ∷ d ∷ bytes) h =
    let k : 4 * suc n ≡ suc (suc (suc (suc (4 * n)))) = omega arith in
    let h' : next (drop (4 * n) bytes) ≡ none = rw k at h in
    let rest = swap_words-none n next bytes h' in rw rest

AreBytes-drop : (n : ℕ) (bytes : List ℕ) → AreBytes bytes → AreBytes (drop n bytes)
AreBytes-drop zero bytes h = h
AreBytes-drop (suc n) [] h = h
AreBytes-drop (suc n) (b ∷ bytes) h = AreBytes-drop n bytes (h.1)

swap_blocks_all :
    (k : ℕ) (bytes : List ℕ)
    → AreBytes bytes
    → length bytes ≡ 6312 * k
    → swap_blocks k bytes ≡ some (reverse_words bytes)
swap_blocks_all zero [] h e = refl
swap_blocks_all zero (b ∷ bytes) h e = absurd (omega arith)
swap_blocks_all (suc k) bytes h e = swap_words_all 1578 (swap_blocks k) bytes h (omega arith) (
    swap_blocks_all k (drop 6312 bytes) (AreBytes-drop 6312 bytes h)
      (length-drop 6312 bytes ∙ omega arith))

swap_blocks_short : (k : ℕ) (bytes : List ℕ) → length bytes < 6312 * k → swap_blocks k bytes ≡ none
swap_blocks_short zero bytes h = absurd (omega arith)
swap_blocks_short (suc k) bytes h = elim (Bool-cases (ltb (length bytes) 6312)) [
  | inl less ↦
      let l : length bytes < 6312 = omega (arith, ltb→lt) in
      swap_words_short 1578 (swap_blocks k) bytes (omega arith)
  | inr more ↦
      let m : 6312 ≤ length bytes = ground arith in
      let d = length-drop 6312 bytes in
      swap_words-none 1578 (swap_blocks k) bytes
        (swap_blocks_short k (drop 6312 bytes) (omega arith))
]

-- The file is not empty, and its two bytes that say so are zero.
abbrev pub IsBigEndian : List ℕ → Type 0
IsBigEndian buf = (5 < length buf) × (get_or buf 4 0 ≡ 0) × (get_or buf 5 0 ≡ 0)

-- A file of bytes whose fifth and sixth are zero: if its length is a multiple of 6312 then the
-- bytes of each word of four come in the other order, and if not then the code goes on behind
-- the end of the file.
pub post_process_upmu_data_lem :
    (buf : List ℕ)
    → AreBytes buf
    → IsBigEndian buf
    → post_process_upmu_data buf
      ≡ (if length buf % 6312 == 0 then some (reverse_words buf) else none)
unfolding post_process_upmu_data
post_process_upmu_data_lem buf b (len, x, y) =
    let l : ltb (length buf) 6 ≡ false = ground arith in
    let ex = (==_iff (get_or buf 4 0) 0).1 x in
    let ey = (==_iff (get_or buf 5 0) 0).1 y in
    elim (Bool-cases (length buf % 6312 == 0)) [
      | inl whole ↦
          let w = (==_iff (length buf % 6312) 0).0 whole in
          rw (l, ex, ey, whole) (swap_blocks_all (blocks_of (length buf)) buf b (omega arith))
      | inr part ↦
          let w : 0 < length buf % 6312 = ground arith in
          rw (l, ex, ey, part) (swap_blocks_short (blocks_of (length buf)) buf (omega arith))
    ]
