-- ===== src/Archiver/Decode.antt =====
-- From the frames of a second to what the archiver decodes: `processEventBuffer` of the phasor
-- service composed with `processData` of the archiver.
use sparcs.Prelude.{
  ℕ, zero, suc, ◌+◌, ◌*◌, ◌/◌, ◌<◌, ◌≡◌, ap, ◌∙◌, sym, List, [], ◌∷◌, ◌++◌, some, length, get_or,
  get_elem?, arith, be32, le_bytes,
}
use sparcs.Phasor.Reformat.{block_of}
use sparcs.Phasor.Reformat.Block.{AllLong, blocks, block_layout, get_or-blocks}
use sparcs.Archiver.{Floats, Sample, swapped_word, read_sample, read_samples, decode}

-- The words of a frame, as its sender numbers them: the second of the century, and the twelve
-- words of the phasors from byte 16 on.
abbrev pub soc_word : List ℕ → ℕ
soc_word f = be32 (get_or f 6 0) (get_or f 7 0) (get_or f 8 0) (get_or f 9 0)

abbrev pub phasor_word : List ℕ → ℕ → ℕ
phasor_word f k =
    be32 (get_or f (16 + 4 * k) 0) (get_or f (17 + 4 * k) 0) (get_or f (18 + 4 * k) 0)
      (get_or f (19 + 4 * k) 0)

-- The buffer that is posted for some frames.
abbrev pub posted_bytes : ℕ → List (List ℕ) → List ℕ
posted_bytes len fs = le_bytes len ++ blocks fs

-- A byte of a block, read through the buffer.
byte_at :
    (len : ℕ) (fs : List (List ℕ)) (i j : ℕ)
    → AllLong fs
    → i < length fs
    → j < 60
    → get_or (posted_bytes len fs) (4 + (60 * i + j)) 0
      ≡ get_or (block_of (le_bytes 74 ++ get_or fs i [])) j 0
byte_at len fs i j a h q =
    let e : 4 + (60 * i + j) ≡ suc (suc (suc (suc (60 * i + j)))) = omega arith in
    rw e (get_or-blocks fs i j a h q)

AllLong-get_or :
    (fs : List (List ℕ)) (i : ℕ) → AllLong fs → i < length fs → length (get_or fs i []) ≡ 74
AllLong-get_or [] i a h = absurd (omega arith)
AllLong-get_or (f ∷ fs) zero a h = a.0
AllLong-get_or (f ∷ fs) (suc i) a h = AllLong-get_or fs i a.1 (omega arith)

data_byte :
    (len : ℕ) (fs : List (List ℕ)) (i m : ℕ)
    → AllLong fs
    → i < length fs
    → m < 48
    → get_or (posted_bytes len fs) (16 + 60 * i + m) 0 ≡ get_or (get_or fs i []) (12 + m) 0
data_byte len fs i m a h q =
    let e : 16 + 60 * i + m ≡ 4 + (60 * i + (12 + m)) = omega arith in
    let l = block_layout (get_or fs i []) (AllLong-get_or fs i a h) in
    ap (λ n. get_or (posted_bytes len fs) n 0) e
    ∙ byte_at len fs i (12 + m) a h (omega arith)
    ∙ l.6 m q

time_byte :
    (len : ℕ) (fs : List (List ℕ)) (i m : ℕ)
    → AllLong fs
    → i < length fs
    → m < 8
    → get_or (posted_bytes len fs) (8 + 60 * i + m) 0 ≡ get_or (get_or fs i []) (2 + m) 0
time_byte len fs i m a h q =
    let e : 8 + 60 * i + m ≡ 4 + (60 * i + (4 + m)) = omega arith in
    let l = block_layout (get_or fs i []) (AllLong-get_or fs i a h) in
    ap (λ n. get_or (posted_bytes len fs) n 0) e
    ∙ byte_at len fs i (4 + m) a h (omega arith)
    ∙ l.5 m q

-- A word from its four bytes.
swapped_word_of :
    (bytes : List ℕ) (w : ℕ) (v : ℕ → ℕ)
    → ((d : ℕ) → d < 4 → get_or bytes (4 * w + d) 0 ≡ v d)
    → swapped_word bytes w ≡ be32 (v 0) (v 1) (v 2) (v 3)
unfolding swapped_word
swapped_word_of bytes w v h =
    let e : 4 * w + 0 ≡ 4 * w = omega arith in
    let first : get_or bytes (4 * w) 0 ≡ v 0 = rw e at (h 0 (omega arith)) in
    rw (first, h 1 (omega arith), h 2 (omega arith), h 3 (omega arith))

-- The word that the archiver reads for field `k` of sample `i`, for all fields but the last, is
-- word `k` of the phasors of frame `i`.
pub swapped_word_phasor :
    (len : ℕ) (fs : List (List ℕ)) (i k : ℕ)
    → AllLong fs
    → i < length fs
    → k < 11
    → swapped_word (posted_bytes len fs) (5 + 15 * i + k) ≡ phasor_word (get_or fs i []) k
swapped_word_phasor len fs i k a h q =
    swapped_word_of (posted_bytes len fs) (5 + 15 * i + k)
      (λ d. get_or (get_or fs i []) (16 + d + 4 * k) 0)
      λ d p.
        let e : 4 * (5 + 15 * i + k) + d ≡ 16 + 60 * i + (4 + 4 * k + d) = omega arith in
        let e' : 12 + (4 + 4 * k + d) ≡ 16 + d + 4 * k = omega arith in
        ap (λ n. get_or (posted_bytes len fs) n 0) e
        ∙ data_byte len fs i (4 + 4 * k + d) a h (omega arith)
        ∙ ap (λ n. get_or (get_or fs i []) n 0) e'

-- The word behind them is the header of the next block.
pub swapped_word_header :
    (len : ℕ) (fs : List (List ℕ)) (i : ℕ)
    → AllLong fs
    → i + 1 < length fs
    → swapped_word (posted_bytes len fs) (5 + 15 * i + 11)
      ≡ be32 60 0 (get_or (get_or fs (i + 1) []) 9 0) 0
unfolding swapped_word
swapped_word_header len fs i a h =
    let next = get_or fs (i + 1) [] in
    let l = block_layout next (AllLong-get_or fs (i + 1) a h) in
    let read = λ (n : ℕ). get_or (posted_bytes len fs) n 0 in
    let at : (j : ℕ)
        → j < 60
        → read (4 + (60 * (i + 1) + j)) ≡ get_or (block_of (le_bytes 74 ++ next)) j 0 =
      λ j q. byte_at len fs (i + 1) j a h q in
    let e0 : 4 * (5 + 15 * i + 11) ≡ 4 + (60 * (i + 1) + 0) = omega arith in
    let e1 : 4 * (5 + 15 * i + 11) + 1 ≡ 4 + (60 * (i + 1) + 1) = omega arith in
    let e2 : 4 * (5 + 15 * i + 11) + 2 ≡ 4 + (60 * (i + 1) + 2) = omega arith in
    let e3 : 4 * (5 + 15 * i + 11) + 3 ≡ 4 + (60 * (i + 1) + 3) = omega arith in
    rw (
      ap read e0 ∙ at 0 (omega arith) ∙ l.1,
      ap read e1 ∙ at 1 (omega arith) ∙ l.2,
      ap read e2 ∙ at 2 (omega arith) ∙ l.3,
      ap read e3 ∙ at 3 (omega arith) ∙ l.4,
    )

-- The time that the archiver reads is the second of the fourth frame.
pub swapped_word_time :
    (len : ℕ) (fs : List (List ℕ))
    → AllLong fs
    → 3 < length fs
    → swapped_word (posted_bytes len fs) 48 ≡ soc_word (get_or fs 3 [])
swapped_word_time len fs a h =
    swapped_word_of (posted_bytes len fs) 48 (λ d. get_or (get_or fs 3 []) (6 + d) 0)
      λ d p.
        let e : 4 * 48 + d ≡ 8 + 60 * 3 + (4 + d) = omega arith in
        let e' : 2 + (4 + d) ≡ 6 + d = omega arith in
        ap (λ n. get_or (posted_bytes len fs) n 0) e
        ∙ time_byte len fs 3 (4 + d) a h (omega arith)
        ∙ ap (λ n. get_or (get_or fs 3 []) n 0) e'

module _ (fl : Floats) where
  open fl use {Float, of_bits, zero_float, to_degrees, to_degrees_from, fmod_360}

  get_elem?-read_samples :
      (n w i : ℕ) (bytes : List ℕ)
      → i < n
      → get_elem? (read_samples fl n w bytes) i ≡ some (read_sample fl bytes (w + 15 * i))
  unfolding read_samples
  get_elem?-read_samples zero w i bytes h = absurd (omega arith)
  get_elem?-read_samples (suc n) w zero bytes h =
      ap (λ v. some (read_sample fl bytes v)) {x = w} {y = w + 15 * 0} (omega arith)
  get_elem?-read_samples (suc n) w (suc i) bytes h =
      let e : w + 15 * suc i ≡ w + 15 + 15 * i = omega arith in
      get_elem?-read_samples n (w + 15) i bytes (omega arith)
      ∙ ap (λ v. some (read_sample fl bytes v)) (sym e)

  -- The sample that a frame stands for, but for the angle of the third current, which is computed
  -- from a word given apart.
  abbrev pub sample_of : List ℕ → ℕ → Sample fl
  sample_of f c3 =
      let l1ang = to_degrees (of_bits (phasor_word f 1)) in
      record {
        lockstate = 0;
        l1mag = of_bits (phasor_word f 0);
        l1angle = fmod_360 zero_float;
        l2mag = of_bits (phasor_word f 2);
        l2angle = fmod_360 (to_degrees_from (of_bits (phasor_word f 3)) l1ang);
        l3mag = of_bits (phasor_word f 4);
        l3angle = fmod_360 (to_degrees_from (of_bits (phasor_word f 5)) l1ang);
        c1mag = of_bits (phasor_word f 6);
        c1angle = fmod_360 (to_degrees_from (of_bits (phasor_word f 7)) l1ang);
        c2mag = of_bits (phasor_word f 8);
        c2angle = fmod_360 (to_degrees_from (of_bits (phasor_word f 9)) l1ang);
        c3mag = of_bits (phasor_word f 10);
        c3angle = fmod_360 (to_degrees_from (of_bits c3) l1ang);
      }

  read_sample-posted :
      (len : ℕ) (fs : List (List ℕ)) (i : ℕ)
      → AllLong fs
      → i < length fs
      → read_sample fl (posted_bytes len fs) (5 + 15 * i)
        ≡ sample_of (get_or fs i []) (swapped_word (posted_bytes len fs) (5 + 15 * i + 11))
  unfolding read_sample
  read_sample-posted len fs i a h =
      let at : (k : ℕ)
          → k < 11
          → swapped_word (posted_bytes len fs) (5 + 15 * i + k) ≡ phasor_word (get_or fs i []) k =
        λ k q. swapped_word_phasor len fs i k a h q in
      rw (
        at 0 (omega arith),
        at 1 (omega arith),
        at 2 (omega arith),
        at 3 (omega arith),
        at 4 (omega arith),
        at 5 (omega arith),
        at 6 (omega arith),
        at 7 (omega arith),
        at 8 (omega arith),
        at 9 (omega arith),
        at 10 (omega arith),
      )

  -- The archiver applied to a buffer of 120 blocks made of frames of 74 bytes: its time,
  -- milliseconds and day are those of the second of the fourth frame, and each sample but the
  -- last has the voltages and currents of its frame in order, except that its last angle is
  -- computed from the header of the next block.
  pub decode-posted :
      (len : ℕ) (fs : List (List ℕ))
      → AllLong fs
      → length fs ≡ 120
      → let d = decode fl (posted_bytes len fs) in
        (d.timestamp ≡ soc_word (get_or fs 3 []))
        × (d.timestamp_msec ≡ soc_word (get_or fs 3 []) * 1000)
        × (d.day ≡ soc_word (get_or fs 3 []) / 86400)
        × ((i : ℕ)
            → i + 1 < 120
            → get_elem? d.samples i
              ≡ some (sample_of (get_or fs i []) (be32 60 0 (get_or (get_or fs (i + 1) []) 9 0) 0)))
  unfolding decode
  decode-posted len fs a h =
      let t = swapped_word_time len fs a (omega arith) in
      (
        t,
        ap (λ v. v * 1000) t,
        ap (λ v. v / 86400) t,
        λ i q.
            get_elem?-read_samples 120 5 i (posted_bytes len fs) (omega arith)
            ∙ ap some (
                read_sample-posted len fs i a (omega arith)
                ∙ ap (sample_of (get_or fs i [])) (swapped_word_header len fs i a (omega arith))),
      )
