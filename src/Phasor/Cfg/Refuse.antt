-- ===== src/Phasor/Cfg/Refuse.antt =====
-- Which configuration frames the parser accepts, and what the descriptor of an accepted one says.
use sparcs.Prelude.{
  ℕ, ◌+◌, ◌-◌, ◌*◌, ◌/◌, ◌≤◌, ◌<◌, ◌≡◌, ◌⊎◌, refl, ap, sym, ◌∙◌, bit_and, Bool, true, false, Option,
  some, none, List, [], get_or, get_elem?, take, length, arith, be16, be32, u32, if◌then◌else◌,
  get_elem?-eq-get_or,
}
use sparcs.Phasor.Cfg.{
  Platform, CfgData, parse_cfg_msg, is_refused, read_desc, read_be16, read_pmus, ◌>>=◌,
}

-- The tests that a frame of `n` bytes has to pass.
pub record IsGood (p : Platform) (buf : List ℕ) (n : ℕ) : Type 0 where
  pub sync : get_or buf 0 0 ≡ 0xaa
  pub kind : (get_or buf 1 0 ≡ 0x21) ⊎ (get_or buf 1 0 ≡ 0x31)
  pub long : 54 ≤ n
  pub checksum :
      p.crc_ccitt (take (n - 2) buf) ≡ be16 (get_or buf (n - 2) 0) (get_or buf (n - 2 + 1) 0)

read_be16_lem :
    (buf : List ℕ) (i : ℕ)
    → i + 1 < length buf
    → read_be16 buf i ≡ some (be16 (get_or buf i 0) (get_or buf (i + 1) 0))
unfolding read_be16
read_be16_lem buf i h =
    rw (get_elem?-eq-get_or buf i 0 (omega arith), get_elem?-eq-get_or buf (i + 1) 0 (omega arith))

is_refused_good :
    (p : Platform) (buf : List ℕ) (n : ℕ)
    → n ≤ length buf
    → IsGood p buf n
    → is_refused p buf n ≡ some false
unfolding is_refused
is_refused_good p buf n h g = ground (
  arith,
  g.kind,
  get_elem?-eq-get_or buf 0 0,
  get_elem?-eq-get_or buf 1 0,
  read_be16_lem buf (n - 2),
)

is_refused_bad :
    (p : Platform) (buf : List ℕ) (n : ℕ)
    → n ≤ length buf
    → 2 ≤ length buf
    → ¬ IsGood p buf n
    → is_refused p buf n ≡ some true
unfolding is_refused
is_refused_bad p buf n h two b = ground (
  arith,
  get_elem?-eq-get_or buf 0 0,
  get_elem?-eq-get_or buf 1 0,
  read_be16_lem buf (n - 2),
  λ (s : get_or buf 0 0 ≡ 0xaa) (k : (get_or buf 1 0 ≡ 0x21) ⊎ (get_or buf 1 0 ≡ 0x31)) (l : 54 ≤ n)
        (c : p.crc_ccitt (take (n - 2) buf)
          ≡ be16 (get_or buf (n - 2) 0) (get_or buf (n - 2 + 1) 0)).
      b (record { sync = s; kind = k; long = l; checksum = c }),
)

-- A message of `n` bytes that lie in the array, which has at least two, is refused if it fails
-- one of the tests on sync bytes, length and checksum, and nothing more of it is read.
pub parse_refuses :
    (p : Platform) (buf : List ℕ) (n : ℕ)
    → n ≤ length buf
    → 2 ≤ length buf
    → ¬ IsGood p buf n
    → parse_cfg_msg p buf n ≡ some none
unfolding parse_cfg_msg
parse_refuses p buf n h two b = rw (is_refused_bad p buf n h two b)

-- What the fixed part of an accepted frame becomes.
unfoldable pub IsFilled : List ℕ → CfgData → Type 0
IsFilled buf d =
    (d.pmu_metadata ≡ [])
    × (d.frame_length ≡ be16 (get_or buf 2 0) (get_or buf 3 0))
    × (d.data_stream_id ≡ be16 (get_or buf 4 0) (get_or buf 5 0))
    × (d.num_pmu ≡ be16 (get_or buf 18 0) (get_or buf 19 0))
    × (d.time_base ≡ be32 (get_or buf 14 0) (get_or buf 15 0) (get_or buf 16 0) (get_or buf 17 0))

bind_inv :
    {A B : Type 0} (m : Option A) (f : A → Option B) (b : B)
    → (m >>= f) ≡ some b
    → (a : A) × (m ≡ some a) × (f a ≡ some b)
bind_inv none f b e = grind arith
bind_inv (some a) f b e = (a, refl, e)

-- The descriptor that the fixed part gives, with the byte that the rate is read from.
abbrev desc_of : List ℕ → ℕ → CfgData
desc_of buf rate = record {
  frame_type = bit_and (get_or buf 1 0) 0x70 / 16;
  frame_length = be16 (get_or buf 2 0) (get_or buf 3 0);
  c37_version = bit_and (get_or buf 1 0) 0xf;
  data_stream_id = be16 (get_or buf 4 0) (get_or buf 5 0);
  time_stamp =
      u32 (
        get_or buf 6 0 * 16777216 + get_or buf 7 0 * 65536 + get_or buf 8 0 / 256 + get_or buf 9 0);
  raw_frac_sec = get_or buf 11 0 * 65536 + get_or buf 12 0 * 256 + get_or buf 13 0;
  u_sec_frac_sec = 0;
  time_quality = get_or buf 10 0;
  time_base = be32 (get_or buf 14 0) (get_or buf 15 0) (get_or buf 16 0) (get_or buf 17 0);
  num_pmu = be16 (get_or buf 18 0) (get_or buf 19 0);
  pmu_metadata = [];
  data_rate = be16 rate rate;
}

read_desc_fixed :
    (p : Platform) (buf : List ℕ)
    → 20 ≤ length buf
    → read_desc p buf ≡ (
        read_pmus p buf (be16 (get_or buf 18 0) (get_or buf 19 0)) 20
        >>= (λ r. get_elem? buf r.1 >>= (λ rate. some (desc_of buf rate))))
unfolding read_desc
read_desc_fixed p buf h =
    let g : (i : ℕ) → i < 20 → get_elem? buf i ≡ some (get_or buf i 0) =
      λ i l. get_elem?-eq-get_or buf i 0 (omega arith) in
    rw (
      read_be16_lem buf 2 (omega arith),
      read_be16_lem buf 4 (omega arith),
      read_be16_lem buf 18 (omega arith),
      g 1 (omega arith),
      g 6 (omega arith),
      g 7 (omega arith),
      g 8 (omega arith),
      g 9 (omega arith),
      g 10 (omega arith),
      g 11 (omega arith),
      g 12 (omega arith),
      g 13 (omega arith),
      g 14 (omega arith),
      g 15 (omega arith),
      g 16 (omega arith),
      g 17 (omega arith),
    )

some_inj : {a b : CfgData} → some a ≡ some b → a ≡ b
some_inj e = grind arith

read_desc_inv :
    (p : Platform) (buf : List ℕ) (d : CfgData)
    → 20 ≤ length buf
    → read_desc p buf ≡ some d
    → (rate : ℕ) × (desc_of buf rate ≡ d)
read_desc_inv p buf d h e =
    let pmus = read_pmus p buf (be16 (get_or buf 18 0) (get_or buf 19 0)) 20 in
    let built : ℕ → Option CfgData = λ rate. some (desc_of buf rate) in
    let found =
      bind_inv pmus (λ r. get_elem? buf r.1 >>= built) d (sym (read_desc_fixed p buf h) ∙ e) in
    let last = bind_inv (get_elem? buf found.0.1) built d found.2 in (last.0, some_inj last.2)

read_desc-IsFilled :
    (p : Platform) (buf : List ℕ) (d : CfgData)
    → 20 ≤ length buf
    → read_desc p buf ≡ some d
    → IsFilled buf d
unfolding IsFilled
read_desc-IsFilled p buf d h e =
    let (rate, same) = read_desc_inv p buf d h e in
    (
      ap (λ x. x.pmu_metadata) (sym same),
      ap (λ x. x.frame_length) (sym same),
      ap (λ x. x.data_stream_id) (sym same),
      ap (λ x. x.num_pmu) (sym same),
      ap (λ x. x.time_base) (sym same),
    )

passed-IsGood :
    (p : Platform) (buf : List ℕ) (n : ℕ)
    → n ≤ length buf
    → 2 ≤ length buf
    → is_refused p buf n ≡ some false
    → IsGood p buf n
unfolding is_refused
passed-IsGood p buf n h two e =
    let a = get_elem?-eq-get_or buf 0 0 (omega arith) in
    let b = get_elem?-eq-get_or buf 1 0 (omega arith) in
    let r = read_be16_lem buf (n - 2) in
    record {
      sync = ground (arith, a, b);
      kind = ground (arith, a, b);
      long = ground (arith, a, b);
      checksum = ground (arith, a, b, r);
    }

not_refused :
    (r : Option Bool) (m : Option CfgData) (d : CfgData)
    → (r >>= (λ x. if x then some none else (m >>= (λ c. some (some c))))) ≡ some (some d)
    → (r ≡ some false) × (m ≡ some d)
not_refused r m d e = ground arith

-- If the parser builds a descriptor of a message of `n` bytes that lie in the array, which has
-- at least two, then the message has the sync bytes of a configuration frame, is at least 54
-- bytes long and ends in the checksum of the bytes before. The descriptor has the frame's
-- length, stream, time base and number of PMUs, and an empty list of PMU metadata whatever the
-- frame says.
pub parse_accepts :
    (p : Platform) (buf : List ℕ) (n : ℕ) (d : CfgData)
    → n ≤ length buf
    → 2 ≤ length buf
    → parse_cfg_msg p buf n ≡ some (some d)
    → IsGood p buf n × IsFilled buf d
unfolding parse_cfg_msg
parse_accepts p buf n d h two e =
    let (passed, parsed) = not_refused (is_refused p buf n) (read_desc p buf) d e in
    let good = passed-IsGood p buf n h two passed in
    let long = good.long in (good, read_desc-IsFilled p buf d (omega arith) parsed)
