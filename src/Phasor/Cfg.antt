-- ===== src/Phasor/Cfg.antt =====
-- The configuration frame parser: C37_CfgDescriptor.h and C37_CfgDescriptor.cpp, with the offsets
-- of C37_MsgFormats.h. The outer `none` of a result is a read outside the array that the frame
-- stands in; `some none` is the `nullptr` of a refused frame. A member that the code leaves
-- unassigned is `none`. Index sums stay natural numbers: a wrapped index would need an array of
-- more than 2 ^ 31 bytes.
pub mod Refuse
mod Tests
use sparcs.Prelude.{
  ℕ, zero, suc, ◌+◌, ◌-◌, ◌*◌, ◌/◌, ◌%◌, ◌≡◌, bit_and, Bool, true, false, not, ◌&&◌, ◌||◌, Option,
  none, some, List, [], ◌∷◌, ◌++◌, ltb, ◌==◌, if◌then◌else◌, get_elem?, take, replicate, be16, be32,
  u32,
}

-- What the parser takes from Boost and from the C library: `crc_basic<16>(0x1021, 0xFFFF, 0,
-- false, false)` over some bytes, and `isprint`.
pub record Platform : Type 0 where
  pub crc_ccitt : List ℕ → ℕ
  pub isprint : ℕ → Bool

infixl 5 ◌>>=◌
abbrev pub ◌>>=◌ {ℓ κ} : {A : Type ℓ} {B : Type κ} → Option A → (A → Option B) → Option B
none >>= f = none
some a >>= f = f a

pub record PhasorConvFact : Type 0 where
  pub is_voltage : Bool
  pub conv_fact : ℕ

pub record AnalogConvFact : Type 0 where
  pub meas_type : Option ℕ
  pub conv_fact : Option ℕ

pub record DigitalConvFact : Type 0 where
  pub mask0 : Option ℕ
  pub mask1 : Option ℕ

pub record PmuMetadata : Type 0 where
  pub stn_name : List ℕ
  pub id_code : Option ℕ
  pub freq_dfreq_floating : Option Bool
  pub analog_data_floating : Option Bool
  pub phasor_data_floating : Option Bool
  pub phasor_data_polar : Option Bool
  pub num_phasors : ℕ
  pub num_analog : ℕ
  pub num_digital : ℕ
  pub phasor_chan_name : List (List ℕ)
  pub analog_chan_name : List (List ℕ)
  pub digital_chan_name : List (List (List ℕ))
  pub phasor_cf : List PhasorConvFact
  pub analog_cf : List AnalogConvFact
  pub digital_cf : List DigitalConvFact
  pub fund_freq : ℕ
  pub cfg_cnt : ℕ

pub record CfgData : Type 0 where
  pub frame_type : ℕ
  pub frame_length : ℕ
  pub c37_version : ℕ
  pub data_stream_id : ℕ
  pub time_stamp : ℕ
  pub raw_frac_sec : ℕ
  pub u_sec_frac_sec : ℕ
  pub time_quality : ℕ
  pub time_base : ℕ
  pub num_pmu : ℕ
  pub pmu_metadata : List PmuMetadata
  pub data_rate : ℕ

-- `(buf[i] << 8) + buf[i + 1]`
unfoldable pub read_be16 : List ℕ → ℕ → Option ℕ
read_be16 buf i = do a ← get_elem? buf i; b ← get_elem? buf (i + 1); some (be16 a b)

-- The printable characters at the start of a field of `n` bytes.
unfoldable pub read_name : Platform → List ℕ → ℕ → ℕ → Option (List ℕ)
read_name p buf zero i = some []
read_name p buf (suc n) i =
    let rest = read_name p buf n (i + 1) in
    do c ← get_elem? buf i; if p.isprint c then (do s ← rest; some (c ∷ s)) else some []

-- `n` names of 16 bytes, one after another.
unfoldable pub read_names : Platform → List ℕ → ℕ → ℕ → Option (List (List ℕ))
unfolding read_name
read_names p buf zero i = some []
read_names p buf (suc n) i = do
  s ← read_name p buf 16 i
  ss ← read_names p buf n (i + 16)
  some (s ∷ ss)

-- `n` groups of 16 bit names.
unfoldable pub read_digital_names : Platform → List ℕ → ℕ → ℕ → Option (List (List (List ℕ)))
unfolding read_names
read_digital_names p buf zero i = some []
read_digital_names p buf (suc n) i = do
  s ← read_names p buf 16 i
  ss ← read_digital_names p buf n (i + 256)
  some (s ∷ ss)

-- The loop does not move `phasorCFIndx`: each round reads the same four bytes.
unfoldable pub read_phasor_cf : List ℕ → ℕ → ℕ → Option (List PhasorConvFact)
read_phasor_cf buf zero i = some []
read_phasor_cf buf (suc n) i = do
  a ← get_elem? buf i
  b ← get_elem? buf (i + 1)
  c ← get_elem? buf (i + 2)
  d ← get_elem? buf (i + 3)
  fs ← read_phasor_cf buf n i
  some (record { is_voltage = a == 0; conv_fact = b * 65536 + c * 256 + d } ∷ fs)

-- A flag of the format word: set if the bit is, and otherwise left unassigned.
abbrev pub flag : ℕ → ℕ → Option Bool
flag format mask = if bit_and format mask == 0 then none else some true

-- One turn of the loop over the PMUs: the metadata, and where the next one begins.
unfoldable pub read_pmu : Platform → List ℕ → ℕ → Option (PmuMetadata × ℕ)
unfolding read_be16 read_names read_digital_names read_phasor_cf
read_pmu p buf base = do
  stn ← read_name p buf 16 base
  format ← get_elem? buf (base + 19)
  phnmr ← read_be16 buf (base + 20)
  annmr ← read_be16 buf (base + 22)
  dgnmr ← read_be16 buf (base + 24)
  let chnam = base + 26
  let phasor_cf_indx = chnam + 16 * (phnmr + annmr + 16 * dgnmr)
  let analog_cf_indx = phasor_cf_indx + 4 * phnmr
  let digital_cf_indx = analog_cf_indx + 4 * annmr
  let fnom_indx = digital_cf_indx + 4 * dgnmr
  phasors ← read_names p buf phnmr chnam
  analogs ← read_names p buf annmr (chnam + 16 * phnmr)
  digitals ← read_digital_names p buf dgnmr (chnam + 16 * phnmr + 16 * annmr)
  pcf ← read_phasor_cf buf phnmr phasor_cf_indx
  fnom ← get_elem? buf (fnom_indx + 1)
  cfg_cnt ← read_be16 buf (fnom_indx + 2)
  some (
    record {
      stn_name = stn;
      id_code = none;
      freq_dfreq_floating = flag format 8;
      analog_data_floating = flag format 4;
      phasor_data_floating = flag format 2;
      phasor_data_polar = flag format 1;
      num_phasors = phnmr;
      num_analog = annmr;
      num_digital = dgnmr;
      phasor_chan_name = phasors;
      analog_chan_name = analogs;
      digital_chan_name = digitals;
      phasor_cf = pcf;
      analog_cf = replicate annmr (record { meas_type = none; conv_fact = none });
      digital_cf = replicate dgnmr (record { mask0 = none; mask1 = none });
      fund_freq = if bit_and fnom 1 == 0 then 60 else 50;
      cfg_cnt = cfg_cnt;
    },
    fnom_indx + 4,
  )

-- The loop over the PMUs: the local list `pmuMetadata`, and the last `baseIndx`.
unfoldable pub read_pmus : Platform → List ℕ → ℕ → ℕ → Option (List PmuMetadata × ℕ)
unfolding read_pmu
read_pmus p buf zero base = some ([], base)
read_pmus p buf (suc n) base = do
  (md, next) ← read_pmu p buf base
  (mds, last) ← read_pmus p buf n next
  some (md ∷ mds, last)

-- The three tests before the descriptor is built: sync bytes, length, checksum.
unfoldable pub is_refused : Platform → List ℕ → ℕ → Option Bool
unfolding read_be16
is_refused p buf msg_len = do
  sync ← get_elem? buf 0
  kind ← get_elem? buf 1
  if not (sync == 0xaa) || (not (kind == 0x21) && not (kind == 0x31)) || ltb msg_len 54
      then some true
      else (do
        cksum ← read_be16 buf (msg_len - 2)
        some (not (p.crc_ccitt (take (msg_len - 2) buf) == cksum)))

-- The rest of the parser. `desc->pmuMetadata` is never assigned: the list that the loop fills is
-- a local variable of the same name.
unfoldable pub read_desc : Platform → List ℕ → Option CfgData
unfolding read_be16 read_pmus
read_desc p buf = do
  kind ← get_elem? buf 1
  len ← read_be16 buf 2
  idcode ← read_be16 buf 4
  s0 ← get_elem? buf 6
  s1 ← get_elem? buf 7
  s2 ← get_elem? buf 8
  s3 ← get_elem? buf 9
  quality ← get_elem? buf 10
  f1 ← get_elem? buf 11
  f2 ← get_elem? buf 12
  f3 ← get_elem? buf 13
  t0 ← get_elem? buf 14
  t1 ← get_elem? buf 15
  t2 ← get_elem? buf 16
  t3 ← get_elem? buf 17
  num_pmu ← read_be16 buf 18
  (mds, base) ← read_pmus p buf num_pmu 20
  rate ← get_elem? buf base
  some (record {
    frame_type = bit_and kind 0x70 / 16;
    frame_length = len;
    c37_version = bit_and kind 0xf;
    data_stream_id = idcode;
    time_stamp = u32 (s0 * 16777216 + s1 * 65536 + s2 / 256 + s3);
    raw_frac_sec = f1 * 65536 + f2 * 256 + f3;
    u_sec_frac_sec = 0;
    time_quality = quality;
    time_base = be32 t0 t1 t2 t3;
    num_pmu = num_pmu;
    pmu_metadata = [];
    data_rate = be16 rate rate;
  })

-- `parseCfg_msg`
unfoldable pub parse_cfg_msg : Platform → List ℕ → ℕ → Option (Option CfgData)
unfolding is_refused read_desc
parse_cfg_msg p buf msg_len = do
  refused ← is_refused p buf msg_len
  if refused then some none else (do d ← read_desc p buf; some (some d))
