-- ===== src/Reader/Server.antt =====
-- The handler of a request in cassspeed/main.cpp, `SocketHandler`: the devices in turn, and what is
-- sent back. What Cassandra answers, the operations on samples, and the sum of a time and a
-- `double` are arguments; a payload stands for its serialisation.
pub mod Codes
pub mod Devices
mod Tests
use sparcs.Prelude.{
  ℕ, zero, suc, ◌+◌, ◌*◌, ◌/◌, ◌^◌, Bool, true, false, ◌&&◌, Option, none, some, List, [], ◌∷◌,
  ◌++◌, map, length, take, drop, get_or, ltb, leb, ◌==◌, if◌then◌else◌,
}
use mathlib.Core.List.{zip}
use sparcs.Prelude.Ints.{ℤ, pos, negsuc, neg, ◌+ℤ◌, to_u32}
use sparcs.Prelude.Text.{codes, same_string, c_string}
use sparcs.Reader.Compress.{Compressed, samples, out_of_range, running}
use sparcs.Reader.Response.{
  VectorName, l1mag, l2mag, l3mag, l1ang, l2ang, l3ang, c1mag, c2mag, c3mag, c1ang, c2ang, c3ang,
  Method, lookuptable, SampleOps, SampleSet, Row, least_time, vector_of, erase_front, output_sets,
}
use sparcs.Reader.Request
use sparcs.Reader.Request.{Result, Fields, Window, parse_request}

-- The rows of a device, each with its `timestamp_msec`; `none` is a query that could not be run.
abbrev pub Rows {ℓ} : Type ℓ → Type ℓ
Rows A = Option (List (ℕ × List (Row A)))

pub record Output {ℓ} (A : Type ℓ) : Type ℓ where
  pub deviceid : List ℕ
  pub sampleset : List (SampleSet A)

-- What the loop over the devices keeps: `timestampcass`, which has no value before the first row,
-- the global `numsamples`, whether `errorcode` is "-4", and what the payload has: its end where
-- `set_numsamples` was called, and its sets.
pub record Progress {ℓ} (A : Type ℓ) : Type ℓ where
  pub timestampcass : Option ℕ
  pub numsamples : ℕ
  pub refused : Bool
  pub timestampend : Option ℤ
  pub outputsets : List (Output A)

-- `finished` is an end of the loop; a read of what has no value, a write outside of a vector and an
-- overflow of an `int` are `undefined`; `hung` is a loop that does not end.
pub data Served {ℓ} (S : Type ℓ) : Type ℓ where
  finished : S → Served S
  thrown undefined hung : Served S

abbrev pub and_next {ℓ κ} : {S : Type ℓ} {T : Type κ} → Served S → (S → Served T) → Served T
and_next (finished s) f = f s
and_next thrown f = thrown
and_next undefined f = undefined
and_next hung f = hung

-- The place of a vector in `requested`.
abbrev pub index : VectorName → ℕ
index l1mag = 0
index l2mag = 1
index l3mag = 2
index l1ang = 3
index l2ang = 4
index l3ang = 5
index c1mag = 6
index c2mag = 7
index c3mag = 8
index c1ang = 9
index c2ang = 10
index c3ang = 11

-- `numsamples*1000*stepsize/120`, of `int`s.
abbrev pub time_covered : ℕ → ℤ → Option ℤ
time_covered numsamples (pos step) =
    if ltb (numsamples * 1000) (2 ^ 31) && ltb (numsamples * 1000 * step) (2 ^ 31)
    then some (pos (numsamples * 1000 * step / 120))
    else none
time_covered numsamples (negsuc n) =
    if ltb (numsamples * 1000) (2 ^ 31) && leb (numsamples * 1000 * suc n) (2 ^ 31)
    then some (neg (numsamples * 1000 * suc n / 120))
    else none

-- The reply: a payload, a code, or none.
pub data Reply {ℓ} (A : Type ℓ) : Type ℓ where
  payload : Fields → Progress A → Reply A
  error_code : ℕ → Reply A
  no_meaning no_end : Reply A

-- The rows of one device: the least time, and all their samples, without those in front.
module _ {ℓ} {A : Type ℓ} (F : SampleOps A) (plus_skipped : ℕ → ℕ → ℕ) where
  -- `set_timestampend` and `set_numsamples` behind the sets.
  abbrev pub close_device :
      List ℕ → ℤ → ℕ → Progress A → Compressed (SampleSet A) × ℕ → Served (Progress A)
  close_device device step t p (samples sets, n) = elim (time_covered n step) [
    | none ↦ undefined
    | some d ↦ finished record {
      timestampcass = some t;
      numsamples = n;
      refused = p.refused;
      timestampend = some (pos t +ℤ d);
      outputsets = p.outputsets ++ record { deviceid = device; sampleset = sets } ∷ [];
    }
  ]
  close_device device step t p (out_of_range, n) = thrown
  close_device device step t p (running, n) = hung

  -- The vectors once `samples_to_skip` samples are erased, all of one length; `none` where there
  -- are fewer.
  abbrev pub vectors : ℕ → List (List (Row A)) → Option (VectorName → List A)
  vectors skip rows = elim (erase_front skip (vector_of l1mag rows)) [
    | none ↦ none
    | some _ ↦ some (λ c. drop skip (vector_of c rows))
  ]

  unfoldable pub answer_device :
      Fields → Window → List ℕ → Rows A → Progress A → Served (Progress A)
  answer_device f w device none p = finished (record p { refused = true })
  answer_device f w device (some rows) p = elim (least_time p.timestampcass (map (λ r. r.0) rows)) [
    | none ↦ undefined
    | some t ↦ elim (vectors w.skip (map (λ r. r.1) rows)) [
      | none ↦ undefined
      | some vector ↦ close_device device f.stepsize (plus_skipped t w.skip) p (
          output_sets F (to_u32 f.compression_method) (λ c. get_or f.requested (index c) false)
            vector (to_u32 f.stepsize) 0 lookuptable p.numsamples)
    ]
  ]

  module _ (query : List ℕ → Window → Rows A) where
    -- The loop over the devices.
    unfoldable pub answer_devices :
        Fields → Window → List (List ℕ) → Progress A → Served (Progress A)
    unfolding answer_device
    answer_devices f w [] p = finished p
    answer_devices f w (d ∷ ds) p =
        and_next (answer_device f w d (query d w) p) (answer_devices f w ds)

    -- What follows the loop.
    abbrev pub reply_of : Fields → Served (Progress A) → Reply A
    reply_of f (finished p) = elim p.timestampend [
      | some t ↦ payload f p
      | none ↦ if p.refused then error_code 4 else payload f p
    ]
    reply_of f thrown = error_code 2
    reply_of f undefined = no_meaning
    reply_of f hung = no_end

    abbrev pub first_progress : ℕ → Progress A
    first_progress numsamples = record {
      timestampcass = none;
      numsamples = numsamples;
      refused = false;
      timestampend = none;
      outputsets = [];
    }

    -- The request once it is read, with the global `numsamples` that earlier requests left.
    abbrev pub reply_to : ℕ → Result (Fields × Window) → Reply A
    reply_to numsamples (Request.ok (f, w)) =
        reply_of f (answer_devices f w f.devices (first_progress numsamples))
    reply_to numsamples Request.invalid_argument = error_code 1
    reply_to numsamples Request.out_of_range = error_code 2
    reply_to numsamples Request.undefined = no_meaning

    -- `connected` is whether Cassandra could be reached.
    unfoldable pub socket_handler : Bool → ℕ → List ℕ → Reply A
    unfolding answer_devices parse_request
    socket_handler false numsamples sent = error_code 3
    socket_handler true numsamples sent = reply_to numsamples (parse_request sent)

-- The packet of a code: its text, the zero behind it, and what stands behind that in memory.
abbrev pub code_packet : ℕ → List ℕ → List ℕ
code_packet k junk = take 6 (45 ∷ (48 + k) ∷ 0 ∷ junk)

-- The comparisons of the client with the first four bytes, in their order.
unfoldable pub code_received : List ℕ → Option ℕ
code_received bytes =
    let text = c_string (take 4 bytes) in
    if same_string text (codes "-1")
    then some 1
    else if same_string text (codes "-2")
    then some 2
    else if same_string text (codes "-3")
    then some 3
    else if same_string text (codes "-4")
    then some 4
    else none
