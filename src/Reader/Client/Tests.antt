-- ===== src/Reader/Client/Tests.antt =====
-- The options of the usage text, the chunks of an hour, and how the client ends.
use sparcs.Prelude.{ℕ, ◌+◌, ◌*◌, ◌/◌, ◌≤◌, ◌≡◌, refl, true, false, List, [], ◌∷◌, arith}
use sparcs.Prelude.Ints.{pos, negsuc}
use sparcs.Prelude.Text.{codes}
use sparcs.Reader.Client.{Resolver, Options, defaults, go, exit, faulted}
use sparcs.Reader.Client.Plan.{plan, start, delta_t_chucksize, check_method}
use sparcs.Reader.Client.Loop.{code, finished, exited, chunk_loop, is_last}
use sparcs.Reader.Client.Chunks.{answered, Covered, chunk_loop_complete}

abbrev resolver : Resolver
resolver = record { is_valid_ip_address = λ s. true; host_to_ip = λ s. s }

abbrev example : List (List ℕ)
example =
    codes "--timestart"
    ∷ codes "1480355400000"
    ∷ codes "--timeend"
    ∷ codes "1480356100000"
    ∷ codes "--deviceIds"
    ∷ codes "P3001199;P3001035"
    ∷ codes "--datacode"
    ∷ codes "1;1;0;0;0;0;0;0;0;0;0;0"
    ∷ codes "--stepsize"
    ∷ codes "20"
    ∷ codes "--compress"
    ∷ codes "15"
    ∷ []

abbrev given : Options
given = record (defaults (codes "1.1.1.1")) {
  timestampstart = codes "1480355400000";
  timestampend = codes "1480356100000";
  deviceids = codes "P3001199;P3001035";
  requested = codes "1;1;0;0;0;0;0;0;0;0;0;0";
  stepsize = codes "20";
  compression_method = codes "15";
}

-- 96 bytes a second and compressor.
planned :
    start resolver (negsuc 0) (codes "1.1.1.1") example
    ≡ go record {
      options = given;
      nodeviceids = 2;
      nosamplesets = pos 2;
      delta_t = 87381000;
      timestampstart = pos 1480355400000;
      timestampend = pos 1480356100000;
    }
unfolding start
planned = refl

-- Less than one byte a second: the division is by 0.
sparse : delta_t_chucksize (negsuc 0) 1 (pos 2) (pos 15) (pos 2000) 32 ≡ go 1073741
unfolding delta_t_chucksize
sparse = refl

no_step : delta_t_chucksize (negsuc 0) 1 (pos 2) (pos 15) (pos 0) 32 ≡ faulted
unfolding delta_t_chucksize
no_step = refl

-- Raw samples with a step are not refused: the bit that is tested is not that of 16.
raw_with_step : check_method (record given { compression_method = codes "16" }) ≡ go (pos 16)
unfolding check_method
raw_with_step = refl

few_flags : plan (negsuc 0) (record given { requested = codes "1;1" }) ≡ exit (pos 4)
unfolding plan
few_flags = refl

one_argument : start resolver (negsuc 0) [] (codes "--quiet" ∷ []) ≡ exit (negsuc 0)
unfolding start
one_argument = refl

refused_chunk :
    chunk_loop 1000 1 5000 true (λ from until. code 4) 3 2000
    ≡ ((2000, 3000) ∷ [], exited (pos 104))
unfolding chunk_loop
refused_chunk = refl

-- From this step on the product overflows, and a loop at its very end goes on.
long_step : is_last 2147483 1480355400000 1480355400000 ≡ false
long_step = refl

-- Each chunk is answered by the samples of a second.
abbrev up_to : ℕ → ℕ → ℕ
up_to from until = from + 1000

two_chunks :
    chunk_loop 1000 1 3500 true (answered 1000 1 3500 up_to) 9 2000
    ≡ ((2000, 3000) ∷ (3000, 3500) ∷ [], finished)
unfolding chunk_loop
two_chunks = refl

chunk_loop_complete_example :
    ((chunk_loop 1000 1 3500 true (answered 1000 1 3500 up_to) 1501 2000).1 ≡ finished)
    × ((x : ℕ)
        → 2000 ≤ x
        → x + (1 + 1) * 1000 / 120 ≤ 3500
        → Covered 1000 1 3500 up_to x
            (chunk_loop 1000 1 3500 true (answered 1000 1 3500 up_to) 1501 2000).0)
chunk_loop_complete_example =
    chunk_loop_complete 1000 1 3500 up_to (omega arith) (omega arith)
      (λ from until h. (omega arith, omega arith)) 1500 2000 (omega arith) (omega arith)
      (omega arith)
