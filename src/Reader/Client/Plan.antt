-- ===== src/Reader/Client/Plan.antt =====
-- What `main` of cassspeedclient/main.cpp does between reading its options and the loop over the
-- chunks: the checks, the counts, and `delta_t_chucksize`.
use sparcs.Prelude.{
  ℕ, zero, suc, ◌+◌, ◌*◌, ◌/◌, ◌^◌, Bool, true, false, not, ◌&&◌, Option, none, some, List, [], ◌∷◌,
  length, ltb, if◌then◌else◌,
}
use sparcs.Prelude.Ints.{ℤ, pos, negsuc, neg, opposite, scale, to_u32, ◌+ℤ◌}
use sparcs.Prelude.Text.{codes, same_string}
use sparcs.Reader.Request.{
  Result, ok, invalid_argument, out_of_range, undefined, read_number, stoi, split,
}
use sparcs.Reader.Response.{check_bit}
use sparcs.Reader.Client.{
  Options, Start, go, exit, uncaught, faulted, ◌>>=ₛ◌, Resolver, atoi, nonzero, read_options,
  enough_arguments, defaults,
}

-- A number whose conversion may throw, where nothing catches it.
abbrev pub or_uncaught {ℓ} : {A : Type ℓ} → Result A → Start A
or_uncaught (ok a) = go a
or_uncaught invalid_argument = uncaught
or_uncaught out_of_range = uncaught
or_uncaught undefined = uncaught

-- `x.at(loopcounter)` and the sum of the values, for `n` of the twelve. The test of `looptmp` is
-- never met, whatever the value.
unfoldable pub sum_flags : ℕ → List (List ℕ) → Option ℤ
unfolding atoi
sum_flags zero x = some (pos 0)
sum_flags (suc n) [] = none
sum_flags (suc n) (t ∷ x) = elim (sum_flags n x) [ none ↦ none | some s ↦ some (atoi t +ℤ s) ]

-- The bits that are set among the lowest eight, `std::bitset<8>(local).count()`.
abbrev pub bit_count : ℕ → ℕ → ℕ
bit_count zero n = 0
bit_count (suc k) n = bit_count k n + (if check_bit n k then 1 else 0)

-- `/` of two `int`s, which cuts towards zero; `none` is a division by 0.
abbrev pub div_ℤ : ℤ → ℤ → Option ℤ
div_ℤ a (pos zero) = none
div_ℤ (pos a) (pos (suc b)) = some (pos (a / suc b))
div_ℤ (negsuc a) (pos (suc b)) = some (neg (suc a / suc b))
div_ℤ (pos a) (negsuc b) = some (neg (a / suc b))
div_ℤ (negsuc a) (negsuc b) = some (pos (suc a / suc b))

abbrev pub mul_ℤ : ℤ → ℤ → ℤ
mul_ℤ (pos a) b = scale a b
mul_ℤ (negsuc a) b = opposite (scale (suc a) b)

-- `if(delta_t<=0) delta_t=std::numeric_limits<int>::max()/2000`
abbrev pub at_least_one : ℤ → ℕ
at_least_one (pos zero) = 1073741
at_least_one (pos (suc n)) = suc n
at_least_one (negsuc n) = 1073741

-- `delta_t_chucksize`, in seconds, for values whose products an `int` holds. The division of
-- `double`s is by `bps`, and `of_infinity` is what an infinite one becomes as a `long`.
unfoldable pub delta_t_chucksize : ℤ → ℕ → ℤ → ℤ → ℤ → ℕ → Start ℕ
delta_t_chucksize of_infinity nodeviceids nosamplesets compression_method stepsize targetmb =
    elim (div_ℤ (scale (120 * 4 * nodeviceids) nosamplesets) stepsize) [
      | none ↦ faulted
      | some each ↦
          let bps = scale (bit_count 8 (to_u32 compression_method)) each in
          elim (div_ℤ (pos (targetmb * 2 ^ 20)) bps) [
            | none ↦ go (at_least_one of_infinity)
            | some delta_t ↦ go (at_least_one delta_t)
          ]
    ]

-- `if (stepsize=="1" && compression_method.empty())`
unfoldable pub with_method : Options → Options
with_method o =
    if same_string o.stepsize (codes "1") && same_string o.compression_method []
    then record o { compression_method = codes "16" }
    else o

-- The `try` block that tests the sixth bit.
unfoldable pub check_method : Options → Start ℤ
unfolding stoi
check_method o = elim (stoi o.compression_method) [
  | ok local ↦
      if check_bit (to_u32 local) 5 && not (same_string o.stepsize (codes "1"))
      then exit (pos 5)
      else go local
  | invalid_argument ↦ exit (pos 6)
  | out_of_range ↦ exit (pos 6)
  | undefined ↦ exit (pos 6)
]

-- What the loop begins with: `delta_t` in milliseconds, and the times in milliseconds.
pub record Plan : Type 0 where
  pub options : Options
  pub nodeviceids : ℕ
  pub nosamplesets : ℤ
  pub delta_t : ℕ
  pub timestampstart : ℤ
  pub timestampend : ℤ

abbrev pub long_in_range : Option (Bool × ℕ) → Start ℤ
long_in_range none = uncaught
long_in_range (some (true, n)) = if ltb (2 ^ 63) n then uncaught else go (neg n)
long_in_range (some (false, n)) = if ltb n (2 ^ 63) then go (pos n) else uncaught

-- `stol`
unfoldable pub stol : List ℕ → Start ℤ
unfolding read_number
stol s = long_in_range (read_number s)

unfoldable pub counts : Options → Start (ℕ × ℤ)
unfolding sum_flags split
counts o = elim (sum_flags 12 (split o.requested)) [
  | none ↦ exit (pos 4)
  | some nosamplesets ↦ go (length (split o.deviceids), nosamplesets)
]

unfoldable pub plan : ℤ → Options → Start Plan
unfolding stoi with_method check_method counts delta_t_chucksize stol atoi
plan of_infinity given =
    let o = with_method given in
    check_method o >>=ₛ λ local. counts o >>=ₛ λ c.
    delta_t_chucksize of_infinity c.0 c.1 local (atoi o.stepsize) 32 >>=ₛ λ delta_t.
    or_uncaught (stoi o.calc_delta_t) >>=ₛ λ only.
    if nonzero only
    then exit (pos 0)
    else stol o.timestampstart >>=ₛ λ from. stol o.timestampend >>=ₛ λ until. go record {
      options = o;
      nodeviceids = c.0;
      nosamplesets = c.1;
      delta_t = delta_t * 1000;
      timestampstart = from;
      timestampend = until;
    }

-- The program up to the loop, for the arguments behind the name of the program.
unfoldable pub start : Resolver → ℤ → List ℕ → List (List ℕ) → Start Plan
unfolding enough_arguments read_options plan
start R of_infinity ip argv =
    if enough_arguments argv
    then read_options R argv (defaults ip) >>=ₛ plan of_infinity
    else exit (negsuc 0)
