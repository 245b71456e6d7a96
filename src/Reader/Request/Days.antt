-- ===== src/Reader/Request/Days.antt =====
-- The days of a query are those of the times that it asks for.
use sparcs.Prelude.{
  ℕ, zero, suc, ◌+◌, ◌-◌, ◌*◌, ◌/◌, ◌%◌, ◌^◌, ◌≤◌, ◌<◌, ◌≡◌, refl, ap, ◌⊎◌, inl, inr, List, [], ◌∷◌,
  arith,
}
use native.Mathlib.Decide.{dec_lt}
use sparcs.Prelude.Ints.{ℤ, pos, negsuc, opposite, to_ℕ, ◌+ℤ◌}
use sparcs.Prelude.Text.{to_string}
use sparcs.Reader.Request.{days_after, days_between, to_int, window_of}
use sparcs.Reader.Request.Numbers.{read_u64-to_string}

abbrev pub Listed : ℤ → List ℤ → Type 0
Listed d [] = ⊥
Listed d (e ∷ es) = (d ≡ e) ⊎ Listed d es

after-Listed : (k i d : ℕ) → i < d → d ≤ i + k → Listed (pos d) (days_after k (pos i))
unfolding days_after
after-Listed zero i d low high = absurd (omega arith)
after-Listed (suc k) i d low high = elim (dec_lt (i + 1) d) [
  | yes p ↦ inr (after-Listed k (i + 1) d p (omega arith))
  | no p ↦ inl (ground arith)
]

-- Days that are not negative, and between two.
abbrev pub Between : ℕ → ℕ → ℤ → Type 0
Between a b (pos n) = (a ≤ n) × (n ≤ b)
Between a b (negsuc n) = ⊥

after-Between : (k i : ℕ) (d : ℤ) → Listed d (days_after k (pos i)) → Between (i + 1) (i + k) d
unfolding days_after
after-Between zero i d h = absurd h
after-Between (suc k) i d (inl e) = rw e (omega arith)
after-Between (suc k) i (pos n) (inr h) = omega (arith, after-Between k (i + 1) (pos n) h)
after-Between (suc k) i (negsuc n) (inr h) = after-Between k (i + 1) (negsuc n) h

rounds : (a b : ℕ) → a ≤ b → to_ℕ (pos b +ℤ opposite (pos a)) ≡ b - a
rounds zero b h = omega arith
rounds (suc a) b h = ground arith

to_int_small : (n : ℕ) → n < 2 ^ 31 → to_int n ≡ pos n
to_int_small n h = ground arith

days_between-Listed : (a b d : ℕ) → a ≤ d → d ≤ b → Listed (pos d) (days_between (pos a) (pos b))
unfolding days_between
days_between-Listed a b d low high = elim (dec_lt a d) [
  | yes p ↦ rw (rounds a b (omega arith)) (inr (after-Listed (b - a) a d p (omega arith)))
  | no p ↦ inl (ap pos (omega arith))
]

days_between-Between :
    (a b : ℕ) (d : ℤ) → a ≤ b → Listed d (days_between (pos a) (pos b)) → Between a b d
unfolding days_between
days_between-Between a b d h (inl e) = rw e (omega arith)
days_between-Between a b (pos n) h (inr l) =
    omega (arith, after-Between (b - a) a (pos n) (rw (rounds a b h) at l))
days_between-Between a b (negsuc n) h (inr l) =
    after-Between (b - a) a (negsuc n) (rw (rounds a b h) at l)

-- The times that are asked for, and the day they are stored under.
module _ (from until : ℕ) (enough : 999 ≤ from) (forward : from ≤ until)
    (small : until < 2 ^ 31 * 86400000) where
  back : (from + 2 ^ 64 - 999) % 2 ^ 64 ≡ from - 999
  back = omega arith

  window_of_from : (window_of (to_string from) (to_string until)).timestamp_from ≡ from - 999
  unfolding window_of
  window_of_from = rw (read_u64-to_string from (omega arith)) back

  window_of_days :
      (window_of (to_string from) (to_string until)).day
      ≡ days_between (pos ((from - 999) / 86400000)) (pos (until / 86400000))
  unfolding window_of
  window_of_days =
      rw
        (
          read_u64-to_string from (omega arith),
          read_u64-to_string until (omega arith),
          back,
          to_int_small ((from - 999) / 86400000) (omega arith),
          to_int_small (until / 86400000) (omega arith),
        )
        refl

  -- For times from 999 milliseconds on, the start not behind the end, and days that fit an
  -- `int`: the query begins 999 milliseconds before the start, its list of days has the day
  -- of each time from there to the end, and no day outside of them.
  pub window_of-Listed :
      ((window_of (to_string from) (to_string until)).timestamp_from ≡ from - 999)
      × ((t : ℕ)
          → from - 999 ≤ t
          → t < until
          → Listed (pos (t / 86400000)) (window_of (to_string from) (to_string until)).day)
      × ((d : ℤ)
          → Listed d (window_of (to_string from) (to_string until)).day
          → Between ((from - 999) / 86400000) (until / 86400000) d)
  window_of-Listed = (
    window_of_from,
    λ t low high.
        rw window_of_days (days_between-Listed _ _ (t / 86400000) (omega arith) (omega arith)),
    λ d l. days_between-Between _ _ d (omega arith) (rw window_of_days at l),
  )
