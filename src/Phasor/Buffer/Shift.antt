-- ===== src/Phasor/Buffer/Shift.antt =====
-- The copying loops of C37_Buffer.cpp: what the array holds after them.
use sparcs.Prelude.{
  ℕ, zero, suc, ◌+◌, ◌-◌, ◌≤◌, ◌<◌, ◌≡◌, refl, sym, ◌∙◌, List, length, get_or, set, take, drop,
  arith, length-set, get_or-set_self, get_or-set_ne, get_or-take, get_or-drop, eq_of_get_or,
  length-take, length-drop,
}
use sparcs.Phasor.Buffer.{move_down, copy_down}

pub length-move_down : (n i j : ℕ) (buf : List ℕ) → length (move_down n i j buf) ≡ length buf
unfolding move_down
length-move_down zero i j buf = refl
length-move_down (suc n) i j buf =
    length-move_down n (i + 1) (j + 1) (set buf j (get_or buf i 0))
    ∙ length-set buf j (get_or buf i 0)

-- Cells below the target are left alone.
move_down_below :
    (n i j k : ℕ) (buf : List ℕ) → k < j → get_or (move_down n i j buf) k 0 ≡ get_or buf k 0
unfolding move_down
move_down_below zero i j k buf h = refl
move_down_below (suc n) i j k buf h =
    move_down_below n (i + 1) (j + 1) k (set buf j (get_or buf i 0)) (omega arith)
    ∙ get_or-set_ne buf j k (get_or buf i 0) 0 (λ e. omega arith)

-- The target is never ahead of the source, so each cell is read before it is overwritten.
pub move_down_lem :
    (n i j k : ℕ) (buf : List ℕ)
    → j ≤ i
    → k < n
    → j + k < length buf
    → get_or (move_down n i j buf) (j + k) 0 ≡ get_or buf (i + k) 0
unfolding move_down
move_down_lem zero i j k buf h p q = absurd (omega arith)
move_down_lem (suc n) i j zero buf h p q =
    let e : j + zero ≡ j = omega arith in
    let e' : i + zero ≡ i = omega arith in
    rw (e, e')
      (move_down_below n (i + 1) (j + 1) j (set buf j (get_or buf i 0)) (omega arith)
        ∙ get_or-set_self buf j (get_or buf i 0) 0 (omega arith))
move_down_lem (suc n) i j (suc k) buf h p q =
    let buf' : List ℕ = set buf j (get_or buf i 0) in
    let e : j + suc k ≡ j + 1 + k = omega arith in
    let e' : i + suc k ≡ i + 1 + k = omega arith in
    rw (e, e')
      (move_down_lem n (i + 1) (j + 1) k buf' (omega arith) (omega arith)
          (omega (arith, length-set buf j (get_or buf i 0)))
        ∙ get_or-set_ne buf j (i + 1 + k) (get_or buf i 0) 0 (λ e. omega arith))

-- What is left of `v` valid bytes when the first `m` go.
pub take-move_down :
    (v m : ℕ) (buf : List ℕ)
    → m ≤ v
    → v ≤ length buf
    → take (v - m) (move_down (v + 1 - m) m 0 buf) ≡ drop m (take v buf)
take-move_down v m buf h p =
    eq_of_get_or 0 _ _
      (omega (
        arith,
        length-take (v - m) (move_down (v + 1 - m) m 0 buf),
        length-move_down (v + 1 - m) m 0 buf,
        length-drop m (take v buf),
        length-take v buf,
      ))
      (λ k q.
        let small : k < v - m = omega (
          arith,
          q,
          length-take (v - m) (move_down (v + 1 - m) m 0 buf),
          length-move_down (v + 1 - m) m 0 buf,
        ) in
        let e : 0 + k ≡ k = omega arith in
        get_or-take (v - m) k (move_down (v + 1 - m) m 0 buf) 0 small
        ∙ (rw e at (move_down_lem (v + 1 - m) m 0 k buf (omega arith) (omega arith) (omega arith)))
        ∙ sym (get_or-take v (m + k) buf 0 (omega arith))
        ∙ sym (get_or-drop m k (take v buf) 0))

-- The loop with a second target changes the buffer as the plain one does.
pub copy_down-move_down :
    (n i j : ℕ) (out buf : List ℕ) → (copy_down n i j out buf).1 ≡ move_down n i j buf
unfolding copy_down move_down
copy_down-move_down zero i j out buf = refl
copy_down-move_down (suc n) i j out buf =
    copy_down-move_down n (i + 1) (j + 1) (set out j (get_or buf i 0)) (set buf j (get_or buf i 0))
