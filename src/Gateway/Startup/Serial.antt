-- ===== src/Gateway/Startup/Serial.antt =====
-- The serial number of the uPMU stands on its page between the first cell behind its label and the
-- end of that cell.
use sparcs.Prelude.{
  ℕ, ◌+◌, ◌-◌, ◌^◌, ◌<◌, ◌≡◌, refl, sym, ap, ◌∙◌, Bool, true, false, not, ◌&&◌, some, List, [], ◌∷◌,
  ◌++◌, length, take, drop, length-append, ltb, arith,
}
use mathlib.Core.List.{append_assoc}
use sparcs.Gateway.Startup.{
  goes, starts_with, find, find_from, word, substr, tag0, tag1, tag2, serial_of,
}

-- A text `t` starts nowhere in `a`, where `r` follows.
abbrev pub absent : List ℕ → List ℕ → List ℕ → Bool
absent t [] r = true
absent t (c ∷ a) r = not (starts_with t (c ∷ (a ++ r))) && absent t a r

both_hold : (x y : Bool) → (not x && y) ≡ true → (x ≡ false) × (y ≡ true)
both_hold true y h = cc
both_hold false y h = (refl, h)

find-absent :
    (t a r : List ℕ)
    → absent t a r ≡ true
    → starts_with t r ≡ true
    → find t (a ++ r) ≡ some (length a)
find-absent t [] [] h s = rw s refl
find-absent t [] (c ∷ r) h s = rw s refl
find-absent t (c ∷ a) r h s =
    let (here, later) = both_hold (starts_with t (c ∷ (a ++ r))) (absent t a r) h in
    rw (here, find-absent t a r later s) refl

drop-append : (x y : List ℕ) → drop (length x) (x ++ y) ≡ y
drop-append [] y = refl
drop-append (c ∷ x) y = drop-append x y

take-append : (x y : List ℕ) → take (length x) (x ++ y) ≡ x
take-append [] y = refl
take-append (c ∷ x) y = ap (◌∷◌ c) (take-append x y)

find_from-absent :
    (t x a r : List ℕ)
    → absent t a r ≡ true
    → starts_with t r ≡ true
    → find_from t (x ++ (a ++ r)) (length x) ≡ some (length x + length a)
find_from-absent t x a r h s = rw (drop-append x (a ++ r), find-absent t a r h s) refl

substr-append : (x y z : List ℕ) → substr (x ++ (y ++ z)) (length x) (length y) ≡ goes y
substr-append x y z =
    let within : ltb (length (x ++ (y ++ z))) (length x) ≡ false =
      ground (arith, length-append x (y ++ z)) in
    rw (within, drop-append x (y ++ z), take-append y z) refl

-- A page up to the part `c` of its cell.
abbrev front : List ℕ → List ℕ → List ℕ → List ℕ
front a b c = a ++ (tag0 ++ (b ++ c))

front-append : (a b c y : List ℕ) → front a b c ++ y ≡ a ++ (tag0 ++ (b ++ (c ++ y)))
front-append a b c y =
    append_assoc a (tag0 ++ (b ++ c)) y ∙ ap (λ l. a ++ (tag0 ++ l)) (append_assoc b c y)

length-front : (a b c : List ℕ) → length (front a b c) ≡ length a + 22 + length b + length c
length-front a b c = length-append a (tag0 ++ (b ++ c)) ∙ omega (arith, length-append b c)

-- What is cut out of a page, for the three places found.
serial_at :
    (page : List ℕ) (l s e : ℕ)
    → find tag0 page ≡ some l
    → find_from tag1 page (word (l + 1)) ≡ some s
    → find_from tag2 page (word (s + 1)) ≡ some e
    → serial_of page ≡ substr page (word (s + 4)) (word (e + 2 ^ 64 + 2 ^ 64 - s - 4))
unfolding serial_of
serial_at page l s e p q r = rw (p, q, r) refl

small : (n : ℕ) → n < 2 ^ 64 → word n ≡ n
small n h = omega arith

-- The label behind its first character, and what stands between it and the cell.
abbrev behind_label : List ℕ → List ℕ
behind_label b = drop 1 tag0 ++ b

abbrev page_of : List ℕ → List ℕ → List ℕ → List ℕ → List ℕ
page_of a b serial rest = a ++ (tag0 ++ (b ++ (tag1 ++ (serial ++ (tag2 ++ rest)))))

length-page_of :
    (a b serial rest : List ℕ)
    → length (page_of a b serial rest)
      ≡ length a + 22 + length b + 4 + length serial + 5 + length rest
length-page_of a b serial rest =
    ap length (sym (front-append a b tag1 (serial ++ (tag2 ++ rest))))
    ∙ omega (
      arith,
      length-append (front a b tag1) (serial ++ (tag2 ++ rest)),
      length-front a b tag1,
      length-append serial (tag2 ++ rest),
    )

cell_found :
    (a b r : List ℕ)
    → absent tag1 b (tag1 ++ r) ≡ true
    → find_from tag1 (a ++ (tag0 ++ (b ++ (tag1 ++ r)))) (length a + 1)
      ≡ some (length a + 22 + length b)
cell_found a b r h =
    let x = a ++ 80 ∷ [] in
    let len : length x ≡ length a + 1 = length-append a (80 ∷ []) in
    let rest = behind_label b ++ (tag1 ++ r) in
    (λ i. find_from tag1 (sym (append_assoc a (80 ∷ []) rest) i) (sym len i))
    ∙ find_from-absent tag1 x (behind_label b) (tag1 ++ r) h refl
    ∙ ap some (omega (arith, len))

end_found :
    (a b serial r : List ℕ)
    → absent tag2 serial (tag2 ++ r) ≡ true
    → find_from tag2
        (a ++ (tag0 ++ (b ++ (tag1 ++ (serial ++ (tag2 ++ r))))))
        (length a + 22 + length b + 1)
      ≡ some (length a + 22 + length b + 4 + length serial)
end_found a b serial r h =
    let x = front a b (60 ∷ []) in
    let len : length x ≡ length a + 22 + length b + 1 = length-front a b (60 ∷ []) in
    let cell = 84 ∷ 68 ∷ 62 ∷ serial in
    (λ i. find_from tag2 (sym (front-append a b (60 ∷ []) (cell ++ (tag2 ++ r))) i) (sym len i))
    ∙ find_from-absent tag2 x cell (tag2 ++ r) h refl
    ∙ ap some (omega (arith, len))

cut_out :
    (a b serial r : List ℕ)
    → substr
        (a ++ (tag0 ++ (b ++ (tag1 ++ (serial ++ r)))))
        (length a + 22 + length b + 4)
        (length serial)
      ≡ goes serial
cut_out a b serial r =
    let len : length (front a b tag1) ≡ length a + 22 + length b + 4 = length-front a b tag1 in
    (λ i. substr (sym (front-append a b tag1 (serial ++ r)) i) (sym len i) (length serial))
    ∙ substr-append (front a b tag1) serial r

-- On a page of fewer than 2 ^ 64 bytes in which the label comes for the first time before some
-- text, behind which the first cell begins with the serial number, which the first end of a
-- cell closes: what is read is the serial number.
pub serial_of_lem :
    (a b serial rest : List ℕ)
    → absent tag0 a (tag0 ++ (b ++ (tag1 ++ (serial ++ (tag2 ++ rest))))) ≡ true
    → absent tag1 b (tag1 ++ (serial ++ (tag2 ++ rest))) ≡ true
    → absent tag2 serial (tag2 ++ rest) ≡ true
    → length (a ++ (tag0 ++ (b ++ (tag1 ++ (serial ++ (tag2 ++ rest)))))) < 2 ^ 64
    → serial_of (a ++ (tag0 ++ (b ++ (tag1 ++ (serial ++ (tag2 ++ rest)))))) ≡ goes serial
serial_of_lem a b serial rest ha hb hs small_page =
    let l = length a in
    let s = length a + 22 + length b in
    let n = length serial in
    let page = page_of a b serial rest in
    let fits : s + 4 + n < 2 ^ 64 = omega (arith, length-page_of a b serial rest, small_page) in
    let found : serial_of page
        ≡ substr page (word (s + 4)) (word (s + 4 + n + 2 ^ 64 + 2 ^ 64 - s - 4)) =
      serial_at page l s (s + 4 + n)
        (find-absent tag0 a (tag0 ++ (b ++ (tag1 ++ (serial ++ (tag2 ++ rest))))) ha refl)
        (ap (find_from tag1 page) (small (l + 1) (omega arith))
          ∙ cell_found a b (serial ++ (tag2 ++ rest)) hb)
        (ap (find_from tag2 page) (small (s + 1) (omega arith)) ∙ end_found a b serial rest hs) in
    let from : word (s + 4) ≡ s + 4 = small (s + 4) (omega arith) in
    let count : word (s + 4 + n + 2 ^ 64 + 2 ^ 64 - s - 4) ≡ n = omega arith in
    found ∙ (λ i. substr page (from i) (count i)) ∙ cut_out a b serial (tag2 ++ rest)
