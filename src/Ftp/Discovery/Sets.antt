-- ===== src/Ftp/Discovery/Sets.antt =====
-- The sets of names: the first of a set, and a set without a name.
use sparcs.Prelude.{
  ℕ, ◌≡◌, refl, ap, sym, ◌∙◌, arith, Bool, true, false, not, ◌&&◌, ◌||◌, Bool-cases, inl, inr, List,
  [], ◌∷◌, ==_iff, if◌then◌else◌,
}
use sparcs.Ftp.FileList.{same_string, contains, string_less, first_of, erase}
use sparcs.Ftp.FileList.Filter.{same_string_eq}

pub same_string_refl : (s : List ℕ) → same_string s s ≡ true
same_string_refl [] = refl
same_string_refl (x ∷ xs) = let e = (==_iff x x).1 refl in let r = same_string_refl xs in rw (e, r)

pub same_string_sym : (s t : List ℕ) → same_string s t ≡ same_string t s
same_string_sym s t = elim (Bool-cases (same_string s t)) [
  | inl e ↦ let p = same_string_eq s t e in rw (p, same_string_refl t)
  | inr e ↦ elim (Bool-cases (same_string t s)) [
    | inl f ↦ let p = same_string_eq t s f in rw (p, same_string_refl s)
    | inr f ↦ e ∙ sym f
  ]
]

either :
    (b : Bool) (f s t : List ℕ) (c : Bool)
    → (same_string f (if b then t else s) || c) ≡ true
    → (same_string f s || (same_string f t || c)) ≡ true
either true f s t c h = ground arith
either false f s t c h = ground arith

pub contains-first_of : (s : List ℕ) (ts : List (List ℕ)) → contains (first_of s ts) (s ∷ ts) ≡ true
contains-first_of s [] = let r = same_string_refl s in rw r
contains-first_of s (t ∷ ts) =
    let next = if string_less t s then t else s in
    let f = first_of next ts in
    either (string_less t s) f s t (contains f ts) (contains-first_of next ts)

and_false : (b : Bool) → (b && false) ≡ false
and_false true = refl
and_false false = refl

apart :
    (s name t : List ℕ)
    → same_string name t ≡ false
    → (same_string s t && same_string s name) ≡ false
apart s name t e = elim (Bool-cases (same_string s t)) [
  | inl f ↦
      let p = same_string_eq s t f in
      let q : same_string s name ≡ false =
        ap (λ u. same_string u name) p ∙ (same_string_sym t name ∙ e) in
      rw q (and_false (same_string s t))
  | inr f ↦ rw f
]

erase_bools : (st c sn nt : Bool) → nt ≡ true → st ≡ sn → (c && not sn) ≡ ((st || c) && not sn)
erase_bools st c sn nt e f = ground arith

keep_bools : (st c sn : Bool) → (st && sn) ≡ false → (st || (c && not sn)) ≡ ((st || c) && not sn)
keep_bools st c sn e = ground arith

pub contains-erase :
    (s name : List ℕ) (ts : List (List ℕ))
    → contains s (erase name ts) ≡ (contains s ts && not (same_string s name))
contains-erase s name [] = refl
contains-erase s name (t ∷ ts) = elim (Bool-cases (same_string name t)) [
  | inl e ↦
      let p = same_string_eq name t e in
      rw e (
        contains-erase s name ts
        ∙ erase_bools (same_string s t) (contains s ts) (same_string s name) true refl
            (ap (same_string s) (sym p)))
  | inr e ↦ rw e (
      ap (λ b. same_string s t || b) (contains-erase s name ts)
      ∙ keep_bools (same_string s t) (contains s ts) (same_string s name) (apart s name t e))
]
