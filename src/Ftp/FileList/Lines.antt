-- ===== src/Ftp/FileList/Lines.antt =====
-- A listing as a server sends it: a name on each line.
use sparcs.Prelude.{
  ℕ, ◌<◌, ◌≡◌, ◌≢◌, refl, ap, ◌∙◌, sym, arith, false, List, [], ◌∷◌, ◌++◌, length, map, ◌==◌,
}
use mathlib.Core.List.{flatten, append_assoc, append-nil}
use sparcs.Ftp.FileList.{flush, tokens_from, c_string, write_memory}

-- A name that is not empty and has neither a zero nor a line feed.
abbrev pub Clean : List ℕ → Type 0
Clean [] = Unit {0}
Clean (c ∷ cs) = (c ≢ 0) × (c ≢ 10) × Clean cs

abbrev pub AllNames : List (List ℕ) → Type 0
AllNames [] = Unit {0}
AllNames (n ∷ ns) = (0 < length n) × Clean n × AllNames ns

abbrev pub listing : List (List ℕ) → List ℕ
listing ns = flatten (map (λ n. n ++ 10 ∷ []) ns)

c_string-Clean : (n rest : List ℕ) → Clean n → c_string (n ++ 10 ∷ rest) ≡ n ++ 10 ∷ c_string rest
c_string-Clean [] rest a = refl
c_string-Clean (c ∷ cs) rest a =
    let e : (c == 0) ≡ false = ground arith in rw e (ap (λ s. c ∷ s) (c_string-Clean cs rest a.2))

c_string-listing : (ns : List (List ℕ)) → AllNames ns → c_string (listing ns ++ 0 ∷ []) ≡ listing ns
unfolding flatten
c_string-listing [] a = refl
c_string-listing (n ∷ ns) a =
    ap c_string (
      append_assoc (n ++ 10 ∷ []) (listing ns) (0 ∷ [])
      ∙ append_assoc n (10 ∷ []) (listing ns ++ 0 ∷ []))
    ∙ c_string-Clean n (listing ns ++ 0 ∷ []) a.1
    ∙ ap (λ s. n ++ 10 ∷ s) (c_string-listing ns a.2)
    ∙ sym (append_assoc n (10 ∷ []) (listing ns))

tokens_from-Clean :
    (part n rest : List ℕ)
    → Clean n
    → tokens_from part (n ++ 10 ∷ rest) ≡ flush (part ++ n) ++ tokens_from [] rest
tokens_from-Clean part [] rest a = rw (append-nil part) refl
tokens_from-Clean part (c ∷ cs) rest a =
    let e : (c == 10) ≡ false = ground arith in
    rw e (
      tokens_from-Clean (part ++ c ∷ []) cs rest a.2
      ∙ ap (λ s. flush s ++ tokens_from [] rest) (append_assoc part (c ∷ []) cs))

flush_name : (n : List ℕ) → 0 < length n → flush n ≡ n ∷ []
flush_name [] h = absurd (omega arith)
flush_name (c ∷ cs) h = refl

tokens_from-listing : (ns : List (List ℕ)) → AllNames ns → tokens_from [] (listing ns) ≡ ns
unfolding flatten
tokens_from-listing [] a = refl
tokens_from-listing (n ∷ ns) a =
    ap (tokens_from []) (append_assoc n (10 ∷ []) (listing ns))
    ∙ tokens_from-Clean [] n (listing ns) a.1
    ∙ rw (flush_name n a.0, tokens_from-listing ns a.2) refl

-- If a transfer delivers at least one chunk, and the chunks are together the lines of a
-- listing, whose names are not empty and have neither a zero nor a line feed, then the tokens
-- that the code reads from its memory are those names in order, however the listing was cut
-- into chunks and whatever the memory held before.
pub names_come_back :
    (ns chunks : List (List ℕ)) (unwritten : List ℕ)
    → AllNames ns
    → 0 < length chunks
    → flatten chunks ≡ listing ns
    → tokens_from [] (c_string (write_memory unwritten chunks)) ≡ ns
unfolding write_memory
names_come_back ns [] unwritten a h e = absurd (omega arith)
names_come_back ns (c ∷ cs) unwritten a h e =
    ap (λ t. tokens_from [] (c_string (t ++ 0 ∷ []))) e
    ∙ ap (tokens_from []) (c_string-listing ns a)
    ∙ tokens_from-listing ns a
