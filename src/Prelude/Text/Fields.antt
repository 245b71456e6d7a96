-- ===== src/Prelude/Text/Fields.antt =====
-- Texts joined by a separator are split again.
use Prim.Native.Nat.{ℕ}
use mathlib.Core.Path.{◌≡◌, refl, ◌∙◌}
use mathlib.Core.Logic.{◌≢◌}
use mathlib.Core.List.{List, [], ◌∷◌, ◌++◌, append_assoc, append-nil}
use native.Mathlib.Omega.{arith}
use sparcs.Prelude.Text.{split_from, join, flush, c_string}

abbrev pub Avoids : ℕ → List ℕ → Type 0
Avoids sep [] = Unit
Avoids sep (c ∷ cs) = (c ≢ sep) × Avoids sep cs

abbrev pub AllAvoid : ℕ → List (List ℕ) → Type 0
AllAvoid sep [] = Unit
AllAvoid sep (t ∷ ts) = Avoids sep t × AllAvoid sep ts

-- The last of the texts is there and is not empty.
abbrev pub EndsFull : List (List ℕ) → Type 0
EndsFull [] = ⊥
EndsFull (t ∷ []) = t ≢ []
EndsFull (t ∷ u ∷ ts) = EndsFull (u ∷ ts)

pub AllAvoid-append :
    (sep : ℕ) (ts us : List (List ℕ)) → AllAvoid sep ts → AllAvoid sep us → AllAvoid sep (ts ++ us)
AllAvoid-append sep [] us h k = k
AllAvoid-append sep (t ∷ ts) us (a, h) k = (a, AllAvoid-append sep ts us h k)

pub EndsFull-append : (ts us : List (List ℕ)) → EndsFull us → EndsFull (ts ++ us)
EndsFull-append [] us h = h
EndsFull-append (t ∷ []) [] h = absurd h
EndsFull-append (t ∷ []) (u ∷ us) h = h
EndsFull-append (t ∷ v ∷ ts) us h = EndsFull-append (v ∷ ts) us h

flush_full : (t : List ℕ) → t ≢ [] → flush t ≡ t ∷ []
flush_full [] h = absurd (h refl)
flush_full (c ∷ t) h = refl

-- Up to a separator, or to the end.
split_from_part :
    (sep : ℕ) (part t rest : List ℕ)
    → Avoids sep t
    → split_from sep part (t ++ sep ∷ rest) ≡ (part ++ t) ∷ split_from sep [] rest
split_from_part sep part [] rest h = rw append-nil (ground arith)
split_from_part sep part (c ∷ t) rest (n, h) =
    ground (arith, split_from_part sep (part ++ c ∷ []) t rest h, append_assoc part (c ∷ []) t)

split_from_last :
    (sep : ℕ) (part t : List ℕ) → Avoids sep t → split_from sep part t ≡ flush (part ++ t)
split_from_last sep part [] h = rw append-nil refl
split_from_last sep part (c ∷ t) (n, h) =
    ground (arith, split_from_last sep (part ++ c ∷ []) t h, append_assoc part (c ∷ []) t)

pub split-join :
    (sep : ℕ) (ts : List (List ℕ))
    → AllAvoid sep ts
    → EndsFull ts
    → split_from sep [] (join sep ts) ≡ ts
split-join sep [] h e = absurd e
split-join sep (t ∷ []) (a, h) e = split_from_last sep [] t a ∙ flush_full t e
split-join sep (t ∷ u ∷ ts) (a, h) e =
    rw (split_from_part sep [] t (join sep (u ∷ ts)) a, split-join sep (u ∷ ts) h e) refl

pub join-append :
    (sep : ℕ) (t u : List ℕ) (ts us : List (List ℕ))
    → join sep ((t ∷ ts) ++ u ∷ us) ≡ join sep (t ∷ ts) ++ sep ∷ join sep (u ∷ us)
join-append sep t u [] us = refl
join-append sep t u (v ∷ ts) us = rw (join-append sep v u ts us, append_assoc) refl

pub Avoids-append : (sep : ℕ) (s t : List ℕ) → Avoids sep s → Avoids sep t → Avoids sep (s ++ t)
Avoids-append sep [] t h k = k
Avoids-append sep (c ∷ s) t (n, h) k = (n, Avoids-append sep s t h k)

pub Avoids-join :
    (c sep : ℕ) (ts : List (List ℕ)) → sep ≢ c → AllAvoid c ts → Avoids c (join sep ts)
Avoids-join c sep [] n h = tt
Avoids-join c sep (t ∷ []) n (a, h) = a
Avoids-join c sep (t ∷ u ∷ ts) n (a, h) = Avoids-append c t _ a (n, Avoids-join c sep (u ∷ ts) n h)

pub c_string-Avoids : (s rest : List ℕ) → Avoids 0 s → c_string (s ++ 0 ∷ rest) ≡ s
c_string-Avoids [] rest h = refl
c_string-Avoids (c ∷ s) rest (n, h) = ground (arith, c_string-Avoids s rest h)
