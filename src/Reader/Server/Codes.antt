-- ===== src/Reader/Server/Codes.antt =====
-- The client takes each code of the server for what it is.
use sparcs.Prelude.{
  ℕ, zero, suc, ◌≤◌, ◌≡◌, refl, Bool, true, false, Option, none, some, List, arith,
}
use mathlib.Core.Path.{subst}
use sparcs.Prelude.Ints.{ℤ}
use sparcs.Reader.Request
use sparcs.Reader.Request.{Result, Fields, Window, parse_request}
use sparcs.Reader.Response.{SampleOps}
use sparcs.Reader.Server.{
  Rows, Progress, Served, finished, thrown, undefined, hung, Reply, payload, error_code, no_meaning,
  no_end, reply_of, reply_to, socket_handler, code_packet, code_received,
}

-- The four codes.
abbrev pub IsCode : ℕ → Type 0
IsCode k = (1 ≤ k) × (k ≤ 4)

pub code_received-code_packet :
    (k : ℕ) (junk : List ℕ) → IsCode k → code_received (code_packet k junk) ≡ some k
unfolding code_received
code_received-code_packet zero junk h = absurd (omega arith)
code_received-code_packet (suc zero) junk h = refl
code_received-code_packet (suc (suc zero)) junk h = refl
code_received-code_packet (suc (suc (suc zero))) junk h = refl
code_received-code_packet (suc (suc (suc (suc zero)))) junk h = refl
code_received-code_packet (suc (suc (suc (suc (suc k))))) junk h = absurd (omega arith)

-- No reply has another code.
abbrev CodeFits {ℓ} : {A : Type ℓ} → Reply A → Type 0
CodeFits (payload f p) = Unit
CodeFits (error_code k) = IsCode k
CodeFits no_meaning = Unit
CodeFits no_end = Unit

module _ {ℓ} {A : Type ℓ} (F : SampleOps A) (plus_skipped : ℕ → ℕ → ℕ) where
  module _ (query : List ℕ → Window → Rows A) where
    ended-CodeFits :
        (f : Fields) (p : Progress A) (t : Option ℤ) (refused : Bool)
        → CodeFits (
            reply_of F plus_skipped query f
              (finished (record p { timestampend = t; refused = refused })))
    ended-CodeFits f p (some t) b = tt
    ended-CodeFits f p none true = omega arith
    ended-CodeFits f p none false = tt

    reply_of-CodeFits :
        (f : Fields) (r : Served (Progress A)) → CodeFits (reply_of F plus_skipped query f r)
    reply_of-CodeFits f (finished p) = ended-CodeFits f p p.timestampend p.refused
    reply_of-CodeFits f thrown = omega arith
    reply_of-CodeFits f undefined = tt
    reply_of-CodeFits f hung = tt

    reply_to-CodeFits :
        (n : ℕ) (r : Result (Fields × Window)) → CodeFits (reply_to F plus_skipped query n r)
    reply_to-CodeFits n (Request.ok (f, w)) = reply_of-CodeFits f _
    reply_to-CodeFits n Request.invalid_argument = omega arith
    reply_to-CodeFits n Request.out_of_range = omega arith
    reply_to-CodeFits n Request.undefined = tt

    socket_handler-CodeFits :
        (connected : Bool) (n : ℕ) (sent : List ℕ)
        → CodeFits (socket_handler F plus_skipped query connected n sent)
    unfolding socket_handler
    socket_handler-CodeFits false n sent = omega arith
    socket_handler-CodeFits true n sent = reply_to-CodeFits n (parse_request sent)

    -- Whatever request is handled, connected to Cassandra or not: if the server replies
    -- with a code, then the client finds just this code in the first four bytes of the
    -- packet, whatever stands in memory behind it.
    pub socket_handler-code_received :
        (connected : Bool) (n : ℕ) (sent junk : List ℕ) (k : ℕ)
        → socket_handler F plus_skipped query connected n sent ≡ error_code k
        → code_received (code_packet k junk) ≡ some k
    socket_handler-code_received connected n sent junk k e =
        code_received-code_packet k junk
          (subst CodeFits e (socket_handler-CodeFits connected n sent))
