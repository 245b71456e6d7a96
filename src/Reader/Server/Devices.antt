-- ===== src/Reader/Server/Devices.antt =====
-- Which devices a payload has, and when the handler sends a code in its place.
use sparcs.Prelude.{
  ℕ, ◌≡◌, refl, sym, ap, ◌∙◌, Bool, true, false, Option, none, some, List, [], ◌∷◌, ◌++◌, map,
  Option-cases,
}
use mathlib.Core.Logic.{◌⊎◌, inl, inr}
use mathlib.Core.List.{append_assoc, append-nil, map-append, cons-ne-nil}
use sparcs.Prelude.Ints.{ℤ}
use sparcs.Reader.Compress.{Compressed, samples, out_of_range, running}
use sparcs.Reader.Response.{SampleOps, SampleSet, least_time}
use sparcs.Reader.Request.{Fields, Window}
use sparcs.Reader.Server.{
  Rows, Output, Progress, Served, finished, thrown, undefined, hung, and_next, time_covered, Reply,
  payload, error_code, no_meaning, no_end, close_device, vectors, answer_device, answer_devices,
  reply_of, first_progress,
}

-- What holds of the state, if the loop gets there.
abbrev pub Post {ℓ κ} : {S : Type ℓ} → Served S → (S → Type κ) → Type κ
Post (finished s) P = P s
Post thrown P = Unit
Post undefined P = Unit
Post hung P = Unit

Post-and_next {ℓ κ λ'} :
    {S : Type ℓ} {T : Type κ} (m : Served S) (f : S → Served T) (P : T → Type λ')
    → Post m (λ s. Post (f s) P)
    → Post (and_next m f) P
Post-and_next (finished s) f P h = h
Post-and_next thrown f P h = tt
Post-and_next undefined f P h = tt
Post-and_next hung f P h = tt

Post_mono {ℓ κ λ'} :
    {S : Type ℓ} (m : Served S) (P : S → Type κ) (Q : S → Type λ')
    → Post m P
    → ((s : S) → P s → Q s)
    → Post m Q
Post_mono (finished s) P Q h g = g s h
Post_mono thrown P Q h g = tt
Post_mono undefined P Q h g = tt
Post_mono hung P Q h g = tt

module _ {ℓ} {A : Type ℓ} (F : SampleOps A) (plus_skipped : ℕ → ℕ → ℕ) where
  -- A payload without an end has no sets.
  abbrev HasSets : Option ℤ → List (Output A) → Type ℓ
  HasSets none os = os ≡ []
  HasSets (some t) os = Unit

  abbrev pub ids : List (Output A) → List (List ℕ)
  ids os = map (λ o. o.deviceid) os

  -- The device, if its query was answered.
  abbrev pub kept : List ℕ → Rows A → List (List ℕ)
  kept d none = []
  kept d (some rows) = d ∷ []

  abbrev Advance : Progress A → List (List ℕ) → Progress A → Type ℓ
  Advance p ds q = (ids q.outputsets ≡ ids p.outputsets ++ ds) × HasSets q.timestampend q.outputsets

  close_device-Advance :
      (device : List ℕ) (step : ℤ) (t : ℕ) (p : Progress A) (r : Compressed (SampleSet A) × ℕ)
      → Post (close_device F plus_skipped device step t p r) (Advance p (device ∷ []))
  close_device-Advance device step t p (samples sets, n) =
      elim (Option-cases (time_covered n step)) [
        | inl e ↦ rw (e, Post) tt
        | inr (d, e) ↦ rw (e, Post) (map-append (λ o. o.deviceid) p.outputsets _, tt)
      ]
  close_device-Advance device step t p (out_of_range, n) = tt
  close_device-Advance device step t p (running, n) = tt

  answer_device-Advance :
      (f : Fields) (w : Window) (d : List ℕ) (o : Rows A) (p : Progress A)
      → HasSets p.timestampend p.outputsets
      → Post (answer_device F plus_skipped f w d o p) (Advance p (kept d o))
  unfolding answer_device
  answer_device-Advance f w d none p h = (sym (append-nil _), h)
  answer_device-Advance f w d (some rows) p h =
      elim (Option-cases (least_time p.timestampcass (map (λ r. r.0) rows))) [
        | inl e ↦ rw (e, Post) tt
        | inr (t, e) ↦
            rw (e, Post)
              (elim (Option-cases (vectors F plus_skipped w.skip (map (λ r. r.1) rows))) [
                | inl v ↦ rw (v, Post) tt
                | inr (vector, v) ↦
                    rw (v, Post) (close_device-Advance d f.stepsize (plus_skipped t w.skip) p _)
              ])
      ]

  module _ (query : List ℕ → Window → Rows A) (f : Fields) (w : Window) where
    -- The devices whose query was answered, in the order of the request.
    abbrev pub answered : List (List ℕ) → List (List ℕ)
    answered [] = []
    answered (d ∷ ds) = kept d (query d w) ++ answered ds

    answer_devices-Advance :
        (ds : List (List ℕ)) (p : Progress A)
        → HasSets p.timestampend p.outputsets
        → Post (answer_devices F plus_skipped query f w ds p) (Advance p (answered ds))
    unfolding answer_devices
    answer_devices-Advance [] p h = (sym (append-nil _), h)
    answer_devices-Advance (d ∷ ds) p h =
        Post-and_next (answer_device F plus_skipped f w d (query d w) p) _ _ (
          Post_mono (answer_device F plus_skipped f w d (query d w) p) _ _
            (answer_device-Advance f w d (query d w) p h)
            (λ q g.
              Post_mono (answer_devices F plus_skipped query f w ds q) _ _
                (answer_devices-Advance ds q g.1)
                (λ r k. (k.0 ∙ rw g.0 (append_assoc (ids p.outputsets) _ _), k.1))))

    all_refused :
        (d : List ℕ) (ds : List (List ℕ)) (p : Progress A)
        → answered (d ∷ ds) ≡ []
        → answer_devices F plus_skipped query f w (d ∷ ds) p
          ≡ finished (record p { refused = true })
    unfolding answer_devices answer_device
    all_refused d [] p e = elim (Option-cases (query d w)) [
      | inl q ↦ rw q refl
      | inr (rows, q) ↦ absurd (cons-ne-nil d [] (sym (ap (λ o. kept d o ++ []) q) ∙ e))
    ]
    all_refused d (c ∷ ds) p e = elim (Option-cases (query d w)) [
      | inl q ↦ rw q (
          all_refused c ds (record p { refused = true })
            (sym (ap (λ o. kept d o ++ answered (c ∷ ds)) q) ∙ e))
      | inr (rows, q) ↦
          absurd (
            cons-ne-nil d (answered (c ∷ ds)) (sym (ap (λ o. kept d o ++ answered (c ∷ ds)) q) ∙ e))
    ]

    -- What a reply says of the devices.
    abbrev pub Says : List (List ℕ) → Reply A → Type 0
    Says ds (payload g p) = ids p.outputsets ≡ answered ds
    Says ds (error_code k) = (k ≡ 2) ⊎ ((k ≡ 4) × (answered ds ≡ []))
    Says ds no_meaning = Unit
    Says ds no_end = Unit

    finished-Says :
        (ds : List (List ℕ)) (t : Option ℤ) (c : Option ℕ) (n : ℕ) (refused : Bool)
        (os : List (Output A))
        → ids os ≡ answered ds
        → HasSets t os
        → Says ds (
            reply_of F plus_skipped query f (
              finished record {
                timestampcass = c;
                numsamples = n;
                refused = refused;
                timestampend = t;
                outputsets = os;
              }))
    finished-Says ds (some t) c n refused os e h = e
    finished-Says ds none c n true os e h = inr (refl, sym e ∙ ap ids h)
    finished-Says ds none c n false os e h = e

    Post-Says :
        (ds : List (List ℕ)) (n : ℕ) (r : Served (Progress A))
        → Post r (Advance (first_progress F plus_skipped query n) (answered ds))
        → Says ds (reply_of F plus_skipped query f r)
    Post-Says ds n (finished p) h =
        finished-Says ds p.timestampend p.timestampcass p.numsamples p.refused p.outputsets h.0 h.1
    Post-Says ds n thrown h = inl refl
    Post-Says ds n undefined h = tt
    Post-Says ds n hung h = tt

    abbrev pub reply_for : ℕ → List (List ℕ) → Reply A
    reply_for n ds =
        reply_of F plus_skipped query f
          (answer_devices F plus_skipped query f w ds (first_progress F plus_skipped query n))

    -- For a request with at least one device, whatever the database answers: a payload has
    -- exactly the devices whose queries were answered, in the order of the request; the
    -- code is -2, or it is -4 and no query was answered; and if none was answered, then the
    -- code is -4.
    pub reply_of-Says :
        (n : ℕ) (d : List ℕ) (ds : List (List ℕ))
        → Says (d ∷ ds) (reply_for n (d ∷ ds))
          × (answered (d ∷ ds) ≡ [] → reply_for n (d ∷ ds) ≡ error_code 4)
    reply_of-Says n d ds = (
      Post-Says (d ∷ ds) n _
          (answer_devices-Advance (d ∷ ds) (first_progress F plus_skipped query n) refl),
      λ e.
          ap (reply_of F plus_skipped query f)
            (all_refused d ds (first_progress F plus_skipped query n) e),
    )
