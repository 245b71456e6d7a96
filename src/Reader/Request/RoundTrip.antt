-- ===== src/Reader/Request/RoundTrip.antt =====
-- A request that the client sends is read back by the server, field by field.
use sparcs.Prelude.{
  ℕ, zero, suc, ◌^◌, ◌≤◌, ◌<◌, ◌≡◌, refl, ◌≢◌, ap, ◌∙◌, Bool, true, false, some, List, [], ◌∷◌,
  ◌++◌, length, map, if◌then◌else◌, arith, length-append, take_all,
}
use mathlib.Core.Logic.{◌⊎◌, inl, inr}
use sparcs.Prelude.Ints.{pos}
use sparcs.Prelude.Text.{codes, digits, to_string, join}
use sparcs.Prelude.Text.Numerals.{IsNumeral-Avoids, digits-IsNumeral, digits-Leads}
use sparcs.Prelude.Text.Fields.{
  Avoids, AllAvoid, EndsFull, AllAvoid-append, EndsFull-append, split-join, join-append,
  Avoids-join, c_string-Avoids,
}
use sparcs.Reader.Request.Numbers.{stoi-to_string}
use sparcs.Reader.Client.Loop.{Asked, data_to_transmit}
use sparcs.Reader.Request.{
  ok, stoi, read_devices, devices_of, equals_zero, read_requested, Fields, parse_fields, received,
  has_zero, window_of, request_of, parse_request,
}

-- A flag_text as it is sent.
abbrev pub flag_text : Bool → List ℕ
flag_text true = codes "1"
flag_text false = codes "0"

stoi-flag_text : (b : Bool) → stoi (flag_text b) ≡ ok (pos (if b then 1 else 0))
unfolding stoi
stoi-flag_text true = refl
stoi-flag_text false = refl

read_devices-append : (ds x : List (List ℕ)) → read_devices (length ds) (ds ++ x) ≡ ok (ds, x)
unfolding read_devices
read_devices-append [] x = refl
read_devices-append (d ∷ ds) x = rw (read_devices-append ds x) refl

read_requested-append :
    (n : ℕ) (bs : List Bool) (x : List (List ℕ))
    → length bs ≡ n
    → read_requested n (map flag_text bs ++ x) ≡ ok (bs, x)
unfolding read_requested
read_requested-append zero [] x e = refl
read_requested-append zero (b ∷ bs) x e = absurd (omega arith)
read_requested-append (suc n) [] x e = absurd (omega arith)
read_requested-append (suc n) (true ∷ bs) x e =
    rw (stoi-flag_text true, read_requested-append n bs x (omega arith)) refl
read_requested-append (suc n) (false ∷ bs) x e =
    rw (stoi-flag_text false, read_requested-append n bs x (omega arith)) refl

devices_of-append : (ds x : List (List ℕ)) → devices_of (pos (length ds)) (ds ++ x) ≡ ok (ds, x)
devices_of-append ds x = read_devices-append ds x

flags-AllAvoid : (c : ℕ) → (c < 48) ⊎ (57 < c) → (bs : List Bool) → AllAvoid c (map flag_text bs)
flags-AllAvoid c away [] = tt
flags-AllAvoid c away (true ∷ bs) = ((λ e. ground arith, tt), flags-AllAvoid c away bs)
flags-AllAvoid c away (false ∷ bs) = ((λ e. ground arith, tt), flags-AllAvoid c away bs)

to_string-ne-nil : (n : ℕ) → n < 10 ^ 20 → to_string n ≢ []
unfolding to_string
to_string-ne-nil n h e = ground (arith, (digits-Leads 19 n h).shape)

has_zero-append : (s : List ℕ) → has_zero (s ++ 0 ∷ []) ≡ true
has_zero-append [] = refl
has_zero-append (c ∷ s) = ground (arith, has_zero-append s)

received-text : (s : List ℕ) → Avoids 0 s → length s < 1024 → received (s ++ 0 ∷ []) ≡ some s
unfolding received
received-text s h small =
    let fits : length (s ++ 0 ∷ []) ≤ 1024 = omega (arith, length-append s (0 ∷ [])) in
    rw (take_all 1024 (s ++ 0 ∷ []) fits, has_zero-append s, c_string-Avoids s [] h) (ground arith)

-- What the client asks for.
module _ (ds : List (List ℕ)) (requested : List Bool) (ns m step from until : ℕ) where
  abbrev pub fields : List (List ℕ)
  fields =
      (to_string (length ds) ∷ ds)
      ++ ((to_string ns ∷ to_string from ∷ to_string until ∷ map flag_text requested)
          ++ (to_string m ∷ to_string step ∷ []))

  abbrev pub meant : Fields
  meant = record {
    devices = ds;
    nosamplesets = pos ns;
    timestampstart = to_string from;
    timestampend = to_string until;
    requested = requested;
    compression_method = pos m;
    stepsize = pos step;
  }

  parse_fields-fields :
      0 < length ds
      → length ds < 2 ^ 31
      → length requested ≡ 12
      → ns < 2 ^ 31
      → m < 2 ^ 31
      → step < 2 ^ 31
      → parse_fields fields ≡ ok meant
  unfolding parse_fields
  parse_fields-fields some_device few twelve small_ns small_m small_step =
      let positive : equals_zero (pos (length ds)) ≡ false = ground arith in
      simp (
        stoi-to_string (length ds) few,
        devices_of-append ds,
        stoi-to_string ns small_ns,
        read_requested-append 12 requested _ twelve,
        stoi-to_string m small_m,
        stoi-to_string step small_step,
        positive,
      )

  -- A separator that stands in no numeral, and in no device.
  fields-AllAvoid : (c : ℕ) → (c < 48) ⊎ (57 < c) → AllAvoid c ds → AllAvoid c fields
  unfolding to_string
  fields-AllAvoid c away h =
      let number = λ (n : ℕ). IsNumeral-Avoids c away (digits 20 n) (digits-IsNumeral 20 n) in
      (
        number (length ds),
        AllAvoid-append c ds _ h (
            AllAvoid-append c
              (to_string ns ∷ to_string from ∷ to_string until ∷ map flag_text requested)
              (to_string m ∷ to_string step ∷ [])
              (number ns, (number from, (number until, flags-AllAvoid c away requested)))
              (number m, (number step, tt))),
      )

  fields-EndsFull : step < 10 ^ 20 → EndsFull fields
  fields-EndsFull h = EndsFull-append (to_string (length ds) ∷ ds) _ (
      EndsFull-append (to_string ns ∷ to_string from ∷ to_string until ∷ map flag_text requested)
        (to_string m ∷ to_string step ∷ []) (to_string-ne-nil step h))

-- The request for several devices, as texts.
module _ (d : List ℕ) (ds : List (List ℕ)) (b : Bool) (bs : List Bool) (ns m step : ℕ) where
  abbrev pub asked : Asked
  asked = record {
    nodeviceids = to_string (length (d ∷ ds));
    deviceids = join 59 (d ∷ ds);
    nosamplesets = to_string ns;
    requested = join 59 (map flag_text (b ∷ bs));
    compression_method = to_string m;
    stepsize = to_string step;
  }

  module _ (from until : ℕ) where
    data_to_transmit-join :
        data_to_transmit asked from until
        ≡ join 59 (fields (d ∷ ds) (b ∷ bs) ns m step from until) ++ 0 ∷ []
    unfolding data_to_transmit
    data_to_transmit-join =
        let last = to_string m ∷ to_string step ∷ [] in
        let flags = flag_text b ∷ (map flag_text bs ++ last) in
        let outer = join-append 59 d (to_string ns) ds (to_string from ∷ to_string until ∷ flags) in
        let inner =
          join-append 59 (flag_text b) (to_string m) (map flag_text bs) (to_string step ∷ []) in
        rw outer (rw inner refl)

    -- What the client transmits is what the server reads: for at least one device, whose
    -- ids hold neither a zero nor a semicolon, twelve flags, counts, a compression method
    -- and a step that fit an `int`, and a text of at most 1024 bytes with its zero:
    -- `SocketHandler` reads exactly these devices, flags and numbers and the texts of the
    -- two times, and computes its window from those.
    pub parse_request-data_to_transmit :
        AllAvoid 59 (d ∷ ds)
        → AllAvoid 0 (d ∷ ds)
        → length (data_to_transmit asked from until) ≤ 1024
        → length (d ∷ ds) < 2 ^ 31
        → length (b ∷ bs) ≡ 12
        → ns < 2 ^ 31
        → m < 2 ^ 31
        → step < 2 ^ 31
        → parse_request (data_to_transmit asked from until)
          ≡ ok (
            meant (d ∷ ds) (b ∷ bs) ns m step from until,
            window_of (to_string from) (to_string until),
          )
    unfolding parse_request
    parse_request-data_to_transmit free ended short few twelve small_ns small_m small_step =
        let fs = fields (d ∷ ds) (b ∷ bs) ns m step from until in
        let long : length (join 59 fs) < 1024 =
          omega (arith, ap length data_to_transmit-join, length-append (join 59 fs) (0 ∷ [])) in
        let text =
          received-text (join 59 fs)
            (Avoids-join 0 59 fs (λ e. omega arith)
              (fields-AllAvoid (d ∷ ds) (b ∷ bs) ns m step from until 0 (inl (omega arith)) ended))
            long in
        let pieces =
          split-join 59 fs
            (fields-AllAvoid (d ∷ ds) (b ∷ bs) ns m step from until 59 (inr (omega arith)) free)
            (fields-EndsFull (d ∷ ds) (b ∷ bs) ns m step from until (omega arith)) in
        ap request_of (ap received data_to_transmit-join ∙ text)
        ∙ rw pieces (
            rw
              (parse_fields-fields (d ∷ ds) (b ∷ bs) ns m step from until (omega arith) few twelve
                small_ns small_m small_step)
              refl)
