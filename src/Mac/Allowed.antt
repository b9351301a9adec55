-- ===== src/Mac/Allowed.antt =====
-- main.c: which entries `wcn36xx_update_allowed_rates` fills.
use wcn36xx.Common.{
  ℕ, zero, suc, ◌/◌, ◌%◌, ◌≡◌, refl, ap, ◌∙◌, Bool, true, false, ◌==◌, if◌then◌else◌, List, [], ◌∷◌,
  ◌++◌, take, get_or,
}
use wcn36xx.Mac.Rates.{
  Band, band_2ghz, band_5ghz, Sta, SupportedRates, rates_2ghz, rates_5ghz, rates_loop, dsss_table,
  update_allowed_rates, lowest_set,
}

-- What the driver offers in a band, and what the firmware is told about these rates, in their order.
unfoldable pub offered : Band → List ℕ
offered band_2ghz = rates_2ghz
offered band_5ghz = rates_5ghz

unfoldable pub told : Band → SupportedRates → List ℕ
told band_2ghz s = s.dsss_rates ++ s.ofdm_rates
told band_5ghz s = s.ofdm_rates

if-same : (b : Bool) (n : ℕ) → (if b then n else n) ≡ n
if-same true n = refl
if-same false n = refl

-- One round: the shift by the lowest bit, and the rounds after it.
rest_of_loop :
    (b : Bool) (i r x : ℕ)
    → (r % 2 == 1) ≡ b
    → (if lowest_set (suc i) (if b then r / 2 else r) then x else 0)
      ≡ (if lowest_set (suc (suc i)) r then x else 0)
unfolding lowest_set
rest_of_loop true i r x e = rw (e) refl
rest_of_loop false i r x e = rw (e) refl

first_of_loop :
    (b : Bool) (r x : ℕ)
    → (r % 2 == 1) ≡ b
    → (if b then x else 0) ≡ (if lowest_set 1 r then x else 0)
unfolding lowest_set
first_of_loop true r x e = rw (e) refl
first_of_loop false r x e = rw (e) refl

rates_loop-entry :
    (hws : List ℕ) (r i : ℕ)
    → get_or (rates_loop hws r).0 i 0 ≡ (if lowest_set (suc i) r then get_or hws i 0 else 0)
unfolding rates_loop
rates_loop-entry [] r i = rw (if-same (lowest_set (suc i) r) 0) refl
rates_loop-entry (hw ∷ hws) r zero = first_of_loop (r % 2 == 1) r hw refl
rates_loop-entry (hw ∷ hws) r (suc i) =
    rates_loop-entry hws (if r % 2 == 1 then r / 2 else r) i
    ∙ rest_of_loop (r % 2 == 1) i r (get_or hws i 0) refl

-- The second loop goes on where the first one stopped.
rates_loop-append :
    (xs ys : List ℕ) (r : ℕ)
    → (rates_loop xs r).0 ++ (rates_loop ys (rates_loop xs r).1).0 ≡ (rates_loop (xs ++ ys) r).0
unfolding rates_loop
rates_loop-append [] ys r = refl
rates_loop-append (x ∷ xs) ys r =
    ap (λ t. (if r % 2 == 1 then x else 0) ∷ t)
      (rates_loop-append xs ys (if r % 2 == 1 then r / 2 else r))

-- In either band, the firmware is told the rate number i of the band exactly when the word of the
-- supported rates has all the bits 0 to i set; the entry is 0 otherwise, also when only a lower bit
-- is missing.
pub update_allowed_rates_lem :
    (band : Band) (sta : Sta) (i : ℕ)
    → get_or (told band (update_allowed_rates band sta)) i 0
      ≡ (if lowest_set (suc i) sta.supp_rates then get_or (offered band) i 0 else 0)
unfolding told offered update_allowed_rates dsss_table
update_allowed_rates_lem band_2ghz sta i =
    ap (λ t. get_or t i 0) (rates_loop-append (take 4 rates_2ghz) rates_5ghz sta.supp_rates)
    ∙ rates_loop-entry rates_2ghz sta.supp_rates i
update_allowed_rates_lem band_5ghz sta i = rates_loop-entry rates_5ghz sta.supp_rates i
