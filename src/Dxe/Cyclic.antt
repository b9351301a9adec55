-- ===== src/Dxe/Cyclic.antt =====
-- Walking around a ring of `n` places.
use wcn36xx.Common.{
  ℕ, zero, suc, ◌+◌, ◌-◌, ◌≤◌, ◌<◌, ◌≡◌, refl, sym, ltb, leb, if◌then◌else◌, Option, none, some,
  List, [], ◌∷◌, ◌++◌, append_assoc, arith,
}
use wcn36xx.Dxe.State.{next}

-- How many steps of `next` lead from `i` to `j`.
abbrev pub dist : ℕ → ℕ → ℕ → ℕ
dist n i j = if leb i j then j - i else j + n - i

-- The place `k` steps from `i`, for `k` at most `n`.
abbrev pub ahead : ℕ → ℕ → ℕ → ℕ
ahead n i k = if ltb (i + k) n then i + k else i + k - n

module _ {ℓ} {A : Type ℓ} where
  abbrev pub cell : Option A → List A
  cell none = []
  cell (some a) = a ∷ []

  -- What the `k` places from `i` hold, in the order of the walk.
  unfoldable pub collect : ℕ → (ℕ → Option A) → ℕ → ℕ → List A
  collect n f zero i = []
  collect n f (suc k) i = cell (f i) ++ collect n f k (next n i)

  pub collect_ext :
      (n : ℕ) (f g : ℕ → Option A) (k i : ℕ)
      → i < n
      → k ≤ n
      → ((j : ℕ) → j < n → dist n i j < k → f j ≡ g j)
      → collect n f k i ≡ collect n g k i
  unfolding collect
  collect_ext n f g zero i lt le same = refl
  collect_ext n f g (suc k) i lt le same =
      let here : f i ≡ g i = same i lt (ground arith) in
      let later =
        collect_ext n f g k (next n i) (ground arith) (omega arith)
          (λ j j_lt d. same j j_lt (ground arith)) in
      rw (here, later) refl

  pub collect_empty :
      (n : ℕ) (f : ℕ → Option A) (k i : ℕ)
      → i < n
      → k ≤ n
      → ((j : ℕ) → j < n → dist n i j < k → f j ≡ none)
      → collect n f k i ≡ []
  unfolding collect
  collect_empty n f zero i lt le empty = refl
  collect_empty n f (suc k) i lt le empty =
      let here : f i ≡ none = empty i lt (ground arith) in
      let later =
        collect_empty n f k (next n i) (ground arith) (omega arith)
          (λ j j_lt d. empty j j_lt (ground arith)) in
      rw (here, later) refl

  pub collect_split :
      (n : ℕ) (f : ℕ → Option A) (a b i : ℕ)
      → i < n
      → a ≤ n
      → collect n f (a + b) i ≡ collect n f a i ++ collect n f b (ahead n i a)
  unfolding collect
  collect_split n f zero b i lt le =
      let e : 0 + b ≡ b = omega arith in
      let place : ahead n i 0 ≡ i = ground arith in rw (e, place) refl
  collect_split n f (suc a) b i lt le =
      let e : suc a + b ≡ suc (a + b) = omega arith in
      let place : ahead n i (suc a) ≡ ahead n (next n i) a = ground arith in
      rw (e, place, collect_split n f a b (next n i) (ground arith) (omega arith))
        (sym (
          append_assoc (cell (f i)) (collect n f a (next n i))
            (collect n f b (ahead n (next n i) a))))
