-- ===== src/Debug/Dump.antt =====
-- The file `dump`: `write_file_dump`, whose numbers go to the firmware.
use wcn36xx.Common.{
  ℕ, zero, suc, ◌-◌, ◌≤◌, ◌<◌, ◌≡◌, refl, ap, ◌∙◌, Bool, true, false, ◌==◌, if◌then◌else◌, Option,
  none, some, List, [], ◌∷◌, ◌++◌, length, get_or, take, take_all, min, zeros, Ret, arith,
}
use wcn36xx.Smd.State.{Hal}
use wcn36xx.Smd.Scan.{smd_dump_cmd_req, dump_cmd_msg}
use wcn36xx.Smd.Send.{simple, rsp_status_check}
use wcn36xx.Smd.Effects.{command-sent}
use wcn36xx.Debug.Bmps.{Io, bytes, efault}

-- A buffer as a string: up to the first zero.
unfoldable pub c_string : List ℕ → List ℕ
c_string [] = []
c_string (c ∷ cs) = let rest = c ∷ c_string cs in if c == 0 then [] else rest

-- `strsep(&tmp, " ")` on a pointer that is not null.
unfoldable pub strsep : List ℕ → List ℕ × Option (List ℕ)
strsep [] = ([], none)
strsep (c ∷ cs) = let (t, rest) = strsep cs in if c == b' ' then ([], some cs) else (c ∷ t, rest)

-- The rest is read only after a number.
unfoldable pub and_rest : Option ℕ → List ℕ → List ℕ
and_rest none rest = []
and_rest (some n) rest = n ∷ rest

-- The numbers that were not read are 0.
unfoldable pub dump_args : List ℕ → Hal → Ret × Hal
dump_args arg h =
    smd_dump_cmd_req (get_or arg 0 0) (get_or arg 1 0) (get_or arg 2 0) (get_or arg 3 0)
      (get_or arg 4 0) h

-- `kstrtou32(begin, 0, &arg[i])` is a parameter: the number, or nothing for an error.
module _ (kstrtou32 : List ℕ → Option ℕ) where
  -- At most `k` rounds; the loop stops when the string is used up and at the first error.
  unfoldable pub parse_args : ℕ → Option (List ℕ) → List ℕ
  unfolding strsep and_rest
  parse_args zero tmp = []
  parse_args (suc k) none = []
  parse_args (suc k) (some s) =
      let (begin, tmp) = strsep s in and_rest (kstrtou32 begin) (parse_args k tmp)

  -- `copied` is whether `copy_from_user` succeeds. The result of the command is dropped.
  unfoldable pub write_file_dump : Bool → List ℕ → Hal → Io × Hal
  unfolding parse_args dump_args c_string
  write_file_dump copied user h =
      let buf_size = min (length user) 254 in
      let buf = take buf_size user ++ zeros (255 - buf_size) in
      if copied
      then (bytes (length user), (dump_args (parse_args 5 (some (c_string buf))) h).1)
      else (efault, h)

-- Bytes that are neither a space nor zero.
abbrev pub Plain : List ℕ → Type 0
Plain [] = Unit {0}
Plain (c ∷ cs) = ((c == 0) ≡ false) × ((c == b' ') ≡ false) × Plain cs

abbrev pub NoZero : List ℕ → Type 0
NoZero [] = Unit {0}
NoZero (c ∷ cs) = ((c == 0) ≡ false) × NoZero cs

abbrev pub join : List ℕ → List (List ℕ) → List ℕ
join t [] = t
join t (u ∷ us) = t ++ b' ' ∷ join u us

strsep-last : (t : List ℕ) → Plain t → strsep t ≡ (t, none)
unfolding strsep
strsep-last [] p = refl
strsep-last (c ∷ cs) (nz, ns, p) = rw (ns, strsep-last cs p) refl

strsep-next : (t s : List ℕ) → Plain t → strsep (t ++ b' ' ∷ s) ≡ (t, some s)
unfolding strsep
strsep-next [] s p = refl
strsep-next (c ∷ cs) s (nz, ns, p) = rw (ns, strsep-next cs s p) refl

NoZero-append : (xs ys : List ℕ) → Plain xs → NoZero ys → NoZero (xs ++ ys)
NoZero-append [] ys p n = n
NoZero-append (x ∷ xs) ys (nz, ns, p) n = (nz, NoZero-append xs ys p n)

Plain-NoZero : (xs : List ℕ) → Plain xs → NoZero xs
Plain-NoZero [] p = tt
Plain-NoZero (x ∷ xs) (nz, ns, p) = (nz, Plain-NoZero xs p)

c_string-NoZero : (xs : List ℕ) (n : ℕ) → NoZero xs → c_string (xs ++ zeros (suc n)) ≡ xs
unfolding c_string
c_string-NoZero [] n p = refl
c_string-NoZero (x ∷ xs) n (nz, p) = rw (nz, c_string-NoZero xs n p) refl

module _ (kstrtou32 : List ℕ → Option ℕ) where
  -- Words without a space or a zero byte that are read as these numbers.
  abbrev pub Parsed : List ℕ → ℕ → List (List ℕ) → List ℕ → Type 0
  Parsed t n [] [] = Plain t × (kstrtou32 t ≡ some n)
  Parsed t n (u ∷ us) (m ∷ ms) = Plain t × (kstrtou32 t ≡ some n) × Parsed u m us ms
  Parsed t n [] (m ∷ ms) = ⊥
  Parsed t n (u ∷ us) [] = ⊥

  join-NoZero :
      (t : List ℕ) (n : ℕ) (us : List (List ℕ)) (ms : List ℕ)
      → Parsed t n us ms
      → NoZero (join t us)
  join-NoZero t n [] [] (p, e) = Plain-NoZero t p
  join-NoZero t n (u ∷ us) (m ∷ ms) (p, e, later) =
      NoZero-append t (b' ' ∷ join u us) p (refl, join-NoZero u m us ms later)
  join-NoZero t n [] (m ∷ ms) k = absurd k
  join-NoZero t n (u ∷ us) [] k = absurd k

  nothing_more : (k n : ℕ) → n ∷ parse_args kstrtou32 k none ≡ n ∷ []
  unfolding parse_args
  nothing_more zero n = refl
  nothing_more (suc k) n = refl

  parse_args-join :
      (k : ℕ) (t : List ℕ) (n : ℕ) (us : List (List ℕ)) (ms : List ℕ)
      → length us < k
      → Parsed t n us ms
      → parse_args kstrtou32 k (some (join t us)) ≡ n ∷ ms
  unfolding parse_args
  parse_args-join zero t n us ms lt p = absurd (omega arith)
  parse_args-join (suc k) t n [] [] lt (p, e) = rw (strsep-last t p, e) (nothing_more k n)
  parse_args-join (suc k) t n (u ∷ us) (m ∷ ms) lt (p, e, later) =
      rw (strsep-next t (join u us) p, e)
        (ap (λ (x : List ℕ). n ∷ x) (parse_args-join k u m us ms (omega arith) later))
  parse_args-join (suc k) t n [] (m ∷ ms) lt q = absurd q
  parse_args-join (suc k) t n (u ∷ us) [] lt q = absurd q

  -- A write of at most five words, each without a space or a zero byte and read as a number, with
  -- single spaces between them and of at most 254 bytes, sends one dump command with these numbers
  -- and 0 for the others, whatever becomes of it, and counts as written.
  pub write_file_dump-join :
      (t : List ℕ) (n : ℕ) (us : List (List ℕ)) (ms : List ℕ) (h : Hal)
      → length us < 5
      → length (join t us) ≤ 254
      → Parsed t n us ms
      → let w = write_file_dump kstrtou32 true (join t us) h in
        let arg = n ∷ ms in
        (w.0 ≡ bytes (length (join t us)))
        × (w.1.sent
            ≡ h.sent
              ++ (dump_cmd_msg n (get_or arg 1 0) (get_or arg 2 0) (get_or arg 3 0) (get_or arg 4 0)
                  ∷ []))
  unfolding write_file_dump dump_args smd_dump_cmd_req simple
  write_file_dump-join t n us ms h few fits p =
      let user = join t us in
      let size : min (length user) 254 ≡ length user = omega arith in
      let room : 255 - length user ≡ suc (254 - length user) = omega arith in
      let text : c_string (take (min (length user) 254) user ++ zeros (255 - min (length user) 254))
          ≡ user =
        ap (λ (k : ℕ). c_string (take k user ++ zeros (255 - k))) size
        ∙ ap (λ (x : List ℕ). c_string (x ++ zeros (255 - length user)))
            (take_all (length user) user (omega arith))
        ∙ ap (λ (k : ℕ). c_string (user ++ zeros k)) room
        ∙ c_string-NoZero user (254 - length user) (join-NoZero t n us ms p) in
      let args : parse_args kstrtou32 5 (
            some
              (c_string (take (min (length user) 254) user ++ zeros (255 - min (length user) 254))))
          ≡ n ∷ ms =
        ap (λ (x : List ℕ). parse_args kstrtou32 5 (some x)) text
        ∙ parse_args-join 5 t n us ms few p in
      (
        refl,
        ap (λ (arg : List ℕ). (dump_args arg h).1.sent) args
            ∙ command-sent
                (dump_cmd_msg n (get_or ms 0 0) (get_or ms 1 0) (get_or ms 2 0) (get_or ms 3 0))
                rsp_status_check h,
      )
