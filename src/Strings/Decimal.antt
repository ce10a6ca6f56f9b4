-- ===== src/Strings/Decimal.antt =====
-- `strconv.Itoa` and `strconv.Atoi`.
use subconverter_ng.Common.{
  ℕ, zero, suc, ◌+◌, ◌-◌, ◌*◌, ◌/◌, ◌%◌, ◌^◌, ◌<◌, ◌≤◌, ◌≡◌, ◌≢◌, refl, sym, ap, ◌∙◌, Bool, true,
  false, ◌||◌, [], ◌∷◌, ◌++◌, Text, ltb, leb, ◌==◌, if◌then◌else◌, ℤ, pos, negsuc, arith,
  Bool-cases, inl, inr,
}

-- The digits of `n`, most significant first, by a fuel that is more than their number.
digits_fuel : ℕ → ℕ → Text
digits_fuel zero n = []
digits_fuel (suc f) n =
    let high = digits_fuel f (n / 10) in
    if ltb n 10 then (b'0' + n) ∷ [] else high ++ ((b'0' + n % 10) ∷ [])

unfoldable pub itoa_nat : ℕ → Text
unfolding digits_fuel
itoa_nat n = digits_fuel (suc n) n

unfoldable pub itoa : ℤ → Text
unfolding itoa_nat
itoa (pos n) = itoa_nat n
itoa (negsuc n) = b'-' ∷ itoa_nat (suc n)

-- The number that a run of digits stands for.
value_from : ℕ → Text → ℕ
value_from n [] = n
value_from n (c ∷ s) = value_from (n * 10 + (c - b'0')) s

value_from-append : (s t : Text) (n : ℕ) → value_from n (s ++ t) ≡ value_from (value_from n s) t
unfolding value_from
value_from-append [] t n = refl
value_from-append (c ∷ s) t n = value_from-append s t (n * 10 + (c - b'0'))

value-digits_fuel : (f n : ℕ) → n < f → value_from 0 (digits_fuel f n) ≡ n
unfolding value_from digits_fuel
value-digits_fuel zero n h = absurd (omega arith)
value-digits_fuel (suc f) n h = elim (Bool-cases (ltb n 10)) [
  | inl t ↦ rw t (omega arith)
  | inr t ↦ rw t (
      value_from-append (digits_fuel f (n / 10)) ((b'0' + n % 10) ∷ []) 0
      ∙ rw (value-digits_fuel f (n / 10) (ground arith)) (omega arith))
]

-- Two numbers have the same digits only if they are equal.
-- Numbers are written in digits.
abbrev pub AreDigits : Text → Type 0
AreDigits [] = Unit
AreDigits (c ∷ s) = (b'0' ≤ c) × (c ≤ b'9') × AreDigits s

AreDigits-concat :
    (s : Text) (c : ℕ) → AreDigits s → b'0' ≤ c → c ≤ b'9' → AreDigits (s ++ (c ∷ []))
AreDigits-concat [] c d l u = (l, u, tt)
AreDigits-concat (x ∷ s) c d l u = (d.0, d.1, AreDigits-concat s c d.2 l u)

digits_fuel-AreDigits : (f n : ℕ) → AreDigits (digits_fuel f n)
unfolding digits_fuel
digits_fuel-AreDigits zero n = tt
digits_fuel-AreDigits (suc f) n = elim (Bool-cases (ltb n 10)) [
  | inl t ↦ rw t (omega arith, ground arith, tt)
  | inr t ↦ rw t (
      AreDigits-concat (digits_fuel f (n / 10)) (b'0' + n % 10) (digits_fuel-AreDigits f (n / 10))
        (omega arith) (omega arith))
]

pub itoa_nat-AreDigits : (n : ℕ) → AreDigits (itoa_nat n)
unfolding itoa_nat
itoa_nat-AreDigits n = digits_fuel-AreDigits (suc n) n

pub itoa_nat-injective : (m n : ℕ) → itoa_nat m ≡ itoa_nat n → m ≡ n
unfolding itoa_nat
itoa_nat-injective m n h =
    sym (value-digits_fuel (suc m) m (omega arith))
    ∙ ap (value_from 0) h
    ∙ value-digits_fuel (suc n) n (omega arith)

-- What `Atoi` returns beside its error: 0 for what is no number, the nearest integer of 64 bits
-- for a number out of range.
pub record Parsed : Type 0 where
  pub value : ℤ
  pub is_ok : Bool

abbrev max_uint64 : ℕ
max_uint64 = 2 ^ 64 - 1

pub data Magnitude : Type 0 where
  whole : ℕ → Magnitude
  not_number : Magnitude
  out_of_range : Magnitude

-- The loop of `ParseUint`, in base 10.
parse_uint : ℕ → Text → Magnitude
parse_uint n [] = whole n
parse_uint n (c ∷ s) =
    let rest = parse_uint (n * 10 + (c - b'0')) s in
    if ltb c b'0' || ltb b'9' c
    then not_number
    else if leb (max_uint64 / 10 + 1) n || ltb max_uint64 (n * 10 + (c - b'0'))
    then out_of_range
    else rest

signed : Bool → Magnitude → Parsed
signed minus not_number = record { value = pos 0; is_ok = false }
signed false out_of_range = record { value = pos (2 ^ 63 - 1); is_ok = false }
signed true out_of_range = record { value = negsuc (2 ^ 63 - 1); is_ok = false }
signed false (whole n) =
    if leb (2 ^ 63) n
    then record { value = pos (2 ^ 63 - 1); is_ok = false }
    else record { value = pos n; is_ok = true }
signed true (whole n) =
    if ltb (2 ^ 63) n
    then record { value = negsuc (2 ^ 63 - 1); is_ok = false }
    else record { value = if n == 0 then pos 0 else negsuc (n - 1); is_ok = true }

parse_digits : Bool → Text → Parsed
parse_digits minus [] = record { value = pos 0; is_ok = false }
parse_digits minus (c ∷ s) = signed minus (parse_uint 0 (c ∷ s))

unfoldable pub atoi : Text → Parsed
unfolding parse_uint signed parse_digits
atoi [] = record { value = pos 0; is_ok = false }
atoi (c ∷ s) =
    if c == b'-'
    then parse_digits true s
    else if c == b'+'
    then parse_digits false s
    else parse_digits false (c ∷ s)

held : {a b : ℕ} → whole a ≡ whole b → a ≡ b
held e = cc

-- One digit more is read behind what is read so far, if that is not too long.
parse_uint-concat :
    (s : Text) (c n m : ℕ)
    → parse_uint n s ≡ whole m
    → m < 2 ^ 32
    → b'0' ≤ c
    → c ≤ b'9'
    → parse_uint n (s ++ (c ∷ [])) ≡ whole (m * 10 + (c - b'0'))
unfolding parse_uint
parse_uint-concat [] c n m h k l u =
    let e : n ≡ m = held h in
    let digit : (ltb c b'0' || ltb b'9' c) ≡ false = ground (arith, l, u) in
    let fits : (leb (max_uint64 / 10 + 1) n || ltb max_uint64 (n * 10 + (c - b'0'))) ≡ false =
      ground (arith, e, k, l, u) in
    rw (digit, fits, e)
parse_uint-concat (d ∷ s) c n m h k l u = elim (Bool-cases (ltb d b'0' || ltb b'9' d)) [
  | inl t ↦ cc (rw t at h)
  | inr t ↦
      elim (Bool-cases (leb (max_uint64 / 10 + 1) n || ltb max_uint64 (n * 10 + (d - b'0')))) [
        | inl f ↦ cc (rw (t, f) at h)
        | inr f ↦ rw (t, f) (parse_uint-concat s c (n * 10 + (d - b'0')) m (rw (t, f) at h) k l u)
      ]
]

parse_uint-digits_fuel : (f n : ℕ) → n < f → n < 2 ^ 32 → parse_uint 0 (digits_fuel f n) ≡ whole n
unfolding digits_fuel parse_uint
parse_uint-digits_fuel zero n h k = absurd (omega arith)
parse_uint-digits_fuel (suc f) n h k = elim (Bool-cases (ltb n 10)) [
  | inl t ↦ rw t (
      parse_uint-concat [] (b'0' + n) 0 0 refl (omega arith) (omega arith) (ground arith)
      ∙ ap whole (omega arith))
  | inr t ↦ rw t (
      parse_uint-concat (digits_fuel f (n / 10)) (b'0' + n % 10) 0 (n / 10)
        (parse_uint-digits_fuel f (n / 10) (ground arith) (omega arith)) (omega arith) (omega arith)
        (omega arith)
      ∙ ap whole (omega arith))
]

concat-ne-nil : (s : Text) (c : ℕ) → s ++ (c ∷ []) ≢ []
concat-ne-nil [] c e = cc
concat-ne-nil (d ∷ s) c e = cc

pub itoa_nat-ne-nil : (n : ℕ) → itoa_nat n ≢ []
unfolding itoa_nat digits_fuel
itoa_nat-ne-nil n e = elim (Bool-cases (ltb n 10)) [
  | inl t ↦ cc (rw t at e)
  | inr t ↦ concat-ne-nil (digits_fuel n (n / 10)) (b'0' + n % 10) (rw t at e)
]

atoi_digits : (s : Text) → s ≢ [] → AreDigits s → atoi s ≡ signed false (parse_uint 0 s)
unfolding atoi parse_digits
atoi_digits [] n d = absurd (n refl)
atoi_digits (c ∷ s) n d =
    let minus : (c == b'-') ≡ false = ground (arith, d.0) in
    let plus : (c == b'+') ≡ false = ground (arith, d.0) in rw (minus, plus)

-- A number that is written is read back, in the range of a port and far beyond.
pub atoi-itoa_nat : (n : ℕ) → n < 2 ^ 32 → (atoi (itoa_nat n)).value ≡ pos n
unfolding itoa_nat signed
atoi-itoa_nat n h =
    let small : leb (2 ^ 63) n ≡ false = ground (arith, h) in
    rw
      (
        atoi_digits (itoa_nat n) (itoa_nat-ne-nil n) (itoa_nat-AreDigits n),
        parse_uint-digits_fuel (suc n) n (omega arith) h,
        signed,
        small,
      )
      refl
