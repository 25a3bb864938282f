-- ===== src/Text/Decimal.antt =====
-- Go's `strconv.Itoa`, and `strings.Contains`.
use api_calixio.Prelude.{
  ℕ, zero, suc, ◌+◌, ◌*◌, ◌-◌, ◌/◌, ◌%◌, ◌≤◌, ◌<◌, Bool, true, false, ◌||◌, [], ◌∷◌, ◌++◌, ◌≡◌,
  refl, ◌∙◌, arith, ltb, Bool-cases, inl, inr,
}
use api_calixio.Text.{Text, has_prefix}
use api_calixio.Integer.{ℤ, pos, negsuc}

-- `strings.Contains`
unfoldable pub contains : Text → Text → Bool
contains [] p = has_prefix [] p
contains (c ∷ s) p = has_prefix (c ∷ s) p || contains s p

unfoldable digits : ℕ → ℕ → Text
digits zero n = []
digits (suc fuel) n = elim (ltb n 10) [
  | true ↦ (b'0' + n) ∷ []
  | false ↦ digits fuel (n / 10) ++ ((b'0' + n % 10) ∷ [])
]

-- `strconv.Itoa`
unfoldable pub decimal : ℕ → Text
unfolding digits
decimal n = digits (suc n) n

unfoldable pub itoa : ℤ → Text
itoa (pos n) = decimal n
itoa (negsuc n) = b'-' ∷ decimal (suc n)

-- The number that some digits mean, behind a number read so far.
unfoldable pub value_from : ℕ → Text → ℕ
value_from v [] = v
value_from v (c ∷ s) = value_from (v * 10 + (c - b'0')) s

value_from-snoc :
    (v : ℕ) (s : Text) (c : ℕ) → value_from v (s ++ (c ∷ [])) ≡ value_from v s * 10 + (c - b'0')
unfolding value_from
value_from-snoc v [] c = refl
value_from-snoc v (d ∷ s) c = value_from-snoc (v * 10 + (d - b'0')) s c

value_from-digits : (fuel n : ℕ) → n < fuel → value_from 0 (digits fuel n) ≡ n
unfolding digits value_from
value_from-digits zero n h = omega arith
value_from-digits (suc fuel) n h = elim (Bool-cases (ltb n 10)) [
  | inl e ↦ rw (e, digits, value_from) (omega arith)
  | inr e ↦
      let big : 10 ≤ n = ground arith in
      let smaller : n / 10 < fuel = omega arith in
      rw (e, digits)
        (value_from-snoc 0 (digits fuel (n / 10)) (b'0' + n % 10)
          ∙ rw (value_from-digits fuel (n / 10) smaller) (omega arith))
]

-- The digits that are written read back as the number.
pub value_from-decimal : (n : ℕ) → value_from 0 (decimal n) ≡ n
unfolding decimal
value_from-decimal n = value_from-digits (suc n) n (omega arith)
