-- ===== src/Reviewer/Decimal.antt =====
-- A number that src/prxref/reviewer.py prints in a hunk header is read back by src/prxref/triage.py.
use prxref.Base.{
  ℕ, zero, suc, ◌+◌, ◌*◌, ◌/◌, ◌%◌, ◌<◌, true, false, some, [], ◌∷◌, ◌++◌, ◌≡◌, refl, sym, subst,
  ap, ◌∙◌, arith, ltb, Bool-cases, inl, inr,
}
use prxref.Base.Text.{Text, is_digit, digits, show_number, take_digits, number}

digit_read :
    (n m : ℕ) (s : Text) → n < 10 → take_digits m ((b'0' + n) ∷ s) ≡ take_digits (m * 10 + n) s
unfolding take_digits is_digit
digit_read n m s h = ground arith

-- Reading the digits of `n` and what follows is reading what follows with `n` read.
take_digits-digits :
    (f n : ℕ) (out s : Text)
    → n < f
    → take_digits 0 (digits f n out ++ s) ≡ take_digits n (out ++ s)
unfolding digits
take_digits-digits zero n out s h = absurd (omega arith)
take_digits-digits (suc f) n out s h = elim (Bool-cases (ltb n 10)) [
  | inl small ↦ ground (arith, digit_read n 0 (out ++ s))
  | inr large ↦ ground (
    arith,
    take_digits-digits f (n / 10) ((b'0' + n % 10) ∷ out) s,
    digit_read (n % 10) (n / 10) (out ++ s),
  )
]

-- The digits begin with a digit.
digits-head :
    (f n : ℕ) (out : Text)
    → n < f
    → (c : ℕ) × (s : Text) × (digits f n out ≡ c ∷ s) × (is_digit c ≡ true)
unfolding digits is_digit
digits-head zero n out h = absurd (omega arith)
digits-head (suc f) n out h = elim (Bool-cases (ltb n 10)) [
  | inl small ↦ (b'0' + n, out, ground arith, ground arith)
  | inr large ↦
      let (c, s, e, d) = digits-head f (n / 10) ((b'0' + n % 10) ∷ out) (ground arith) in
      (c, s, ground arith, d)
]

take_digits-stop : (n c : ℕ) (s : Text) → is_digit c ≡ false → take_digits n (c ∷ s) ≡ (n, c ∷ s)
unfolding take_digits
take_digits-stop n c s h = ground arith

number-digits :
    (c : ℕ) (t u s : Text)
    → t ≡ c ∷ u
    → is_digit c ≡ true
    → number (t ++ s) ≡ some (take_digits 0 (t ++ s))
unfolding number
number-digits c t u s e h =
    subst (λ x. number (x ++ s) ≡ some (take_digits 0 (x ++ s))) (sym e) (rw h refl)

-- A printed number before a character that is no digit is read back, with what follows left.
pub number-show_number :
    (n c : ℕ) (s : Text) → is_digit c ≡ false → number (show_number n ++ c ∷ s) ≡ some (n, c ∷ s)
unfolding show_number
number-show_number n c s h =
    let (d, t, e, k) = digits-head (suc n) n [] (omega arith) in
    number-digits d (digits (suc n) n []) t (c ∷ s) e k
    ∙ ap some (take_digits-digits (suc n) n [] (c ∷ s) (omega arith) ∙ take_digits-stop n c s h)
