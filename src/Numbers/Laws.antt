-- ===== src/Numbers/Laws.antt =====
-- What `is_oid` accepts, and the range of `strtoull`.
use libzbxpgsql.Base.{
  ℕ, ◌+◌, ◌-◌, ◌*◌, ◌≤◌, ltb, ◌≡◌, ◌≢◌, ◌↔◌, refl, ap, ◌∙◌, Bool, true, false, Bool-cases, inl, inr,
  [], ◌∷◌, All, Text, if◌then◌else◌, arith,
}
use libzbxpgsql.Numbers.{
  u64, is_digit, is_space, skip_space, digits, signed, strtoull, is_oid_loop, is_oid,
}

-- A decimal digit.
abbrev pub IsDigit : ℕ → Type 0
IsDigit c = (b'0' ≤ c) × (c ≤ b'9')

-- The number that a text of digits stands for, the first digit counting most.
abbrev pub decimal : ℕ → Text → ℕ
decimal n [] = n
decimal n (c ∷ s) = decimal (10 * n + (c - b'0')) s

is_digit-IsDigit : (c : ℕ) → (is_digit c ≡ true) ↔ IsDigit c
unfolding is_digit
is_digit-IsDigit c = ground arith

digits-decimal : (s : Text) (n : ℕ) → All IsDigit s → digits n s ≡ decimal n s
unfolding digits
digits-decimal [] n h = refl
digits-decimal (c ∷ s) n h =
    let order : n * 10 + (c - b'0') ≡ 10 * n + (c - b'0') = omega arith in
    let rest = digits-decimal s (n * 10 + (c - b'0')) h.1 ∙ ap (λ m. decimal m s) order in
    ground (arith, (is_digit-IsDigit c).1 h.0, rest)

is_oid_loop-digits : (s : Text) → All IsDigit s → is_oid_loop true s ≡ true
unfolding is_oid_loop
is_oid_loop-digits [] h = refl
is_oid_loop-digits (c ∷ s) h = ground (arith, (is_digit-IsDigit c).1 h.0, is_oid_loop-digits s h.1)

digits-is_oid_loop : (res : Bool) (s : Text) → is_oid_loop res s ≡ true → All IsDigit s
unfolding is_oid_loop
digits-is_oid_loop res [] h = tt
digits-is_oid_loop res (c ∷ s) h = elim (Bool-cases (is_digit c)) [
  | inl digit ↦ ((is_digit-IsDigit c).0 digit, digits-is_oid_loop true s (ground (arith, h, digit)))
  | inr other ↦ absurd (ground (arith, h, other))
]

-- `is_oid` accepts exactly the texts that are not empty and hold digits alone.
pub is_oid-IsDigit : (s : Text) → (is_oid s ≡ true) ↔ ((s ≢ []) × All IsDigit s)
unfolding is_oid is_oid_loop
is_oid-IsDigit [] = ((λ h. absurd (ground (arith, h))), λ h. absurd (h.0 refl))
is_oid-IsDigit (c ∷ s) = (
  (λ h. (ground arith, digits-is_oid_loop false (c ∷ s) h)),
  λ h. ground (arith, (is_digit-IsDigit c).1 h.1.0, is_oid_loop-digits s h.1.1),
)

-- On a text of digits `strtoull` returns the number they stand for, and 2 ^ 64 - 1 past its range.
pub strtoull-decimal :
    (c : ℕ) (s : Text)
    → All IsDigit (c ∷ s)
    → strtoull (c ∷ s) ≡ (if ltb (decimal 0 (c ∷ s)) u64 then decimal 0 (c ∷ s) else u64 - 1)
unfolding strtoull skip_space is_space signed
strtoull-decimal c s h = let value = digits-decimal (c ∷ s) 0 h in ground (arith, value, h.0)
