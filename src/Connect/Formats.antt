-- ===== src/Connect/Formats.antt =====
-- Messages that are used as formats without arguments, as src/pg_connect.c does with those of libpq.
use libzbxpgsql.Base.{
  ℕ, ◌≡◌, ◌≢◌, refl, ap, sym, ◌∙◌, Bool-cases, Option-cases, inl, inr, false, ◌==◌, Option, none,
  some, [], ◌∷◌, ◌++◌, Text, if◌then◌else◌, arith,
}
use libzbxpgsql.Connect.{plain_format}

-- A text with each per cent sign doubled, as a format prints it back.
abbrev pub doubled : Text → Text
doubled [] = []
doubled (c ∷ s) = if c == b'%' then b'%' ∷ b'%' ∷ doubled s else c ∷ doubled s

-- What follows the doubled part of a message: nothing, or a per cent sign that is not doubled.
abbrev pub IsEnding : Text → Type 0
IsEnding [] = Unit
IsEnding (c ∷ []) = c ≡ b'%'
IsEnding (c ∷ d ∷ s) = (c ≡ b'%') × (d ≢ b'%')

-- The text that is printed, and nothing where a conversion follows.
abbrev pub printed : Text → Text → Option Text
printed text [] = some text
printed text (c ∷ s) = none

plain_format-ending : (rest : Text) → IsEnding rest → plain_format rest ≡ printed [] rest
unfolding plain_format
plain_format-ending [] e = refl
plain_format-ending (c ∷ []) e = ground (arith, e)
plain_format-ending (c ∷ d ∷ s) (e, n) = ground (arith, e, n)

-- One sign in front of what is printed.
abbrev prefixed : ℕ → Option Text → Option Text
prefixed c none = none
prefixed c (some text) = some (c ∷ text)

prefixed-printed :
    (c : ℕ) (text rest : Text) → prefixed c (printed text rest) ≡ printed (c ∷ text) rest
prefixed-printed c text [] = refl
prefixed-printed c text (d ∷ rest) = refl

plain_format-percent : (s : Text) → plain_format (b'%' ∷ b'%' ∷ s) ≡ prefixed b'%' (plain_format s)
unfolding plain_format
plain_format-percent s = elim (Option-cases (plain_format s)) [
  | inl e ↦ ground (arith, e)
  | inr (t, e) ↦ ground (arith, e)
]

plain_format-cons :
    (c : ℕ) (s : Text) → (c == b'%') ≡ false → plain_format (c ∷ s) ≡ prefixed c (plain_format s)
unfolding plain_format
plain_format-cons c [] e = ground (arith, e)
plain_format-cons c (d ∷ s) e = elim (Option-cases (plain_format (d ∷ s))) [
  | inl n ↦ ground (arith, e, n)
  | inr (t, n) ↦ ground (arith, e, n)
]

pub plain_format-doubled :
    (text rest : Text) → IsEnding rest → plain_format (doubled text ++ rest) ≡ printed text rest
plain_format-doubled [] rest e = plain_format-ending rest e
plain_format-doubled (c ∷ text) rest e =
    let ih = ap (prefixed c) (plain_format-doubled text rest e) ∙ prefixed-printed c text rest in
    elim (Bool-cases (c == b'%')) [
      | inl is_percent ↦
          let at : c ≡ b'%' = ground (arith, is_percent) in
          rw is_percent (
            plain_format-percent (doubled text ++ rest)
            ∙ ap (λ d. prefixed d (plain_format (doubled text ++ rest))) (sym at)
            ∙ ih)
      | inr other ↦ rw other (plain_format-cons c (doubled text ++ rest) other ∙ ih)
    ]

-- Every message has this form.
pub doubled-decomposed :
    (message : Text)
    → (text : Text) × (rest : Text) × (message ≡ doubled text ++ rest) × IsEnding rest
doubled-decomposed [] = ([], [], refl, tt)
doubled-decomposed (c ∷ []) = elim (Bool-cases (c == b'%')) [
  | inl p ↦ ([], c ∷ [], refl, ground (arith, p))
  | inr n ↦ (c ∷ [], [], rw n refl, tt)
]
doubled-decomposed (c ∷ d ∷ s) =
    let (text, rest, shape, ending) = doubled-decomposed (d ∷ s) in
    let (text', rest', shape', ending') = doubled-decomposed s in
    elim (Bool-cases (c == b'%')) [
      | inr n ↦ (c ∷ text, rest, rw n (ap (λ x. c ∷ x) shape), ending)
      | inl p ↦ elim (Bool-cases (d == b'%')) [
        | inr n ↦ ([], c ∷ d ∷ s, refl, (ground (arith, p), ground (arith, n)))
        | inl q ↦ (b'%' ∷ text', rest', ground (arith, p, q, shape'), ending')
      ]
    ]
