-- ===== src/Barc/Format/Digits.antt =====
-- Hexadecimal digits, written and read back.
use body_image.Common.{
  ℕ, zero, suc, ◌+◌, ◌*◌, ◌/◌, ◌%◌, ◌^◌, ◌<◌, ◌≡◌, refl, ◌∙◌, ap, [], ◌∷◌, ◌++◌, length,
  length-append, Option-cases, inl, inr, some, u64, ok, ◌>>=◌, arith,
}
use native.Mathlib.Nat.{pow-suc}
use body_image.Io.{Bytes}
use body_image.Barc.Format.{hex_digit, hex_more, format_hex, hex_value, parse_hex_from, parse_hex}

hex_value-digit : (d : ℕ) → d < 16 → hex_value (hex_digit d) ≡ some d
unfolding hex_value hex_digit
hex_value-digit d h = ground arith

hex_more-zero : (k : ℕ) → hex_more k 0 ≡ []
unfolding hex_more
hex_more-zero zero = refl
hex_more-zero (suc k) = refl

parse_hex_from-append :
    (v : ℕ) (xs ys : Bytes)
    → parse_hex_from v (xs ++ ys) ≡ (parse_hex_from v xs >>= λ w. parse_hex_from w ys)
unfolding parse_hex_from
parse_hex_from-append v [] ys = refl
parse_hex_from-append v (d ∷ xs) ys = elim (Option-cases (hex_value d)) [
  | inl bad ↦ rw (bad, parse_hex_from)
  | inr (x, e) ↦ rw (e, parse_hex_from) (parse_hex_from-append (u64 (u64 (v * 16) + x)) xs ys)
]

one_digit :
    (v d : ℕ) → d < 16 → v * 16 + d < 2 ^ 64 → parse_hex_from v (hex_digit d ∷ []) ≡ ok (v * 16 + d)
unfolding parse_hex_from
one_digit v d h fits = rw (hex_value-digit d h, parse_hex_from) (ap ok (omega arith))

no_more : (n : ℕ) → n < 1 → hex_more 16 n ≡ []
no_more n h = let e : n ≡ 0 = omega arith in rw e (hex_more-zero 16)

-- Below 16 ^ w there are exactly `w` digits.
pub length-format_hex : (w n : ℕ) → n < 16 ^ w → length (format_hex w n) ≡ w
unfolding format_hex
length-format_hex zero n h = rw (no_more n h) refl
length-format_hex (suc w) n h = omega (
  arith,
  length-append (format_hex w (n / 16)) (hex_digit (n % 16) ∷ []),
  length-format_hex w (n / 16) (omega (arith, pow-suc 16 w)),
)

parse_hex_from-format_hex :
    (w v n : ℕ)
    → n < 16 ^ w
    → v * 16 ^ w + n < 2 ^ 64
    → parse_hex_from v (format_hex w n) ≡ ok (v * 16 ^ w + n)
unfolding format_hex
parse_hex_from-format_hex zero v n h fits =
    rw (no_more n h) (unfold parse_hex_from in ap ok (omega arith))
parse_hex_from-format_hex (suc w) v n h fits =
    let up : v * 16 ^ suc w ≡ v * 16 ^ w * 16 = omega (arith, ap (λ t. v * t) (pow-suc 16 w)) in
    rw
      (
        parse_hex_from-append v (format_hex w (n / 16)) (hex_digit (n % 16) ∷ []),
        parse_hex_from-format_hex w v (n / 16) (omega (arith, pow-suc 16 w)) (omega (arith, up)),
      )
      (one_digit (v * 16 ^ w + n / 16) (n % 16) (omega arith) (omega (arith, up))
        ∙ ap ok (omega (arith, up)))

-- A number of at most 64 bits that fits the digits is read back as it was.
pub parse_hex-format_hex : (w n : ℕ) → n < 16 ^ w → n < 2 ^ 64 → parse_hex (format_hex w n) ≡ ok n
unfolding parse_hex
parse_hex-format_hex w n h fits =
    parse_hex_from-format_hex w 0 n h (omega arith) ∙ ap ok (omega arith)
