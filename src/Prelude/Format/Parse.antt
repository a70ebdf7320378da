-- ===== src/Prelude/Format/Parse.antt =====
-- `strconv.ParseInt` on what `%d` prints.
use native.Mathlib.Nat.{pow-suc}
use mathlib.Core.List.{append_assoc, append-nil, [], ◌∷◌, ◌++◌}
use Prim.Native.Nat.{ℕ, zero, suc, ◌+◌, ◌-◌, ◌*◌, ◌/◌, ◌%◌, ◌^◌, ◌<◌}
use mathlib.Core.Path.{◌≡◌, refl, ap, ◌∙◌, sym}
use mathlib.Core.Logic.{inl, inr}
use mathlib.Core.Bool.{true, false}
use mathlib.Core.Option.{some}
use native.Mathlib.Omega.{arith}
use sshserv.Prelude.Tests.{ltb, ◌==◌, Bool-cases}
use sshserv.Prelude.Int.{pos}
use sshserv.Prelude.Lists.{All}
use sshserv.Prelude.Text.{Text}
use sshserv.Prelude.Strings.{is_digit, int64_pos, parse_digits, parse_nat, parse_int64}
use sshserv.Prelude.Format.{format_digits, format_int64, format_digits-head, int64_pos-some}

parse_digits-cons :
    (n d : ℕ) (t : Text) → d < 10 → parse_digits n ((d + b'0') ∷ t) ≡ parse_digits (n * 10 + d) t
unfolding parse_digits
parse_digits-cons n d t h =
    let digit : is_digit (d + b'0') ≡ true = ground arith in
    let same : d + b'0' - b'0' ≡ d = omega arith in rw (digit, same) refl

-- Parsing what was printed is parsing on from its number.
parse_digits-format_digits :
    (fuel n : ℕ) (t : Text)
    → n < 10 ^ fuel
    → parse_digits 0 (format_digits fuel n ++ t) ≡ parse_digits n t
unfolding format_digits
parse_digits-format_digits zero n t h = let none_left : 0 ≡ n = omega (arith, h) in rw none_left
parse_digits-format_digits (suc fuel) n t h = elim (Bool-cases (ltb n 10)) [
  | inl y ↦ rw y (parse_digits-cons 0 n t (ground arith) ∙ ap (λ k. parse_digits k t) (omega arith))
  | inr m ↦
      let bound : n < 10 ^ fuel * 10 = rw pow-suc at h in
      let whole : n / 10 * 10 + n % 10 ≡ n = omega arith in
      rw m (
        ap (parse_digits 0) (append_assoc (format_digits fuel (n / 10)) ((n % 10 + b'0') ∷ []) t)
        ∙ parse_digits-format_digits fuel (n / 10) ((n % 10 + b'0') ∷ t) (omega arith)
        ∙ parse_digits-cons (n / 10) (n % 10) t (omega arith)
        ∙ ap (λ k. parse_digits k t) whole)
]

parse_int64-digit :
    (d : ℕ) (r : Text)
    → d < 10
    → parse_int64 ((d + b'0') ∷ r) ≡ int64_pos (parse_digits 0 ((d + b'0') ∷ r))
unfolding parse_int64 parse_nat
parse_int64-digit d r h =
    let no_plus : (d + b'0' == b'+') ≡ false = ground arith in
    let no_minus : (d + b'0' == b'-') ≡ false = ground arith in rw (no_plus, no_minus) refl

-- What `%d` prints of a number that is not negative, `strconv.ParseInt` reads back.
pub parse_int64-format_int64 :
    (n : ℕ) → n < 2 ^ 63 → parse_int64 (format_int64 (pos n)) ≡ some (pos n)
unfolding format_int64 parse_digits
parse_int64-format_int64 n h =
    let (d, r, small, e) = format_digits-head 19 n in
    let text = format_digits 20 n in
    let read : parse_digits 0 text ≡ some n =
      ap (parse_digits 0) (sym (append-nil text))
      ∙ parse_digits-format_digits 20 n [] (omega (arith, h)) in
    ap parse_int64 e
    ∙ parse_int64-digit d r small
    ∙ ap int64_pos (ap (parse_digits 0) (sym e) ∙ read)
    ∙ int64_pos-some n h

All-append :
    (a b : Text)
    → All (λ (c : ℕ). is_digit c ≡ true) a
    → All (λ (c : ℕ). is_digit c ≡ true) b
    → All (λ (c : ℕ). is_digit c ≡ true) (a ++ b)
All-append [] b h k = k
All-append (c ∷ a) b (h, hs) k = (h, All-append a b hs k)

-- The characters of a number are digits.
pub All_digits : (fuel n : ℕ) → All (λ (c : ℕ). is_digit c ≡ true) (format_digits fuel n)
unfolding format_digits
All_digits zero n = tt
All_digits (suc fuel) n = elim (Bool-cases (ltb n 10)) [
  | inl y ↦ rw y (ground arith, tt)
  | inr m ↦
      rw m
        (All-append (format_digits fuel (n / 10)) _ (All_digits fuel (n / 10)) (ground arith, tt))
]
