-- ===== src/Prelude/Format.antt =====
-- Go's `%d`: `fmt.Sprintf("%d", v)`, and `fmt.Sscanf(s, "%d", &v)` over ASCII text.
pub mod Parse
use native.Mathlib.Nat.{pow-suc}
use mathlib.Core.List.{append_assoc, append-nil}
use Prim.Native.Nat.{ℕ, zero, suc, ◌+◌, ◌-◌, ◌*◌, ◌/◌, ◌%◌, ◌^◌, ◌≤◌, ◌<◌}
use mathlib.Core.Path.{◌≡◌, refl, ap, ◌∙◌, sym}
use mathlib.Core.Logic.{inl, inr}
use mathlib.Core.Bool.{Bool, true, false, ◌||◌}
use mathlib.Core.List.{[], ◌∷◌, ◌++◌}
use mathlib.Core.Option.{Option, none, some}
use native.Mathlib.Omega.{arith}
use sshserv.Prelude.Tests.{ltb, ◌==◌, if◌then◌else◌, Bool-cases}
use sshserv.Prelude.Int.{ℤ, pos, negsuc, InInt64, ◌≤ℤ◌}
use sshserv.Prelude.Lists.{length, length-append}
use sshserv.Prelude.Text.{Text}
use sshserv.Prelude.Strings.{is_digit, int64_pos, int64_neg}

-- The decimal digits of a number below `10 ^ fuel`.
unfoldable pub format_digits : ℕ → ℕ → Text
format_digits zero n = []
format_digits (suc fuel) n =
    let front = format_digits fuel (n / 10) in
    if ltb n 10 then (n + b'0') ∷ [] else front ++ (n % 10 + b'0') ∷ []

-- Twenty digits hold every 64-bit number.
unfoldable pub format_int64 : ℤ → Text
unfolding format_digits
format_int64 (pos n) = format_digits 20 n
format_int64 (negsuc n) = b'-' ∷ format_digits 20 (suc n)

-- The digits that a text begins with, as a number after `n`.
unfoldable pub scan_digits : ℕ → Text → ℕ
scan_digits n [] = n
scan_digits n (c ∷ s) =
    let more = scan_digits (n * 10 + (c - b'0')) s in if is_digit c then more else n

-- A number at the start of a text, as long as there is one digit.
unfoldable pub scan_nat : Text → Option ℕ
scan_nat [] = none
scan_nat (c ∷ s) = if is_digit c then some (scan_digits 0 (c ∷ s)) else none

abbrev is_blank : ℕ → Bool
is_blank c = c == b' ' || (c == 9 || (c == 11 || (c == 12 || c == 13)))

unfoldable pub scan_signed : Text → Option ℤ
scan_signed [] = none
scan_signed (c ∷ s) =
    if c == b'+'
    then int64_pos (scan_nat s)
    else if c == b'-'
    then int64_neg (scan_nat s)
    else int64_pos (scan_nat (c ∷ s))

-- `fmt.Sscanf(s, "%d", &v)`: blanks, a sign, digits; what follows is left. `none` stores nothing.
unfoldable pub scan_int64 : Text → Option ℤ
scan_int64 [] = none
scan_int64 (c ∷ s) = if is_blank c then scan_int64 s else scan_signed (c ∷ s)

format_example :
    format_int64 (pos 1606359350) ≡ 49 ∷ 54 ∷ 48 ∷ 54 ∷ 51 ∷ 53 ∷ 57 ∷ 51 ∷ 53 ∷ 48 ∷ []
unfolding format_int64
format_example = refl

scan_digits-cons :
    (n d : ℕ) (t : Text) → d < 10 → scan_digits n ((d + b'0') ∷ t) ≡ scan_digits (n * 10 + d) t
unfolding scan_digits
scan_digits-cons n d t h =
    let digit : is_digit (d + b'0') ≡ true = ground arith in
    let same : d + b'0' - b'0' ≡ d = omega arith in rw (digit, same)

scan_digits-nil : (n : ℕ) → scan_digits n [] ≡ n
unfolding scan_digits
scan_digits-nil n = refl

-- Reading what was printed is reading on from its number.
scan_digits-format_digits :
    (fuel n : ℕ) (t : Text)
    → n < 10 ^ fuel
    → scan_digits 0 (format_digits fuel n ++ t) ≡ scan_digits n t
unfolding format_digits
scan_digits-format_digits zero n t h = let none_left : 0 ≡ n = omega (arith, h) in rw none_left
scan_digits-format_digits (suc fuel) n t h = elim (Bool-cases (ltb n 10)) [
  | inl y ↦ rw y (scan_digits-cons 0 n t (ground arith) ∙ ap (λ k. scan_digits k t) (omega arith))
  | inr m ↦
      let bound : n < 10 ^ fuel * 10 = rw pow-suc at h in
      let whole : n / 10 * 10 + n % 10 ≡ n = omega arith in
      rw m (
        ap (scan_digits 0) (append_assoc (format_digits fuel (n / 10)) ((n % 10 + b'0') ∷ []) t)
        ∙ scan_digits-format_digits fuel (n / 10) ((n % 10 + b'0') ∷ t) (omega arith)
        ∙ scan_digits-cons (n / 10) (n % 10) t (omega arith)
        ∙ ap (λ k. scan_digits k t) whole)
]

format_digits-head :
    (fuel n : ℕ) → (d : ℕ) × (r : Text) × (d < 10) × (format_digits (suc fuel) n ≡ (d + b'0') ∷ r)
unfolding format_digits
format_digits-head zero n = elim (Bool-cases (ltb n 10)) [
  | inl y ↦ (n, [], ground arith, rw y)
  | inr m ↦ (n % 10, [], omega arith, rw m)
]
format_digits-head (suc fuel) n = elim (Bool-cases (ltb n 10)) [
  | inl y ↦ (n, [], ground arith, rw y)
  | inr m ↦
      let (d, r, h, e) = format_digits-head fuel (n / 10) in
      (d, r ++ (n % 10 + b'0') ∷ [], h, rw m (ap (λ (s : Text). s ++ (n % 10 + b'0') ∷ []) e))
]

scan_nat-digit :
    (d : ℕ) (r : Text) → d < 10 → scan_nat ((d + b'0') ∷ r) ≡ some (scan_digits 0 ((d + b'0') ∷ r))
unfolding scan_nat
scan_nat-digit d r h = let digit : is_digit (d + b'0') ≡ true = ground arith in rw digit

scan_int64-digit :
    (d : ℕ) (r : Text)
    → d < 10
    → scan_int64 ((d + b'0') ∷ r) ≡ int64_pos (scan_nat ((d + b'0') ∷ r))
unfolding scan_int64 scan_signed
scan_int64-digit d r h =
    let solid : is_blank (d + b'0') ≡ false = ground arith in
    let no_plus : (d + b'0' == b'+') ≡ false = ground arith in
    let no_minus : (d + b'0' == b'-') ≡ false = ground arith in rw (solid, no_plus, no_minus)

scan_int64-minus : (s : Text) → scan_int64 (b'-' ∷ s) ≡ int64_neg (scan_nat s)
unfolding scan_int64 scan_signed
scan_int64-minus s = refl

scan_nat-format_digits :
    (fuel n : ℕ) → n < 10 ^ suc fuel → scan_nat (format_digits (suc fuel) n) ≡ some n
scan_nat-format_digits fuel n h =
    let (d, r, small, e) = format_digits-head fuel n in
    let text = format_digits (suc fuel) n in
    let read : scan_digits 0 text ≡ n =
      ap (scan_digits 0) (sym (append-nil text))
      ∙ scan_digits-format_digits (suc fuel) n [] h
      ∙ scan_digits-nil n in
    ap scan_nat e ∙ scan_nat-digit d r small ∙ ap some (ap (scan_digits 0) (sym e) ∙ read)

int64_pos-some : (n : ℕ) → n < 2 ^ 63 → int64_pos (some n) ≡ some (pos n)
int64_pos-some n h = ground arith

int64_neg-some : (n : ℕ) → suc n ≤ 2 ^ 63 → int64_neg (some (suc n)) ≡ some (negsuc n)
int64_neg-some n h = ground arith

-- What `%d` prints of a 64-bit number, `%d` reads back.
pub scan_int64-format_int64 : (v : ℤ) → InInt64 v → scan_int64 (format_int64 v) ≡ some v
unfolding format_int64
scan_int64-format_int64 (pos n) (h, _) =
    let (d, r, small, e) = format_digits-head 19 n in
    let read = scan_nat-format_digits 19 n (omega arith) in
    ap scan_int64 e
    ∙ scan_int64-digit d r small
    ∙ ap int64_pos (ap scan_nat (sym e) ∙ read)
    ∙ int64_pos-some n h
scan_int64-format_int64 (negsuc n) (_, h) =
    scan_int64-minus (format_digits 20 (suc n))
    ∙ ap int64_neg (scan_nat-format_digits 19 (suc n) (omega arith))
    ∙ int64_neg-some n h

format_digits-two : (fuel n : ℕ) → 10 ≤ n → 2 ≤ length (format_digits (suc (suc fuel)) n)
unfolding format_digits
format_digits-two fuel n h =
    let (d, r, _, e) = format_digits-head fuel (n / 10) in
    let large : ltb n 10 ≡ false = ground arith in
    let front = ap length e in
    rw large (
      omega
        (arith, front, length-append (format_digits (suc fuel) (n / 10)) ((n % 10 + b'0') ∷ [])))

-- From ten on, `%d` prints two characters or more.
pub format_int64-length : (v : ℤ) → pos 10 ≤ℤ v → 2 ≤ length (format_int64 v)
unfolding format_int64
format_int64-length (pos n) h = format_digits-two 18 n (omega arith)
format_int64-length (negsuc n) h = absurd (omega arith)
