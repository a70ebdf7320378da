-- ===== src/Serv/Scp/Messages/Modes.antt =====
-- The digits of `getFileModeAsString`.
use sshserv.Prelude.{
  ℕ, suc, ◌≡◌, ◌≢◌, refl, ap, ◌∙◌, ◌+◌, ◌-◌, ◌*◌, ◌/◌, ◌%◌, ◌^◌, ◌<◌, ◌==◌, Bool, false, not,
  Option, some, none, [], ◌∷◌, ◌++◌, length, length-append, get_elem?, arith,
}
use sshserv.Prelude.Int.{pos}
use sshserv.Prelude.Text.{Text}
use sshserv.Prelude.Format.{format_int64}
use sshserv.Serv.Scp.Messages.{
  flags, or_dash, permissions, mode_string, granted, octal, special, get_file_mode_as_string,
}

-- Past a text, the characters of the one that follows.
get_elem?-append : (s t : Text) (i : ℕ) → get_elem? (s ++ t) (length s + i) ≡ get_elem? t i
get_elem?-append [] t i = ap (get_elem? t) (omega arith)
get_elem?-append (c ∷ s) t i =
    let e : suc (length s) + i ≡ suc (length s + i) = omega arith in
    ap (get_elem? (c ∷ (s ++ t))) e ∙ get_elem?-append s t i

-- A character of the mode's text is found from its end.
granted-append :
    (s : Text) (m k : ℕ) → k < 9 → granted (s ++ permissions m) k ≡ granted (permissions m) k
granted-append s m k h =
    let at : length (s ++ permissions m) - 1 - k ≡ length s + (8 - k) =
      omega (arith, length-append s (permissions m)) in
    ap (λ (o : Option ℕ). elim o [ none ↦ false | some c ↦ not (c == b'-') ])
      (ap (get_elem? (s ++ permissions m)) at ∙ get_elem?-append s (permissions m) (8 - k))

owner_digit : (m : ℕ) → octal (permissions m) 6 ≡ m / 64 % 8
owner_digit m = ground arith

group_digit : (m : ℕ) → octal (permissions m) 3 ≡ m / 8 % 8
group_digit m = ground arith

others_digit : (m : ℕ) → octal (permissions m) 0 ≡ m % 8
others_digit m = ground arith

octal-append : (s : Text) (m k : ℕ) → k < 7 → octal (s ++ permissions m) k ≡ octal (permissions m) k
octal-append s m k h =
    rw
      (
        granted-append s m (k + 2) (omega (arith, h)),
        granted-append s m (k + 1) (omega (arith, h)),
        granted-append s m k (omega (arith, h)),
      )
      refl

octal-mode_string : (m k : ℕ) → k < 7 → octal (mode_string m) k ≡ octal (permissions m) k
unfolding mode_string
octal-mode_string m k h = octal-append (or_dash (flags m)) m k h

-- The bits of a mode as the first digit shows them: the sticky bit, setuid and setgid.
abbrev pub special_digit : ℕ → ℕ
special_digit m = m / 2 ^ 20 % 2 + 2 * (m / 2 ^ 23 % 2) + 4 * (m / 2 ^ 22 % 2)

special_bits : (m : ℕ) → special m ≡ special_digit m
special_bits m = ground arith

-- The text of a mode that is not zero is four octal digits: those of the permissions of the owner,
-- the group and the others are the ones of the mode; the first digit counts the sticky bit as one,
-- setuid as two and setgid as four.
pub get_file_mode_digits :
    (m : ℕ) (is_dir : Bool)
    → m ≢ 0
    → get_file_mode_as_string m is_dir
      ≡ format_int64 (pos (special_digit m))
        ++ (format_int64 (pos (m / 64 % 8))
            ++ (format_int64 (pos (m / 8 % 8)) ++ format_int64 (pos (m % 8))))
unfolding get_file_mode_as_string
get_file_mode_digits m is_dir h =
    let other : (m == 0) ≡ false = ground (arith, h) in
    rw
      (
        get_file_mode_as_string,
        other,
        special_bits m,
        octal-mode_string m 6 (omega arith) ∙ owner_digit m,
        octal-mode_string m 3 (omega arith) ∙ group_digit m,
        octal-mode_string m 0 (omega arith) ∙ others_digit m,
      )
      refl
