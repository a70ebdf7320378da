-- ===== src/Prelude/Strings.antt =====
-- What the code uses of Go's packages strings and strconv, over bytes.
use Prim.Native.Nat.{ℕ, suc, ◌+◌, ◌-◌, ◌*◌, ◌^◌}
use mathlib.Core.Bool.{Bool, ◌&&◌}
use mathlib.Core.List.{List, [], ◌∷◌}
use mathlib.Core.Option
use mathlib.Core.Option.{Option, none, some}
use sshserv.Prelude.Tests.{ltb, leb, ◌==◌, if◌then◌else◌}
use sshserv.Prelude.Int.{ℤ, pos, sub_ℕ}
use sshserv.Prelude.Text.{Text}

-- `strings.Index(s, c)` at a one-byte `c`; `none` is -1.
unfoldable pub index_byte : ℕ → Text → Option ℕ
index_byte c [] = none
index_byte c (x ∷ s) = if x == c then some 0 else Option.map suc (index_byte c s)

abbrev cons_head : ℕ → List Text → List Text
cons_head x [] = (x ∷ []) ∷ []
cons_head x (p ∷ ps) = (x ∷ p) ∷ ps

-- `strings.Split(s, sep)` at a one-byte `sep`.
unfoldable pub split : ℕ → Text → List Text
split sep [] = [] ∷ []
split sep (x ∷ s) = if x == sep then [] ∷ split sep s else cons_head x (split sep s)

abbrev pub is_digit : ℕ → Bool
is_digit c = leb b'0' c && leb c b'9'

-- The digits up to the end, most significant first.
unfoldable pub parse_digits : ℕ → Text → Option ℕ
parse_digits n [] = some n
parse_digits n (c ∷ s) =
    let rest = parse_digits (n * 10 + (c - b'0')) s in if is_digit c then rest else none

-- A non-empty run of digits.
unfoldable pub parse_nat : Text → Option ℕ
unfolding parse_digits
parse_nat [] = none
parse_nat (c ∷ s) = parse_digits 0 (c ∷ s)

abbrev pub int64_pos : Option ℕ → Option ℤ
int64_pos none = none
int64_pos (some n) = if ltb n (2 ^ 63) then some (pos n) else none

abbrev pub int64_neg : Option ℕ → Option ℤ
int64_neg none = none
int64_neg (some n) = if leb n (2 ^ 63) then some (sub_ℕ 0 n) else none

-- `strconv.ParseInt(s, 10, 64)`, and `strconv.Atoi` with it; `none` is an error.
unfoldable pub parse_int64 : Text → Option ℤ
unfolding parse_nat
parse_int64 [] = none
parse_int64 (c ∷ s) =
    if c == b'+'
    then int64_pos (parse_nat s)
    else if c == b'-'
    then int64_neg (parse_nat s)
    else int64_pos (parse_nat (c ∷ s))
