-- ===== src/Prelude/Base64.antt =====
-- Go's `base64.StdEncoding.Encode`: three bytes to four characters, padded with `=`.
use Prim.Native.Nat.{ℕ, ◌+◌, ◌-◌, ◌*◌, ◌/◌, ◌%◌}
use mathlib.Core.Path.{◌≡◌, refl}
use mathlib.Core.List.{[], ◌∷◌}
use sshserv.Prelude.Tests.{ltb, ◌==◌, if◌then◌else◌}
use sshserv.Prelude.Text.{Text, bytes}

-- The character for a value below 64.
unfoldable pub base64_char : ℕ → ℕ
base64_char n =
    if ltb n 26
    then n + b'A'
    else if ltb n 52
    then n - 26 + b'a'
    else if ltb n 62
    then n - 52 + b'0'
    else if n == 62
    then b'+'
    else b'/'

unfoldable pub base64_encode : Text → Text
unfolding base64_char
base64_encode [] = []
base64_encode (a ∷ []) = base64_char (a / 4) ∷ base64_char (a % 4 * 16) ∷ b'=' ∷ b'=' ∷ []
base64_encode (a ∷ b ∷ []) =
    base64_char (a / 4) ∷ base64_char (a % 4 * 16 + b / 16) ∷ base64_char (b % 16 * 4) ∷ b'=' ∷ []
base64_encode (a ∷ b ∷ c ∷ s) =
    base64_char (a / 4)
    ∷ base64_char (a % 4 * 16 + b / 16)
    ∷ base64_char (b % 16 * 4 + c / 64)
    ∷ base64_char (c % 64)
    ∷ base64_encode s

base64_hello : base64_encode (bytes "Hello, World") ≡ bytes "SGVsbG8sIFdvcmxk"
unfolding base64_encode
base64_hello = refl

base64_pad : base64_encode (bytes "Man!") ≡ bytes "TWFuIQ=="
unfolding base64_encode
base64_pad = refl
