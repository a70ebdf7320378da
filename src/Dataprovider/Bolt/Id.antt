-- ===== src/Dataprovider/Bolt/Id.antt =====
-- The keys of the index tell ids apart.
use sshserv.Prelude.{ℕ, ◌+◌, ◌*◌, ◌^◌, ◌<◌, ◌≡◌, ap, sym, ◌∙◌, [], ◌∷◌, arith}
use sshserv.Prelude.Int.{ℤ, pos, negsuc, to_uint64, InInt64}
use sshserv.Prelude.Text.{Text}
use sshserv.Dataprovider.Bolt.Store.{itob}

abbrev be_value : ℕ → Text → ℕ
be_value acc [] = acc
be_value acc (c ∷ s) = be_value (acc * 256 + c) s

to_uint64_bound : (v : ℤ) → to_uint64 v < 2 ^ 64
to_uint64_bound (pos n) = omega arith
to_uint64_bound (negsuc n) = omega arith

be_value-itob : (v : ℤ) → be_value 0 (itob v) ≡ to_uint64 v
unfolding itob
be_value-itob (pos n) = omega arith
be_value-itob (negsuc n) = omega arith

to_uint64-injective : (a b : ℤ) → InInt64 a → InInt64 b → to_uint64 a ≡ to_uint64 b → a ≡ b
to_uint64-injective (pos m) (pos n) p q h = ground arith
to_uint64-injective (pos m) (negsuc n) p q h = absurd (omega arith)
to_uint64-injective (negsuc m) (pos n) p q h = absurd (omega arith)
to_uint64-injective (negsuc m) (negsuc n) p q h = ground arith

-- Two 64-bit ids with the same key are the same id.
pub itob-injective : (a b : ℤ) → InInt64 a → InInt64 b → itob a ≡ itob b → a ≡ b
itob-injective a b p q h =
    to_uint64-injective a b p q (sym (be_value-itob a) ∙ ap (be_value 0) h ∙ be_value-itob b)
