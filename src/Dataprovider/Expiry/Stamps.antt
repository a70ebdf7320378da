-- ===== src/Dataprovider/Expiry/Stamps.antt =====
-- The dates that `AddUser` writes are the dates that the scan reads.
use sshserv.Prelude.{ℕ, suc, ◌≡◌, ◌⊎◌, true, false, some, List, [], ◌∷◌, if◌then◌else◌, drop}
use sshserv.Prelude.Int.{ℤ, pos, add64, mul64, ltb_ℤ, ◌≤ℤ◌}
use sshserv.Prelude.Text.{Text}
use sshserv.Prelude.Format.{scan_int64}
use sshserv.Dataprovider.User.{User}
use sshserv.Dataprovider.Facade.{passes_over, scan_into}

module _ (now minutes : ℤ) where
  -- The time that a permission of so many minutes stands for when it is granted.
  abbrev pub due : ℤ
  due = add64 now (mul64 minutes 60)

-- Every permission is passed over, or has a number of minutes whose time, counted from the clock
-- at its index, has two digits or more.
abbrev pub AllDates : (ℕ → ℤ) → ℕ → List Text → Type 0
AllDates clock i [] = Unit
AllDates clock i (p ∷ ps) =
    ((passes_over 9 p ≡ true)
      ⊎ ((m : ℤ) × (passes_over 9 p ≡ false)
          × (scan_int64 (drop 8 p) ≡ some m)
          × (pos 10 ≤ℤ due (clock i) m)))
    × AllDates clock (suc i) ps

-- The user once for each of its dates that lies before `later`.
abbrev pub once_for_each_due : (ℕ → ℤ) → ℕ → ℤ → User → List Text → List User
once_for_each_due clock i later user [] = []
once_for_each_due clock i later user (p ∷ ps) =
    let rest = once_for_each_due clock (suc i) later user ps in
    if passes_over 9 p
    then rest
    else if ltb_ℤ (due (clock i) (scan_into (pos 0) (drop 8 p))) later
    then user ∷ rest
    else rest
