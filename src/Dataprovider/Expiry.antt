-- ===== src/Dataprovider/Expiry.antt =====
-- cmd/serve.go: `check_user_expire_once`, which deletes the users whose date has passed.
pub mod Stamps
pub mod Collects
pub mod Ends
use mathlib.Core.Option
use sshserv.Prelude.{
  ℕ, zero, suc, ◌+◌, ◌*◌, Bool, true, false, Option, none, some, List, [], ◌∷◌, ◌++◌, if◌then◌else◌,
  drop,
}
use sshserv.Prelude.Int.{ℤ, pos, ltb_ℤ}
use sshserv.Prelude.Text.{Text}
use sshserv.Dataprovider.User.{User}
use sshserv.Dataprovider.Facade.{Config, Provider, passes_over, scan_into, delete_user}

-- The loop over the permissions of one user: what it appends, and `ex_tm` after it.
unfoldable pub scan_permissions : ℤ → User → ℤ → List Text → List User × ℤ
scan_permissions now user ex_tm [] = ([], ex_tm)
scan_permissions now user ex_tm (p ∷ ps) =
    let skips = passes_over 10 p in
    let ex_tm' = if skips then ex_tm else scan_into ex_tm (drop 8 p) in
    let (found, last) = scan_permissions now user ex_tm' ps in
    if skips
    then (found, last)
    else if ltb_ℤ ex_tm' now
    then (user ∷ found, last)
    else (found, last)

-- The loop over the users of one page.
unfoldable pub scan_users : ℤ → ℤ → List User → List User × ℤ
scan_users now ex_tm [] = ([], ex_tm)
scan_users now ex_tm (user ∷ users) =
    let (found, ex_tm') = scan_permissions now user ex_tm user.permissions in
    let (more, last) = scan_users now ex_tm' users in (found ++ more, last)

module _ {S : Type 0} (cfg : Config) (p : Provider S) where
  -- The loop over the pages, from user `i` on, with the clock as read on each; `none` if the fuel
  -- runs out. Each page has a variable `ex_tm` of its own.
  unfoldable pub scan_pages : ℕ → (ℕ → ℤ) → ℕ → S → Option (List User)
  scan_pages zero clock i s = none
  scan_pages (suc fuel) clock i s =
      let (users, e) = p.get_users (pos 30) (pos i) [] [] s in
      elim e [
        | some _ ↦ some []
        | none ↦ elim users [
          | [] ↦ some []
          | user ∷ rest ↦
              Option.map (λ found. (scan_users (clock i) (pos 0) (user ∷ rest)).0 ++ found)
                (scan_pages fuel clock (i + 30) s)
        ]
      ]

  -- The loop that deletes; its errors are dropped.
  unfoldable pub delete_all : List User → S → S
  delete_all [] s = s
  delete_all (user ∷ users) s = delete_all users (delete_user cfg p user s).1

  -- `check_user_expire_once`
  unfoldable pub check_user_expire_once : ℕ → (ℕ → ℤ) → S → Option S
  check_user_expire_once fuel clock s =
      Option.map (λ expired. delete_all expired s) (scan_pages fuel clock 0 s)
