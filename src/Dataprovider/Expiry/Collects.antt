-- ===== src/Dataprovider/Expiry/Collects.antt =====
-- Whom the scan collects.
use sshserv.Prelude.{
  ◌≡◌, refl, inl, inr, Bool, true, false, none, List, [], ◌∷◌, ◌++◌, All, Bool-cases, if◌then◌else◌,
  drop,
}
use sshserv.Prelude.Int.{ℤ, ltb_ℤ}
use sshserv.Prelude.Text.{Text}
use sshserv.Prelude.Format.{scan_int64}
use sshserv.Dataprovider.User.{User}
use sshserv.Dataprovider.Facade.{passes_over, scan_into}
use sshserv.Dataprovider.Expiry.{scan_permissions, scan_users}

-- Some permission is a date that the scan reads.
abbrev pub any_date : List Text → Bool
any_date [] = false
any_date (p ∷ ps) = if passes_over 10 p then any_date ps else true

abbrev pub HasDate : User → Type 0
HasDate u = any_date u.permissions ≡ true

All-append : (P : User → Type 0) (xs ys : List User) → All P xs → All P ys → All P (xs ++ ys)
All-append P [] ys h k = k
All-append P (x ∷ xs) ys h k = (h.0, All-append P xs ys h.1 k)

scan_permissions-All :
    (P : User → Type 0) (now : ℤ) (user : User) (ex_tm : ℤ) (ps : List Text)
    → (any_date ps ≡ true → P user)
    → All P (scan_permissions now user ex_tm ps).0
unfolding scan_permissions
scan_permissions-All P now user ex_tm [] h = tt
scan_permissions-All P now user ex_tm (p ∷ ps) h = elim (Bool-cases (passes_over 10 p)) [
  | inl y ↦ rw y (scan_permissions-All P now user ex_tm ps (rw y at h))
  | inr n ↦
      let mine : P user = rw n at h refl in
      let later = scan_permissions-All P now user (scan_into ex_tm (drop 8 p)) ps (λ _. mine) in
      rw n (elim (Bool-cases (ltb_ℤ (scan_into ex_tm (drop 8 p)) now)) [
        | inl z ↦ rw z (mine, later)
        | inr z ↦ rw z later
      ])
]

-- Every user that a scan collects has a permission that is a date, whatever was read before.
pub scan_users-HasDate :
    (now ex_tm : ℤ) (users : List User) → All HasDate (scan_users now ex_tm users).0
unfolding scan_users
scan_users-HasDate now ex_tm [] = tt
scan_users-HasDate now ex_tm (user ∷ users) =
    All-append HasDate (scan_permissions now user ex_tm user.permissions).0 _
      (scan_permissions-All HasDate now user ex_tm user.permissions (λ h. h))
      (scan_users-HasDate now (scan_permissions now user ex_tm user.permissions).1 users)

scan_into-none : (old : ℤ) (s : Text) → scan_int64 s ≡ none → scan_into old s ≡ old
unfolding scan_into
scan_into-none old s h = rw (h, scan_into)

scan_permissions-unread :
    (now ex_tm : ℤ) (user : User) (p : Text)
    → passes_over 10 p ≡ false
    → scan_int64 (drop 8 p) ≡ none
    → scan_permissions now user ex_tm (p ∷ [])
      ≡ ((if ltb_ℤ ex_tm now then user ∷ [] else []), ex_tm)
unfolding scan_permissions
scan_permissions-unread now ex_tm user p kept unread =
    let same = scan_into-none ex_tm (drop 8 p) unread in
    rw (kept, same) (elim (Bool-cases (ltb_ℤ ex_tm now)) [ inl z ↦ rw z | inr z ↦ rw z ])

-- A date that cannot be read is judged by the number read last: a user with that one permission is
-- collected exactly if the number before it lies in the past, and the number is passed on.
pub unreadable_date :
    (now ex_tm : ℤ) (user : User) (p : Text) (users : List User)
    → user.permissions ≡ p ∷ []
    → passes_over 10 p ≡ false
    → scan_int64 (drop 8 p) ≡ none
    → (scan_users now ex_tm (user ∷ users)).0 ≡ (
        if ltb_ℤ ex_tm now
        then user ∷ (scan_users now ex_tm users).0
        else (scan_users now ex_tm users).0)
unfolding scan_users
unreadable_date now ex_tm user p users only kept unread =
    simp (only, scan_permissions-unread now ex_tm user p kept unread)
      (elim (Bool-cases (ltb_ℤ ex_tm now)) [ inl z ↦ rw z | inr z ↦ rw z ])
