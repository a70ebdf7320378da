-- ===== src/Serv/Registry/Scans.antt =====
-- The quota scans: `AddQuotaScan` and `RemoveQuotaScan` as steps.
use sshserv.Prelude.{
  ℕ, ◌+◌, ◌≤◌, ◌<◌, ◌≡◌, ◌⊎◌, ◌↔◌, inl, inr, refl, ap, Bool, true, false, none, some, ◌++◌,
  if◌then◌else◌, arith, Option-cases, Bool-cases,
}
use sshserv.Prelude.Text.{Text, text_eq, text_eq_iff, text_eq_refl}
use sshserv.Prelude.SwapRemove.{
  find_index, count, count-append, count-swap_remove, find_index-eq-some, find_index-eq-none,
}
use sshserv.Serv.Registry.{
  Registry, scans_user, add_quota_scan, remove_quota_scan, quota_scan_not_found,
}

-- How many scans of a user are listed.
abbrev pub scans_of : Text → Registry → ℕ
scans_of username s = count (scans_user username) s.active_quota_scans

-- What the API's handlers do to the scans.
pub data ScanStep : Registry → Registry → Type 0 where
  add : (u : Text) (now : ℕ) (s : Registry) → ScanStep s (add_quota_scan u now s).1
  remove : (u : Text) (s : Registry) → ScanStep s (remove_quota_scan u s).1

pub data ScanSteps : Registry → Registry → Type 0 where
  done : (s : Registry) → ScanSteps s s
  more : {s t u : Registry} → ScanStep s t → ScanSteps t u → ScanSteps s u

abbrev pub one_if : Bool → ℕ
one_if b = if b then 1 else 0

-- Other users' scans are not touched, and the user's are one more, if there was none.
add_quota_scan-count :
    (u v : Text) (now : ℕ) (s : Registry)
    → scans_of v (add_quota_scan u now s).1
      ≡ scans_of v s + (if (add_quota_scan u now s).0 then one_if (text_eq u v) else 0)
unfolding add_quota_scan
add_quota_scan-count u v now s =
    elim (Option-cases (find_index (scans_user u) s.active_quota_scans)) [
      | inl e ↦
          rw (add_quota_scan, e) (omega (arith, count-append (scans_user v) s.active_quota_scans))
      | inr (i, e) ↦ rw (add_quota_scan, e) (omega arith)
    ]

add_quota_scan-fresh :
    (u : Text) (now : ℕ) (s : Registry)
    → (((add_quota_scan u now s).0 ≡ true) × (scans_of u s ≡ 0))
      ⊎ (((add_quota_scan u now s).0 ≡ false) × (0 < scans_of u s))
unfolding add_quota_scan
add_quota_scan-fresh u now s =
    elim (Option-cases (find_index (scans_user u) s.active_quota_scans)) [
      | inl e ↦
          inl (
            rw (add_quota_scan, e) (refl, find_index-eq-none (scans_user u) s.active_quota_scans e))
      | inr (i, e) ↦
          let (q, at, own) = find_index-eq-some (scans_user u) s.active_quota_scans i e in
          let all = count-swap_remove (scans_user u) s.active_quota_scans i q at in
          inr (rw (add_quota_scan, e) (refl, omega (arith, rw (own) at all)))
    ]

-- What a removal reports and leaves.
remove_quota_scan-count :
    (u : Text) (s : Registry)
    → (((remove_quota_scan u s).0 ≡ some (quota_scan_not_found ++ u))
        × (scans_of u s ≡ 0)
        × ((remove_quota_scan u s).1 ≡ s))
      ⊎ (((remove_quota_scan u s).0 ≡ none)
          × ((v : Text)
              → scans_of v (remove_quota_scan u s).1 + one_if (text_eq u v) ≡ scans_of v s))
unfolding remove_quota_scan
remove_quota_scan-count u s = elim (Option-cases (find_index (scans_user u) s.active_quota_scans)) [
  | inl e ↦ inl (
      rw (remove_quota_scan, e)
        (refl, find_index-eq-none (scans_user u) s.active_quota_scans e, refl))
  | inr (i, e) ↦
      let (q, at, own) = find_index-eq-some (scans_user u) s.active_quota_scans i e in
      inr (
        rw (remove_quota_scan, e)
          (
            refl,
            λ v.
                let same : text_eq q.username v ≡ text_eq u v =
                  ap (λ n. text_eq n v) ((text_eq_iff q.username u).0 own) in
                let all = count-swap_remove (scans_user v) s.active_quota_scans i q at in
                omega (arith, rw (same) at all),
          ))
]

-- A scan is started exactly when the user has none running; then it is one more for that user and
-- no other user's are touched, and otherwise no user's are.
pub add_quota_scan_lem :
    (u v : Text) (now : ℕ) (s : Registry)
    → (((add_quota_scan u now s).0 ≡ true) ↔ (scans_of u s ≡ 0))
      × (scans_of v (add_quota_scan u now s).1
          ≡ scans_of v s + (if (add_quota_scan u now s).0 then one_if (text_eq u v) else 0))
add_quota_scan_lem u v now s =
    (ground (arith, add_quota_scan-fresh u now s), add_quota_scan-count u v now s)

at_most_one_step :
    {s t : Registry}
    → ScanStep s t
    → ((v : Text) → scans_of v s ≤ 1)
    → (v : Text) → scans_of v t ≤ 1
at_most_one_step (add u now s) h v = elim (add_quota_scan-fresh u now s) [
  | inl (e, none_yet) ↦ elim (Bool-cases (text_eq u v)) [
    | inl t ↦
        let same = (text_eq_iff u v).0 t in
        let zero_v : scans_of v s ≡ 0 = rw (same) at none_yet in
        ground (arith, add_quota_scan-count u v now s, e, t, zero_v)
    | inr f ↦ ground (arith, add_quota_scan-count u v now s, e, f, h v)
  ]
  | inr (e, some_yet) ↦ ground (arith, add_quota_scan-count u v now s, e, h v)
]
at_most_one_step (remove u s) h v = elim (remove_quota_scan-count u s) [
  | inl (e, none_left, same) ↦ rw (same) (h v)
  | inr (e, counts) ↦ omega (arith, counts v, h v)
]

-- No sequence of starts and removals gives a user two running scans, when none has two before it.
pub quota_scan_once :
    {s t : Registry}
    → ScanSteps s t
    → ((v : Text) → scans_of v s ≤ 1)
    → (v : Text) → scans_of v t ≤ 1
quota_scan_once (done s) h v = h v
quota_scan_once (more st rest) h v = quota_scan_once rest (at_most_one_step st h) v

-- Where no user has two running scans, a removal reports an error exactly when the user has none;
-- afterwards the user has none, and the other users' scans are as before.
pub remove_quota_scan_lem :
    (u : Text) (s : Registry)
    → ((v : Text) → scans_of v s ≤ 1)
    → (((remove_quota_scan u s).0 ≡ none) ↔ (scans_of u s ≡ 1))
      × (scans_of u (remove_quota_scan u s).1 ≡ 0)
      × ((v : Text) → text_eq u v ≡ false → scans_of v (remove_quota_scan u s).1 ≡ scans_of v s)
remove_quota_scan_lem u s h = elim (remove_quota_scan-count u s) [
  | inl (e, none_left, same) ↦ rw (same) (ground (arith, e, none_left), none_left, λ v f. refl)
  | inr (e, counts) ↦
      let own : scans_of u (remove_quota_scan u s).1 + 1 ≡ scans_of u s =
        rw (text_eq_refl u) at (counts u) in
      (
        ground (arith, e, own, h u),
        omega (arith, own, h u),
        λ v f. omega (arith, rw (f) at (counts v)),
      )
]
