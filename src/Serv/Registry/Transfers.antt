-- ===== src/Serv/Registry/Transfers.antt =====
-- The active transfers: `addTransfer` and `removeTransfer`, which compare pointers.
use sshserv.Prelude.{
  ℕ, ◌+◌, ◌<◌, ◌≡◌, ◌⊎◌, inl, inr, refl, ap, none, some, ◌∷◌, if◌then◌else◌, arith, Option-cases,
  ◌==◌, ==_iff,
}
use mathlib.Core.List.{Perm}
use sshserv.Prelude.SwapRemove.{
  find_index, swap_remove-perm, count, count-append, count-swap_remove, find_index-eq-some,
  find_index-eq-none,
}
use sshserv.Serv.Registry.{Registry, is_transfer, add_transfer, remove_transfer, transfer_not_found}

-- How often a transfer is listed.
abbrev pub listed : ℕ → Registry → ℕ
listed a s = count (is_transfer a) s.active_transfers

-- A removal takes one entry of the transfer out, and every other entry stays, if not in its place;
-- where the transfer is not listed it reports an error and changes nothing.
pub remove_transfer_lem :
    (a : ℕ) (s : Registry)
    → (((remove_transfer a s).0 ≡ some transfer_not_found)
        × (listed a s ≡ 0)
        × ((remove_transfer a s).1 ≡ s))
      ⊎ (((remove_transfer a s).0 ≡ none)
          × Perm (a ∷ (remove_transfer a s).1.active_transfers) s.active_transfers)
unfolding remove_transfer
remove_transfer_lem a s = elim (Option-cases (find_index (is_transfer a) s.active_transfers)) [
  | inl e ↦ inl (
      rw (remove_transfer, e) (refl, find_index-eq-none (is_transfer a) s.active_transfers e, refl))
  | inr (i, e) ↦
      let (b, at, own) = find_index-eq-some (is_transfer a) s.active_transfers i e in
      let left = swap_remove-perm s.active_transfers i b at in
      inr (rw (remove_transfer, e) (refl, rw ((==_iff b a).0 own) at left))
]

remove_transfer-count :
    (a b : ℕ) (s : Registry)
    → 0 < listed a s
    → ((remove_transfer a s).0 ≡ none)
      × (listed b (remove_transfer a s).1 + (if a == b then 1 else 0) ≡ listed b s)
unfolding remove_transfer
remove_transfer-count a b s h =
    elim (Option-cases (find_index (is_transfer a) s.active_transfers)) [
      | inl e ↦ absurd (omega (arith, h, find_index-eq-none (is_transfer a) s.active_transfers e))
      | inr (i, e) ↦
          let (c, at, own) = find_index-eq-some (is_transfer a) s.active_transfers i e in
          let same : (c == b) ≡ (a == b) = ap (λ n. n == b) ((==_iff c a).0 own) in
          let all = count-swap_remove (is_transfer b) s.active_transfers i c at in
          rw (remove_transfer, e) (refl, omega (arith, rw (same) at all))
    ]

pub listed-add_transfer :
    (a b : ℕ) (s : Registry) → listed b (add_transfer a s) ≡ listed b s + (if a == b then 1 else 0)
unfolding add_transfer
listed-add_transfer a b s = omega (arith, count-append (is_transfer b) s.active_transfers)

-- A transfer that is added when it starts and removed when it ends is listed in between and not
-- afterwards, and the other transfers are listed as often as before.
pub remove-add_transfer :
    (a b : ℕ) (s : Registry)
    → listed a s ≡ 0
    → (listed a (add_transfer a s) ≡ 1)
      × ((remove_transfer a (add_transfer a s)).0 ≡ none)
      × (listed b (remove_transfer a (add_transfer a s)).1 ≡ listed b s)
remove-add_transfer a b s h =
    let own : listed a (add_transfer a s) ≡ 1 =
      ground (arith, listed-add_transfer a a s, h, ==_iff a a) in
    let (ok, rest) = remove_transfer-count a b (add_transfer a s) (omega (arith, own)) in
    (own, ok, omega (arith, rest, listed-add_transfer a b s))
