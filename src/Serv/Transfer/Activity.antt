-- ===== src/Serv/Transfer/Activity.antt =====
-- A client that transfers is not idle.
use sshserv.Prelude.{
  ℕ, ◌-◌, ◌<◌, ◌≤◌, ◌≡◌, inl, inr, refl, false, List, [], ◌∷◌, arith, ◌==◌, ==_iff, Bool-cases, ap,
  ◌∙◌,
}
use sshserv.Prelude.Int.{ℤ}
use sshserv.Prelude.Text.{Text}
use sshserv.Prelude.SwapRemove.{count}
use sshserv.Serv.Registry.{Transfer, Connection, Registry, is_idle, is_transfer}
use sshserv.Serv.Registry.Transfers.{listed}
use sshserv.Serv.Registry.Idle.{TransfersIdle, is_idle_iff}
use sshserv.Serv.Transfer.{Files, read_at, write_at, set_transfer}

-- An active transfer of a connection bounds the connection's idle time.
TransfersIdle-own :
    (now : ℕ) (id : Text) (heap : ℕ → Transfer) (timeout a : ℕ) (ts : List ℕ)
    → TransfersIdle now id heap timeout ts
    → 0 < count (is_transfer a) ts
    → (heap a).connection_id ≡ id
    → timeout < now - (heap a).last_activity
TransfersIdle-own now id heap timeout a [] h there own = absurd (omega (arith, there))
TransfersIdle-own now id heap timeout a (b ∷ bs) h there own = elim (Bool-cases (b == a)) [
  | inl t ↦
      let same = (==_iff b a).0 t in
      rw (same) at (h.0 (ap (λ n. (heap n).connection_id) same ∙ own))
  | inr f ↦ TransfersIdle-own now id heap timeout a bs h.1 (ground (arith, there, f)) own
]

set_transfer_alive :
    (a later : ℕ) (t : Transfer) (c : Connection) (s : Registry)
    → 0 < listed a s
    → t.connection_id ≡ c.id
    → later - t.last_activity ≤ s.idle_timeout
    → is_idle later (set_transfer a t s) c ≡ false
set_transfer_alive a later t c s there own recent =
    elim (Bool-cases (is_idle later (set_transfer a t s) c)) [
      | inl idle ↦
          let heap = (set_transfer a t s).transfers in
          let here : heap a ≡ t = rw ((==_iff a a).1 refl) refl in
          let (_, all) = (is_idle_iff later (set_transfer a t s) c).0 idle in
          let old =
            TransfersIdle-own later c.id heap s.idle_timeout a s.active_transfers all there
              (ap (λ (u : Transfer). u.connection_id) here ∙ own) in
          let same = ap (λ (u : Transfer). u.last_activity) here in
          absurd (omega (arith, old, recent, same))
      | inr f ↦ f
    ]

-- A connection that reads or writes through one of its active transfers is not found idle before
-- the timeout has passed since that call, whatever its other transfers do.
pub transfer-keeps_alive :
    (files : Files) (a size : ℕ) (p : Text) (off : ℤ) (now slept later : ℕ) (w : files.World)
    (c : Connection) (s : Registry)
    → 0 < listed a s
    → (s.transfers a).connection_id ≡ c.id
    → later - now ≤ s.idle_timeout
    → (is_idle later (read_at files a size off now slept w s).registry c ≡ false)
      × (is_idle later (write_at files a p off now slept w s).registry c ≡ false)
unfolding read_at write_at
transfer-keeps_alive files a size p off now slept later w c s there own recent = (
  set_transfer_alive a later (read_at files a size off now slept w s).transfer_after c s there own
      recent,
  set_transfer_alive a later (write_at files a p off now slept w s).transfer_after c s there own
      recent,
)
