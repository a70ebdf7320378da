-- ===== src/Serv/Registry/Idle.antt =====
-- `CheckIdleConnections` against its description: who is disconnected, and who is not.
use sshserv.Prelude.{
  ℕ, ◌-◌, ◌<◌, ◌≡◌, ◌↔◌, refl, inl, inr, Bool, true, List, [], ◌∷◌, arith, Bool-cases, ltb→lt,
  lt→ltb, All,
}
use sshserv.Prelude.Text.{Text, text_eq, text_eq_iff}
use sshserv.Serv.Registry.{
  Registry, Transfer, Connection, shorter, idle_with, is_idle, close_idle, check_idle_connections,
}

-- The transfers of a connection have been idle for longer than a time.
abbrev pub TransfersIdle : ℕ → Text → (ℕ → Transfer) → ℕ → List ℕ → Type 0
TransfersIdle now id heap timeout ts =
    All (λ a. (heap a).connection_id ≡ id → timeout < now - (heap a).last_activity) ts

shorter-lt :
    (own : Bool) (t idle timeout : ℕ)
    → (timeout < shorter own t idle) ↔ ((timeout < idle) × (own ≡ true → timeout < t))
shorter-lt own t idle timeout = ground arith

idle_with-lt :
    (now : ℕ) (id : Text) (heap : ℕ → Transfer) (timeout : ℕ) (ts : List ℕ) (idle : ℕ)
    → (timeout < idle_with now id heap ts idle)
      ↔ ((timeout < idle) × TransfersIdle now id heap timeout ts)
idle_with-lt now id heap timeout [] idle = ground arith
idle_with-lt now id heap timeout (a ∷ ts) idle =
    let own = text_eq (heap a).connection_id id in
    let owner = text_eq_iff (heap a).connection_id id in
    let one = shorter-lt own (now - (heap a).last_activity) idle timeout in
    let rest =
      idle_with-lt now id heap timeout ts (shorter own (now - (heap a).last_activity) idle) in
    (
      (λ h. ((one.0 (rest.0 h).0).0, ((λ e. (one.0 (rest.0 h).0).1 (owner.1 e)), (rest.0 h).1))),
      (λ h. rest.1 (one.1 (h.0, (λ t. h.1.0 (owner.0 t))), h.1.1)),
    )

-- Whether a client is found idle: its connection and each of its transfers have been idle for
-- longer than the timeout.
pub is_idle_iff :
    (now : ℕ) (s : Registry) (c : Connection)
    → (is_idle now s c ≡ true) ↔ (
        (s.idle_timeout < now - c.last_activity)
        × TransfersIdle now c.id s.transfers s.idle_timeout s.active_transfers)
is_idle_iff now s c =
    let rest =
      idle_with-lt now c.id s.transfers s.idle_timeout s.active_transfers (now - c.last_activity) in
    ((λ h. rest.0 (ltb→lt s.idle_timeout _ h)), (λ h. lt→ltb s.idle_timeout _ (rest.1 h)))

-- A connection has been idle for longer than the timeout, and so has each of its transfers.
abbrev pub IsIdle : ℕ → Registry → Connection → Type 0
IsIdle now s c =
    (s.idle_timeout < now - c.last_activity)
    × TransfersIdle now c.id s.transfers s.idle_timeout s.active_transfers

-- What is closed, the last one first, after the idle ones of some connections were closed in their
-- order, and no other one.
pub data Closes (now : ℕ) (s : Registry) : List (Text × Connection) → List ℕ → List ℕ → Type 0 where
  no_more : (before : List ℕ) → Closes now s [] before before
  closes :
      (id : Text) (c : Connection) (rest : List (Text × Connection)) (before after : List ℕ)
      → IsIdle now s c
      → Closes now s rest (c.ssh_conn ∷ before) after
      → Closes now s ((id, c) ∷ rest) before after
  spares :
      (id : Text) (c : Connection) (rest : List (Text × Connection)) (before after : List ℕ)
      → ¬ IsIdle now s c
      → Closes now s rest before after
      → Closes now s ((id, c) ∷ rest) before after

close_idle-Closes :
    (now : ℕ) (s : Registry) (open_ones : List (Text × Connection)) (before : List ℕ)
    → Closes now s open_ones before (close_idle now s open_ones before)
close_idle-Closes now s [] before = no_more before
close_idle-Closes now s ((id, c) ∷ rest) before = elim (Bool-cases (is_idle now s c)) [
  | inl y ↦ rw (y) (
      closes id c rest before _ ((is_idle_iff now s c).0 y)
        (close_idle-Closes now s rest (c.ssh_conn ∷ before)))
  | inr n ↦ rw (n) (
      spares id c rest before _ (λ h. cc (n, (is_idle_iff now s c).1 h))
        (close_idle-Closes now s rest before))
]

-- A check of the idle connections disconnects exactly the clients whose connection and each of whose
-- transfers have been idle for longer than the timeout, one call each, and changes nothing else.
pub check_idle_connections-Closes :
    (now : ℕ) (s : Registry)
    → (closed : List ℕ) × Closes now s s.open_connections s.closed closed
      × (check_idle_connections now s ≡ record s { closed = closed })
unfolding check_idle_connections
check_idle_connections-Closes now s = (_, close_idle-Closes now s s.open_connections s.closed, refl)
