-- ===== src/Serv/Transfer/Throttle.antt =====
-- How long a throttled transfer sleeps.
use sshserv.Prelude.{
  ℕ, suc, ◌+◌, ◌-◌, ◌*◌, ◌/◌, ◌^◌, ◌<◌, ◌≤◌, ◌≡◌, ◌⊎◌, inl, inr, refl, arith, Bool-cases, ltb,
  ltb→lt, ◌∙◌, ap,
}
use native.Mathlib.Nat.{lt-div-mul-add, div-mul-le_self, div-le_self, mul-le-mul_right}
use sshserv.Prelude.Int.{pos, neg, add64, mul64, wrap64, wrap64_id, ◌+ℤ◌}
use sshserv.Serv.Registry.{Transfer, transfer_download, transfer_upload}
use sshserv.Serv.Transfer.{
  wanted_bandwidth, transferred_bytes, real_elapsed, wanted_elapsed, handle_throttle, sleep_for,
}

mul64-pos : (n k : ℕ) → n * k < 2 ^ 63 → mul64 (pos n) k ≡ pos (n * k)
unfolding mul64
mul64-pos n k h = wrap64_id (pos (n * k)) (h, omega arith)

add64-neg : (w r : ℕ) → r ≤ w → w < 2 ^ 63 → add64 (pos w) (neg (pos r)) ≡ pos (w - r)
unfolding add64 neg ◌+ℤ◌ wrap64
add64-neg w r h k = ground arith

sleep_for_lem :
    (k r w : ℕ) → w * 1000000 < 2 ^ 63 → sleep_for (pos (suc k)) r (pos w) ≡ pos ((w - r) * 1000000)
sleep_for_lem k r w small = elim (Bool-cases (ltb r w)) [
  | inl y ↦
      let less = ltb→lt r w y in
      let slept =
        ap (λ v. mul64 v 1000000) (add64-neg w r (omega (arith, less)) (omega (arith, small)))
        ∙ mul64-pos (w - r) 1000000 (omega (arith, small)) in
      ground (arith, y, slept)
  | inr n ↦ ground (arith, n)
]

-- The direction of a transfer, and in this direction the bytes moved so far and the bandwidth.
pub data Moves (t : Transfer) (b k : ℕ) : Type 0 where
  downloads :
      t.transfer_type ≡ transfer_download
      → t.bytes_sent ≡ pos b
      → t.user.download_bandwidth ≡ pos (suc k)
      → Moves t b k
  uploads :
      t.transfer_type ≡ transfer_upload
      → t.bytes_received ≡ pos b
      → t.user.upload_bandwidth ≡ pos (suc k)
      → Moves t b k

rate_after : (m s r k : ℕ) → m < s * suc k + suc k → m < (r + (s - r) + 1) * suc k
rate_after m s r k h =
    let more : (s + 1) * suc k ≤ (r + (s - r) + 1) * suc k =
      mul-le-mul_right (suc k) (omega arith) in
    omega (arith, h, more)

module _ (t : Transfer) (b k : ℕ) where
  -- The milliseconds that the bytes should have taken, at `suc k` kilobytes a second.
  abbrev due_ms : ℕ
  due_ms = b / 1000 * 1000 / suc k

  due_ms-le : due_ms ≤ b
  due_ms-le = omega (arith, div-le_self (b / 1000 * 1000) (suc k), div-mul-le_self b 1000)

  wanted_elapsed-due_ms :
      transferred_bytes t ≡ pos b
      → wanted_bandwidth t ≡ pos (suc k)
      → b < 2 ^ 63
      → wanted_elapsed t ≡ pos due_ms
  wanted_elapsed-due_ms moved speed small =
      rw (moved, speed, mul64-pos (b / 1000) 1000 (omega (arith, div-mul-le_self b 1000, small)))
        refl

  handle_throttle-slept :
      (now : ℕ)
      → transferred_bytes t ≡ pos b
      → wanted_bandwidth t ≡ pos (suc k)
      → b * 1000000 < 2 ^ 63
      → handle_throttle t now ≡ pos ((due_ms - real_elapsed t now) * 1000000)
  unfolding handle_throttle
  handle_throttle-slept now moved speed small =
      ap (λ w. sleep_for (wanted_bandwidth t) (real_elapsed t now) w)
        (wanted_elapsed-due_ms moved speed (omega (arith, small)))
      ∙ ap (λ v. sleep_for v (real_elapsed t now) (pos due_ms)) speed
      ∙ sleep_for_lem k (real_elapsed t now) due_ms (omega (arith, small, due_ms-le))

  no_longer :
      (now : ℕ)
      → (due_ms - real_elapsed t now ≡ 0)
        ⊎ ((real_elapsed t now + (due_ms - real_elapsed t now)) * suc k ≤ b)
  no_longer now = elim (Bool-cases (ltb (real_elapsed t now) due_ms)) [
    | inl y ↦
        let whole : real_elapsed t now + (due_ms - real_elapsed t now) ≡ due_ms =
          omega (arith, ltb→lt (real_elapsed t now) due_ms y) in
        inr (
          rw (whole)
            (omega (arith, div-mul-le_self (b / 1000 * 1000) (suc k), div-mul-le_self b 1000)))
    | inr n ↦ inl (ground (arith, n))
  ]

  Moves-moved : Moves t b k → (transferred_bytes t ≡ pos b) × (wanted_bandwidth t ≡ pos (suc k))
  Moves-moved (downloads way moved speed) = rw (way) (moved, speed)
  Moves-moved (uploads way moved speed) = rw (way) (moved, speed)

  -- A transfer with a bandwidth in its direction, in kilobytes a second, sleeps whole milliseconds
  -- after which the whole thousands of bytes moved so far are less than the bandwidth times the
  -- milliseconds since the start, the sleep included, and one more; and it sleeps no longer than
  -- that: if it sleeps, the bandwidth times those milliseconds is not more than the bytes. The times
  -- are in nanoseconds, and the bytes are few enough for the sleep to fit 63 bits.
  pub handle_throttle_rate :
      (now : ℕ)
      → Moves t b k
      → b * 1000000 < 2 ^ 63
      → (ms : ℕ) × (handle_throttle t now ≡ pos (ms * 1000000))
        × (b / 1000 * 1000 < ((now - t.start) / 1000000 + ms + 1) * suc k)
        × ((ms ≡ 0) ⊎ (((now - t.start) / 1000000 + ms) * suc k ≤ b))
  handle_throttle_rate now moves small = (
    due_ms - real_elapsed t now,
    handle_throttle-slept now (Moves-moved moves).0 (Moves-moved moves).1 small,
    rate_after (b / 1000 * 1000) due_ms (real_elapsed t now) k (lt-div-mul-add (omega arith)),
    no_longer now,
  )
