-- ===== src/Serv/Transfer.antt =====
-- serv/transfer.go: ReadAt, WriteAt and the throttling of a transfer. One call is one step of the
-- shared state; the open file behind a transfer is the operating system's.
pub mod Throttle
pub mod Activity
pub mod Close
use sshserv.Prelude.{ℕ, suc, ◌-◌, ◌/◌, ◌==◌, Option, if◌then◌else◌}
use sshserv.Prelude.Int.{ℤ, pos, negsuc, neg, ltb_ℤ, add64, mul64}
use sshserv.Prelude.Text.{Text}
use sshserv.Dataprovider.User.{User}
use sshserv.Serv.Registry.{TransferType, transfer_upload, transfer_download, Transfer, Registry}

-- Go's division, which rounds towards zero; the divisors here are positive.
abbrev pub quot : ℤ → ℤ → ℤ
quot (pos a) (pos b) = pos (a / b)
quot (pos a) (negsuc b) = neg (pos (a / suc b))
quot (negsuc a) (pos b) = neg (pos (suc a / b))
quot (negsuc a) (negsuc b) = pos (suc a / suc b)

abbrev pub wanted_bandwidth : Transfer → ℤ
wanted_bandwidth t = elim t.transfer_type [
  | transfer_download ↦ t.user.download_bandwidth
  | transfer_upload ↦ t.user.upload_bandwidth
]

abbrev pub transferred_bytes : Transfer → ℤ
transferred_bytes t = elim t.transfer_type [
  | transfer_download ↦ t.bytes_sent
  | transfer_upload ↦ t.bytes_received
]

abbrev pub real_elapsed : Transfer → ℕ → ℕ
real_elapsed t now = (now - t.start) / 1000000

abbrev pub wanted_elapsed : Transfer → ℤ
wanted_elapsed t = quot (mul64 (quot (transferred_bytes t) (pos 1000)) 1000) (wanted_bandwidth t)

-- The nanoseconds of sleep for a bandwidth and the elapsed milliseconds, real and wanted.
abbrev pub sleep_for : ℤ → ℕ → ℤ → ℤ
sleep_for bandwidth real wanted =
    if ltb_ℤ (pos 0) bandwidth
    then if ltb_ℤ (pos real) wanted then mul64 (add64 wanted (neg (pos real))) 1000000 else pos 0
    else pos 0

-- `handleThrottle` at an instant: the nanoseconds that it sleeps.
unfoldable pub handle_throttle : Transfer → ℕ → ℤ
handle_throttle t now = sleep_for (wanted_bandwidth t) (real_elapsed t now) (wanted_elapsed t)

-- The open file of each transfer: how many bytes a call transfer_after, and its error.
pub record Files : Type 1 where
  pub World : Type 0
  pub read_at : ℕ → ℕ → ℤ → World → (ℕ × Option Text) × World
  pub write_at : ℕ → Text → ℤ → World → (ℕ × Option Text) × World

-- What a call leaves: its results, the files, the shared state and the time it slept.
pub record Moved (World : Type 0) : Type 0 where
  pub count : ℕ
  pub error : Option Text
  pub world : World
  pub transfer_after : Transfer
  pub registry : Registry
  pub slept : ℤ

abbrev pub set_transfer : ℕ → Transfer → Registry → Registry
set_transfer a t s = record s { transfers = λ b. if b == a then t else s.transfers b }

module _ (files : Files) where
  -- `ReadAt`, called at `now`, with the file read by `later`.
  unfoldable pub read_at : ℕ → ℕ → ℤ → ℕ → ℕ → files.World → Registry → Moved files.World
  read_at a size off now later w s =
      let done = files.read_at a size off w in
      let t = record (s.transfers a) {
        last_activity = now;
        bytes_sent = add64 (s.transfers a).bytes_sent (pos done.0.0);
      } in
      record {
        count = done.0.0;
        error = done.0.1;
        world = done.1;
        transfer_after = t;
        registry = set_transfer a t s;
        slept = handle_throttle t later;
      }

  -- `WriteAt`, likewise.
  unfoldable pub write_at : ℕ → Text → ℤ → ℕ → ℕ → files.World → Registry → Moved files.World
  write_at a p off now later w s =
      let done = files.write_at a p off w in
      let t = record (s.transfers a) {
        last_activity = now;
        bytes_received = add64 (s.transfers a).bytes_received (pos done.0.0);
      } in
      record {
        count = done.0.0;
        error = done.0.1;
        world = done.1;
        transfer_after = t;
        registry = set_transfer a t s;
        slept = handle_throttle t later;
      }
