-- ===== src/Serv/Scp/Upload/Ending.antt =====
-- `handleRecursiveUpload` ends on a channel whose input ends.
use sshserv.Prelude.{
  ℕ, zero, suc, ◌-◌, ◌<◌, ◌≤◌, inl, inr, true, not, ◌&&◌, none, some, Result, ok, err,
  if◌then◌else◌, ltb, leb, length, arith, Bool-cases, Option-cases, Result-cases,
}
use Prim.Native.Nat.{min}
use sshserv.Prelude.Int.{ℤ, pos, negsuc, add64, eqb_ℤ}
use sshserv.Prelude.Text.{Text, bytes, has_prefix}
use sshserv.Dataprovider.User.{has_perm, perm_upload, perm_create_dirs}
use sshserv.Serv.Quota.{has_space}
use sshserv.Serv.Os.{is_not_exist}
use sshserv.Serv.Transfer.Close.{close}
use sshserv.Serv.Env.{Env}
use sshserv.Serv.Paths.{os_error, is_missing, build_path}
use sshserv.Serv.Sftp.Open.{is_atomic}
use sshserv.Serv.Scp.Session.{
  Channel, Stop, failed, panicked, exhausted, Command, Session, stop, return, finish, ◌>>=◌, ◌>>◌,
}
use sshserv.Serv.Scp.Protocol.{
  ok_msg, with_channel, send_error_message, send_confirmation_message, read_confirmation_message,
  refuse,
}
use sshserv.Serv.Scp.Protocol.Reading.{
  Drains, input, Ends, EndsBelow, chain, continue-Ends, weaken-Ends, refuse-Ends, send-EndsBelow,
  read_confirmation_message-EndsBelow, get_next_upload_protocol_message-EndsBelow,
}
use sshserv.Serv.Scp.Messages.{get_dest_path, parse_upload_message}
use sshserv.Serv.Scp.Upload.{
  Scp, create_dir, handle_create_dir, close_transfer, write_data, copy_data, receive_data,
  get_upload_file_data, create_and_receive, handle_upload_file, upload_to, handle_upload,
  upload_message, upload_loop, handle_recursive_upload,
}

module _ (env : Env) (ch : Channel) (cmd : Command) (clock : ℕ → ℕ) (fuel : ℕ)
    (drains : Drains ch) where
  -- A handler stays below each bound that is within the fuel.
  abbrev Bounded : {A : Type 0} → Scp env ch cmd clock fuel A → Type 0
  Bounded m =
      (n : ℕ) (s : Session env ch) → n ≤ fuel → input drains s < n → EndsBelow drains n (m s)

  create_dir-Bounded : (p : Text) → Bounded (create_dir env ch cmd clock fuel p)
  unfolding create_dir
  create_dir-Bounded p n s f h = elim (Option-cases (env.os.mkdir p s.server.world).0) [
    | inr (x, e) ↦ rw (create_dir, e) (refuse-Ends drains (λ a k. k < n) _ _)
    | inl e ↦ rw (create_dir, e) h
  ]

  handle_create_dir-Bounded : (p : Text) → Bounded (handle_create_dir env ch cmd clock fuel p)
  unfolding handle_create_dir
  handle_create_dir-Bounded p n s f h =
      elim (Bool-cases (has_perm cmd.connection.user perm_create_dirs)) [
        | inr d ↦ rw (handle_create_dir, d) (refuse-Ends drains (λ a k. k < n) _ _)
        | inl y ↦ elim (Result-cases (build_path env cmd.connection.user p s.server.world)) [
          | inl (e, b) ↦ rw (handle_create_dir, y, b) (refuse-Ends drains (λ a k. k < n) _ _)
          | inr (q, b) ↦ rw (handle_create_dir, y, b) (create_dir-Bounded q n _ f h)
        ]
      ]

  or_close-Ends :
      {A : Type 0} (n a : ℕ) (r : Result Stop A × Session env ch)
      → EndsBelow drains n r
      → EndsBelow drains n (
          finish
            (λ (r : Result Stop A). elim r [
              | err e ↦ close_transfer env ch cmd clock fuel a >> stop e
              | ok x ↦ return x
            ])
            r)
  unfolding close_transfer
  or_close-Ends n a (ok x, s) h = h
  or_close-Ends n a (err (failed e), s) h = tt
  or_close-Ends n a (err panicked, s) h = tt
  or_close-Ends n a (err exhausted, s) h = h

  copy_data-Ends :
      (f a size remaining buf n : ℕ) (s : Session env ch)
      → input drains s < n
      → input drains s < f
      → EndsBelow drains n (copy_data env ch cmd clock fuel f a size remaining buf s)
  unfolding copy_data write_data send_error_message
  copy_data-Ends zero a size remaining buf n s h f = absurd (omega (arith, f))
  copy_data-Ends (suc g) a size remaining buf n s h f =
      let s' = with_channel (ch.read buf s.channel).1 s in
      let (lt, le) = drains.by_read buf s.channel in
      let text = (ch.read buf s.channel).0.0 in
      let left = remaining - length text in
      elim (Option-cases (ch.read buf s.channel).0.1) [
        | inr (x, e) ↦ rw (copy_data, e) (tt)
        | inl e ↦ elim (Bool-cases (leb left 0)) [
          | inl y ↦ rw (copy_data, e, y) (omega (arith, h, le))
          | inr d ↦
              rw (copy_data, e, d)
                (copy_data-Ends g a size left (if ltb left buf then left else buf) n _
                  (omega (arith, h, le)) (omega (arith, f, lt e)))
        ]
      ]

  receive_data-Bounded : (a : ℕ) (size : ℤ) → Bounded (receive_data env ch cmd clock fuel a size)
  receive_data-Bounded a (negsuc z) n s f h = h
  receive_data-Bounded a (pos z) n s f h = elim (Bool-cases (ltb 0 z)) [
    | inr d ↦ rw (d) h
    | inl y ↦ rw (y) (
        or_close-Ends n a (copy_data env ch cmd clock fuel fuel a z z (min 32768 z) s)
          (copy_data-Ends fuel a z z (min 32768 z) n s h (omega (arith, h, f))))
  ]

  confirm-Bounded : Bounded (read_confirmation_message fuel)
  confirm-Bounded n s f h =
      weaken-Ends drains (λ u k. k < input drains s) (λ u k. k < n) _ (λ u k l. omega (arith, l, h))
        (read_confirmation_message-EndsBelow drains fuel s (omega (arith, h, f)))

  close_confirmed-Bounded :
      (a : ℕ)
      → Bounded (
          close_transfer env ch cmd clock fuel a >>= (λ closed. elim closed [
            | some e ↦ refuse (cmd.error_text (os_error e))
            | none ↦ send_confirmation_message
          ]))
  unfolding close_transfer
  close_confirmed-Bounded a n s f h = elim (Option-cases (close env a s.server).0) [
    | inr (x, e) ↦ rw (close_transfer, e) (refuse-Ends drains (λ a k. k < n) _ _)
    | inl e ↦ rw (close_transfer, e) (send-EndsBelow drains ok_msg n _ h)
  ]

  get_upload_file_data-Bounded :
      (size : ℤ) (a : ℕ) → Bounded (get_upload_file_data env ch cmd clock fuel size a)
  unfolding get_upload_file_data
  get_upload_file_data-Bounded size a n s f h =
      chain drains n _ _ (or_close-Ends n a _ (send-EndsBelow drains ok_msg n s h)) (λ u s' h'.
        chain drains n _ _ (receive_data-Bounded a size n s' f h') (λ u s'' h''.
          chain drains n _ _ (or_close-Ends n a _ (confirm-Bounded n s'' f h''))
            (λ u s3 h3. close_confirmed-Bounded a n s3 f h3)))

  create_and_receive-Bounded :
      (p q : Text) (size : ℤ) → Bounded (create_and_receive env ch cmd clock fuel p q size)
  unfolding create_and_receive
  create_and_receive-Bounded p q size n s f h =
      elim (Option-cases (env.os.create s.server.next q s.server.world).0) [
        | inr (x, e) ↦ rw (create_and_receive, e) (refuse-Ends drains (λ a k. k < n) _ _)
        | inl e ↦
            rw (create_and_receive, e) (get_upload_file_data-Bounded size s.server.next n _ f h)
      ]

  handle_upload_file-Bounded :
      (p q : Text) (size : ℤ) → Bounded (handle_upload_file env ch cmd clock fuel p q size)
  unfolding handle_upload_file
  handle_upload_file-Bounded p q size n s f h =
      elim (Bool-cases
        (has_space env.config env.provider true cmd.connection.user s.server.store)) [
          | inr d ↦ rw (handle_upload_file, d) (refuse-Ends drains (λ a k. k < n) _ _)
          | inl y ↦
              elim (Bool-cases (
                is_missing (env.os.stat (env.os.dir p) s.server.world)
                && not (has_perm cmd.connection.user perm_create_dirs))) [
                  | inl m ↦ rw (handle_upload_file, y, m) (refuse-Ends drains (λ a k. k < n) _ _)
                  | inr m ↦
                      rw (handle_upload_file, y, m) (create_and_receive-Bounded p q size n s f h)
                ]
        ]

  upload_to-Bounded : (p q : Text) (size : ℤ) → Bounded (upload_to env ch cmd clock fuel p q size)
  unfolding upload_to
  upload_to-Bounded p q size n s f h = elim (Result-cases (env.os.stat p s.server.world)) [
    | inl (e, r) ↦ elim (Bool-cases (is_not_exist e)) [
      | inl y ↦ rw (upload_to, r, y) (handle_upload_file-Bounded p q size n s f h)
      | inr d ↦ rw (upload_to, r, d) tt
    ]
    | inr (stat, r) ↦ elim (Bool-cases stat.is_dir) [
      | inl y ↦ rw (upload_to, r, y) (refuse-Ends drains (λ a k. k < n) _ _)
      | inr d ↦ elim (Bool-cases (is_atomic env.upload_mode)) [
        | inr m ↦ rw (upload_to, r, d, m) (handle_upload_file-Bounded p q size n _ f h)
        | inl m ↦ elim (Option-cases (env.os.rename p q s.server.world).0) [
          | inr (x, e) ↦ rw (upload_to, r, d, m, e) (refuse-Ends drains (λ a k. k < n) _ _)
          | inl e ↦ rw (upload_to, r, d, m, e) (handle_upload_file-Bounded p q size n _ f h)
        ]
      ]
    ]
  ]

  handle_upload-Bounded :
      (p : Text) (size : ℤ) → Bounded (handle_upload env ch cmd clock fuel p size)
  unfolding handle_upload
  handle_upload-Bounded p size n s f h =
      elim (Bool-cases (has_perm cmd.connection.user perm_upload)) [
        | inr d ↦ rw (handle_upload, d) (refuse-Ends drains (λ a k. k < n) _ _)
        | inl y ↦ elim (Result-cases (build_path env cmd.connection.user p s.server.world)) [
          | inl (e, b) ↦ rw (handle_upload, y, b) (refuse-Ends drains (λ a k. k < n) _ _)
          | inr (q, b) ↦ elim (Bool-cases (is_atomic env.upload_mode)) [
            | inl m ↦ rw (handle_upload, y, b, m) (upload_to-Bounded q _ size n _ f h)
            | inr m ↦ rw (handle_upload, y, b, m) (upload_to-Bounded q _ size n _ f h)
          ]
        ]
      ]

  upload_message-Bounded :
      (command : Text) (depth : ℤ) (path : Text)
      → Bounded (upload_message env ch cmd clock fuel command depth path)
  unfolding upload_message
  upload_message-Bounded command depth path n s f h =
      elim (Bool-cases (has_prefix command (bytes "E"))) [
        | inl y ↦ elim (Bool-cases (eqb_ℤ (add64 depth (negsuc 0)) (pos 0))) [
          | inl z ↦
              rw (upload_message, y, z)
                (chain drains n _ _ (send-EndsBelow drains ok_msg n s h) (λ u s' h'. h'))
          | inr z ↦ rw (upload_message, y, z) h
        ]
        | inr d ↦ elim (Result-cases (parse_upload_message cmd command)) [
          | inl (t, r) ↦ rw (upload_message, d, r) (refuse-Ends drains (λ a k. k < n) _ _)
          | inr ((size, name), r) ↦ elim (Bool-cases (has_prefix command (bytes "D"))) [
            | inl y ↦
                rw (upload_message, d, r, y)
                  (chain drains n _ _ (handle_create_dir-Bounded _ n s f h) (λ u s' h'. h'))
            | inr c ↦
                rw (upload_message, d, r, c)
                  (chain drains n _ _ (handle_upload-Bounded _ size n s f h) (λ u s' h'. h'))
          ]
        ]
      ]

  upload_loop-Ends :
      (loops : ℕ) (depth : ℤ) (path : Text) (s : Session env ch)
      → input drains s < loops
      → input drains s < fuel
      → Ends drains (λ u k. Unit {0}) (upload_loop env ch cmd clock fuel loops depth path s)
  unfolding upload_loop
  upload_loop-Ends zero depth path s l f = absurd (omega (arith, l))
  upload_loop-Ends (suc loops) depth path s l f =
      let n = suc (input drains s) in
      continue-Ends drains (λ u k. k < n) (λ u k. Unit {0}) _ _
        (send-EndsBelow drains ok_msg n s (omega arith))
        (λ u s' h'.
          let next =
            get_next_upload_protocol_message-EndsBelow drains fuel fuel s' (omega (arith, h', f))
              (omega (arith, h', f)) in
          continue-Ends drains (λ u k. k < input drains s') (λ u k. Unit {0}) _ _ next
            (λ command s'' h''.
              continue-Ends drains (λ u k. k < input drains s') (λ u k. Unit {0}) _ _
                (upload_message-Bounded command depth path (input drains s') s''
                  (omega (arith, h', f)) h'')
                (λ r s3 h3. elim (Bool-cases (eqb_ℤ r.0 (pos 0))) [
                  | inl z ↦ rw (z) tt
                  | inr z ↦ rw (z) (
                      upload_loop-Ends loops r.0 r.1 s3 (omega (arith, l, h', h3))
                        (omega (arith, h', h3, f)))
                ])))

  -- An scp upload, of a file or of a tree of directories, does not run out of fuel when the fuel is
  -- above the reads that are left of the client's channel: each of its loops ends, whatever the
  -- client sends.
  pub handle_recursive_upload-Ends :
      (s : Session env ch)
      → input drains s < fuel
      → Ends drains (λ u k. Unit {0}) (handle_recursive_upload env ch cmd clock fuel s)
  unfolding handle_recursive_upload
  handle_recursive_upload-Ends s f = elim (Option-cases (get_dest_path cmd.args)) [
    | inl e ↦ rw (handle_recursive_upload, e) tt
    | inr (path, e) ↦ rw (handle_recursive_upload, e) (upload_loop-Ends fuel (pos 0) path s f f)
  ]
