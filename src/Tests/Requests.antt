-- ===== src/Tests/Requests.antt =====
-- The witnesses on the requests of SFTP, on paths and on logins.
use sshserv.Serv.Paths.{is_sub_dir}
use sshserv.Prelude.{
  ℕ, ◌≡◌, ◌≢◌, refl, none, some, err, ok, true, false, [], ◌∷◌, ◌++◌, List, arith, length, inl, inr,
  Bool-cases,
}
use sshserv.Prelude.Int.{pos, neg64}
use sshserv.Prelude.Text.{Text, bytes, text_eq, text_eq_iff, has_prefix}
use sshserv.Dataprovider.User.{User, has_perm, perm_download, perm_upload, perm_delete}
use sshserv.Dataprovider.Validate.{
  argon_pwd_prefix, validate_user, is_abs, check_permissions, stored_password, check_keys,
}
use sshserv.Dataprovider.Facade.{bolt_provider, get_used_quota, update_user_quota}
use sshserv.Dataprovider.Bolt.Provider.{State, add_user, update_quota, user_exists}
use sshserv.Dataprovider.Bolt.Provider as Bolt
use sshserv.Utils.{is_string_in_slice, is_string_prefix_in_slice}
use sshserv.Prelude.Strings.{index_byte}
use sshserv.Prelude.Assoc.{lookup, insert}
use sshserv.Dataprovider.Password.{check_user_and_pass}
use sshserv.Dataprovider.Bolt.Abstract.{add, Does, users_of, run, run-Does}
use sshserv.Dataprovider.Errors.{ProviderError}
use sshserv.Serv.Registry.{transfer_download, transfer_upload, get_active_sessions}
use sshserv.Serv.Os.{FileInfo}
use sshserv.Serv.Env.{note_activity, standard}
use sshserv.Serv.Paths.{endless, build_path}
use sshserv.Serv.Paths.Contained.{IsContained, build_path-IsContained, build_path_sibling}
use sshserv.Serv.Paths.Ends.{DirShrinks, build_path_ends}
use sshserv.Serv.Sftp.Open.{fileread, filewrite}
use sshserv.Serv.Sftp.Open.Checked.{SpaceFor, Serves, fileread_checked, filewrite_checked}
use sshserv.Serv.Sftp.Commands.{filecmd, handle_rmdir, handle_remove}
use sshserv.Serv.Sftp.Commands.Permitted.{
  to_remove, RefusedIn, ListsWith, filecmd_refused, filelist_checked,
}
use sshserv.Serv.Sftp.Commands.Removal.{
  GivesBack, is_ok, regular_paths, total_size, handle_rmdir-GivesBack, handle_remove-GivesBack,
}
use sshserv.Serv.Sftp.Listing.{filelist}
use sshserv.Serv.Transfer.Close.{close}
use sshserv.Serv.Transfer.Close.Accounts.{upload_then_remove}
use sshserv.Serv.Login.{validate_password_credentials, login_user, create_home}
use sshserv.Serv.Login.Admitted.{IsLogin, validate_password_credentials-IsLogin}
use sshserv.Tests.Buckets.{bolt}
use sshserv.Tests.Codec.{codec, user_code}
use sshserv.Tests.Data.{hashing, checking, alice, bob, with_both}
use sshserv.Tests.Store.{with_both-IsConsistent, with_both-HasRoom, any-IsEncodable}
use sshserv.Tests.Machine.{
  file_info, dir_info, machine, tracking, no_actions, server_env, client_of, running, request_for,
}

abbrev clock : ℕ → ℕ
clock n = 100

fileread_checked_example :
    Serves server_env
      (client_of bob)
      clock
      perm_download
      (λ p. Unit)
      transfer_download
      (request_for (bytes "Get") (bytes "f"))
      running
      (fileread server_env (client_of bob) clock (request_for (bytes "Get") (bytes "f")) running)
fileread_checked_example =
    fileread_checked server_env (client_of bob) clock (request_for (bytes "Get") (bytes "f"))
      running

filewrite_checked_example :
    Serves server_env
      (client_of bob)
      clock
      perm_upload
      (SpaceFor server_env (client_of bob) clock running)
      transfer_upload
      (request_for (bytes "Put") (bytes "new"))
      running
      (filewrite server_env (client_of bob) clock (request_for (bytes "Put") (bytes "new")) running)
filewrite_checked_example =
    filewrite_checked server_env (client_of bob) clock (request_for (bytes "Put") (bytes "new"))
      running

filecmd_refused_example :
    RefusedIn server_env
      (client_of alice)
      (note_activity server_env (bytes "c1") 100 running)
      (filecmd server_env (client_of alice) 100 (request_for (bytes "Remove") (bytes "f")) running)
unfolding has_perm is_string_in_slice text_eq
filecmd_refused_example =
    filecmd_refused server_env (client_of alice) 100 (request_for (bytes "Remove") (bytes "f"))
      perm_delete running (to_remove refl refl) refl

filelist_checked_example :
    ListsWith server_env
      (client_of alice)
      100
      (request_for (bytes "List") (bytes "d"))
      running
      (filelist server_env (client_of alice) 100 (request_for (bytes "List") (bytes "d")) running)
filelist_checked_example =
    filelist_checked server_env (client_of alice) 100 (request_for (bytes "List") (bytes "d"))
      running

abbrev below_d : List (Text × FileInfo)
below_d = (bytes "/b/d", dir_info) ∷ (bytes "/b/d/f", file_info) ∷ []

handle_rmdir-GivesBack_example :
    GivesBack server_env
      (client_of bob)
      (pos (length (regular_paths below_d)))
      (pos (total_size below_d))
      running
      (handle_rmdir server_env (client_of bob) (bytes "/b/d") running)
unfolding text_eq
handle_rmdir-GivesBack_example =
    handle_rmdir-GivesBack server_env (client_of bob) (bytes "/b/d") dir_info below_d none running
      refl refl refl ((refl, (refl, tt)), omega arith, omega arith)

handle_remove-GivesBack_example :
    (false ≡ false
      → GivesBack server_env
          (client_of bob)
          (pos 1)
          (pos 7)
          running
          (handle_remove server_env (client_of bob) (bytes "/b/f") running))
    × (false ≡ true
        → (handle_remove server_env (client_of bob) (bytes "/b/f") running).1.store ≡ running.store)
unfolding text_eq
handle_remove-GivesBack_example =
    handle_remove-GivesBack server_env (client_of bob) (bytes "/b/f") file_info running refl

-- The store after the upload, and after the removal.
abbrev after_upload : State bolt codec
after_upload =
    (update_user_quota tracking (bolt_provider bolt codec hashing checking (pos 9)) bob (pos 1)
      (pos 7) false with_both).1

abbrev after_removal : State bolt codec
after_removal =
    (update_user_quota tracking (bolt_provider bolt codec hashing checking (pos 9)) bob
      (neg64 (pos 1)) (neg64 (pos 7)) false after_upload).1

upload_charged :
    update_user_quota tracking
      (bolt_provider bolt codec hashing checking (pos 9))
      bob
      (pos 1)
      (pos 7)
      false
      with_both
    ≡ (none, after_upload)
unfolding update_user_quota bolt_provider update_quota add_user validate_user is_abs has_prefix
    check_permissions is_string_in_slice text_eq index_byte stored_password check_keys
    is_string_prefix_in_slice lookup insert
upload_charged = refl

removal_charged :
    update_user_quota tracking
      (bolt_provider bolt codec hashing checking (pos 9))
      bob
      (neg64 (pos 1))
      (neg64 (pos 7))
      false
      after_upload
    ≡ (none, after_removal)
unfolding update_user_quota bolt_provider update_quota add_user validate_user is_abs has_prefix
    check_permissions is_string_in_slice text_eq index_byte stored_password check_keys
    is_string_prefix_in_slice lookup insert
removal_charged = refl

unused :
    get_used_quota tracking
      (bolt_provider bolt codec hashing checking (pos 9))
      (bytes "bob")
      with_both
    ≡ ok (pos 0, pos 0)
unfolding get_used_quota Bolt.get_used_quota bolt_provider add_user validate_user is_abs has_prefix
    check_permissions is_string_in_slice text_eq index_byte stored_password check_keys
    is_string_prefix_in_slice lookup insert
unused = refl

removal_done :
    is_ok (handle_remove server_env (client_of bob) (bytes "/b/f") (close server_env 1 running).1).0
    ≡ true
unfolding handle_remove has_perm is_string_in_slice text_eq
removal_done = refl

upload_then_remove_example :
    get_used_quota tracking
      (bolt_provider bolt codec hashing checking (pos 9))
      (bytes "bob")
      (handle_remove server_env
        (client_of bob)
        (bytes "/b/f")
        (close server_env 1 running).1).1.store
    ≡ ok (pos 0, pos 0)
unfolding text_eq
upload_then_remove_example =
    upload_then_remove bolt codec hashing checking (pos 9) tracking machine standard no_actions
      (client_of bob) 1 (bytes "/b/f") file_info (pos 0) (pos 0) running after_upload after_removal
      refl refl refl refl refl refl with_both-IsConsistent (omega arith, omega arith)
      (omega arith, omega arith) (omega arith, omega arith) unused upload_charged removal_charged
      removal_done

build_path-IsContained_example :
    (bytes "/b/f" ≡ bytes "/b/f") × IsContained server_env bob tt (bytes "/b/f")
unfolding build_path text_eq is_sub_dir has_prefix
build_path-IsContained_example =
    build_path-IsContained server_env bob tt (bytes "f") (bytes "/b/f") refl

build_path_sibling_example : build_path server_env bob (bytes "link") tt ≡ ok (bytes "/b/link")
unfolding text_eq
build_path_sibling_example =
    build_path_sibling server_env bob tt (bytes "link") (bytes "/b") (bytes "c") refl refl

machine-DirShrinks : DirShrinks server_env bob tt
unfolding is_abs has_prefix
machine-DirShrinks d abs gone = elim (Bool-cases (text_eq d (bytes "/b/new"))) [
  | inl y ↦ rw ((text_eq_iff d (bytes "/b/new")).0 y) (refl, omega arith)
  | inr n ↦ elim (Bool-cases (text_eq d (bytes "/b/f"))) [
    | inl f ↦ cc (rw (n, f) at gone)
    | inr f ↦ cc (rw (n, f) at gone)
  ]
]

build_path_ends_example : build_path server_env bob (bytes "new") tt ≢ err endless
unfolding is_abs has_prefix
build_path_ends_example = build_path_ends server_env bob tt machine-DirShrinks (bytes "new") refl

abbrev stored_alice : User
stored_alice = record alice { id = pos 1; password = argon_pwd_prefix ++ bytes "pw" }

validate_password_credentials-IsLogin_example :
    IsLogin bolt codec hashing checking
      (pos 9)
      tracking
      machine
      standard
      no_actions
      (bytes "alice")
      (bytes "pw")
      (user_code stored_alice)
      running
      running
unfolding validate_password_credentials login_user create_home get_active_sessions bolt_provider
    Bolt.validate_user_and_pass user_exists check_user_and_pass add_user validate_user is_abs
    has_prefix check_permissions is_string_in_slice text_eq index_byte stored_password check_keys
    is_string_prefix_in_slice lookup insert
validate_password_credentials-IsLogin_example =
    validate_password_credentials-IsLogin bolt codec hashing checking (pos 9) tracking machine
      standard no_actions (bytes "alice") (bytes "pw") (user_code stored_alice) running running refl

-- A user that is not stored yet.
abbrev carol : User
carol = record bob { username = bytes "carol" }

run-Does_example :
    (run bolt codec hashing (add carol) with_both
        ≡ (none, (run bolt codec hashing (add carol) with_both).1)
      → Does hashing
          (add carol)
          (users_of bolt codec hashing with_both)
          (users_of bolt codec hashing (run bolt codec hashing (add carol) with_both).1))
    × ((e : ProviderError)
        → run bolt codec hashing (add carol) with_both
          ≡ (some e, (run bolt codec hashing (add carol) with_both).1)
        → (run bolt codec hashing (add carol) with_both).1 ≡ with_both)
run-Does_example =
    run-Does bolt codec hashing (add carol) with_both
      (run bolt codec hashing (add carol) with_both).1 with_both-IsConsistent with_both-HasRoom
      (λ u v _ _. any-IsEncodable v)
