-- ===== src/Tests/Copies.antt =====
-- The witnesses on copies by scp.
use sshserv.Dataprovider.User.{has_perm}
use sshserv.Prelude.Text.{text_eq}
use sshserv.Utils.{is_string_in_slice}
use sshserv.Prelude.{ℕ, ◌≡◌, refl, ok, false, ◌++◌, ◌/◌, ◌%◌, arith}
use sshserv.Prelude.Int.{pos}
use sshserv.Prelude.Text.{bytes}
use sshserv.Prelude.Format.{format_int64}
use sshserv.Serv.Scp.Messages.{parse_upload_message, get_file_mode_as_string}
use sshserv.Serv.Scp.Messages.Modes.{special_digit, get_file_mode_digits}
use sshserv.Serv.Scp.Messages.Printed.{upload_message_text, parse-upload_message_text}
use sshserv.Serv.Scp.Protocol.Reading.{Ends}
use sshserv.Serv.Scp.Upload.{handle_recursive_upload}
use sshserv.Serv.Scp.Upload.Ending.{handle_recursive_upload-Ends}
use sshserv.Serv.Scp.Upload.Checked.{IsSpared, handle_recursive_upload-IsSpared}
use sshserv.Tests.Data.{alice, bob}
use sshserv.Tests.Machine.{server_env, running, script, script-Drains, upload_command, copying}

abbrev clock : ℕ → ℕ
clock n = 100

get_file_mode_digits_example :
    get_file_mode_as_string 420 false
    ≡ format_int64 (pos (special_digit 420))
      ++ (format_int64 (pos (420 / 64 % 8))
          ++ (format_int64 (pos (420 / 8 % 8)) ++ format_int64 (pos (420 % 8))))
get_file_mode_digits_example = get_file_mode_digits 420 false (λ e. omega arith)

parse-upload_message_text_example :
    parse_upload_message (upload_command bob) (upload_message_text (bytes "C0644") 7 (bytes "f"))
    ≡ ok (pos 7, bytes "f")
parse-upload_message_text_example =
    parse-upload_message_text (upload_command bob) b'C' (bytes "0644") 7 (bytes "f") refl
      (refl, (refl, (refl, (refl, tt)))) (refl, tt) refl (omega arith)

handle_recursive_upload-Ends_example :
    Ends script-Drains
      (λ u k. Unit {0})
      (handle_recursive_upload server_env script (upload_command bob) clock 100 copying)
handle_recursive_upload-Ends_example =
    handle_recursive_upload-Ends server_env script (upload_command bob) clock 100 script-Drains
      copying (omega arith)

handle_recursive_upload-IsSpared_example :
    IsSpared server_env running
      (handle_recursive_upload server_env script (upload_command alice) clock 100 copying).1.server
unfolding has_perm is_string_in_slice text_eq
handle_recursive_upload-IsSpared_example =
    handle_recursive_upload-IsSpared server_env script (upload_command alice) clock 100 copying refl
      refl
