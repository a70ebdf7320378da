-- ===== src/Serv/Scp/Messages.antt =====
-- The arguments of an scp command and the messages of the protocol: `getDestPath`,
-- `getCommandType`, `sendFileTime`, `isRecursive`, `parseUploadMessage` and
-- `getFileModeAsString`. An index out of range is `none`, which panics.
pub mod Modes
pub mod Printed
use mathlib.Core.Option
use sshserv.Prelude.{
  ℕ, zero, suc, ◌+◌, ◌-◌, ◌*◌, ◌/◌, ◌%◌, ◌^◌, ◌==◌, Bool, true, false, not, ◌&&◌, ◌||◌, Option,
  none, some, List, [], ◌∷◌, ◌++◌, Result, ok, err, if◌then◌else◌, ltb, length, get_elem?, take,
  drop,
}
use sshserv.Prelude.Int.{ℤ, pos}
use sshserv.Prelude.Text.{Text, bytes, has_prefix}
use sshserv.Prelude.Strings.{split, parse_int64}
use sshserv.Prelude.Format.{format_int64}
use sshserv.Utils.{is_string_in_slice}
use sshserv.Dataprovider.Validate.{is_abs}
use sshserv.Serv.Scp.Session.{Command}

abbrev single_quote : ℕ
single_quote = 39

abbrev double_quote : ℕ
double_quote = 34

-- `s[1:len(s)-1]`
abbrev strip : Text → Option Text
strip s = if ltb (length s) 2 then none else some (take (length s - 2) (drop 1 s))

abbrev unquote : Text → Option Text
unquote [] = none
unquote (c ∷ s) = if c == single_quote || c == double_quote then strip (c ∷ s) else some (c ∷ s)

abbrev rooted : Text → Text
rooted s = if is_abs s then s else b'/' ∷ s

-- The argument at a distance from the end, which is 1 for the last one.
abbrev arg_from_end : ℕ → List Text → Option Text
arg_from_end k args = if ltb (length args) k then none else get_elem? args (length args - k)

-- `getDestPath`
unfoldable pub get_dest_path : List Text → Option Text
get_dest_path args = elim (arg_from_end 1 args) [
  | none ↦ none
  | some dest_path ↦ Option.map rooted (unquote dest_path)
]

-- `getCommandType`
unfoldable pub get_command_type : List Text → Option Text
get_command_type args = arg_from_end 2 args

-- `sendFileTime`
abbrev pub send_file_time : List Text → Bool
send_file_time args = is_string_in_slice (bytes "-p") args

-- `isRecursive`
abbrev pub is_recursive : List Text → Bool
is_recursive args = is_string_in_slice (bytes "-r") args

-- `%v` of a slice of strings.
abbrev spaced : List Text → Text
spaced [] = []
spaced (a ∷ []) = a
spaced (a ∷ b ∷ rest) = a ++ (b' ' ∷ spaced (b ∷ rest))

abbrev pub print_args : List Text → Text
print_args args = b'[' ∷ (spaced args ++ bytes "]")

-- The checks of `parseUploadMessage` on the parts of a message.
abbrev pub parse_parts : Command → Text → List Text → Result Text (ℤ × Text)
parse_parts cmd command (mode ∷ size ∷ name ∷ []) = elim (parse_int64 size) [
  | none ↦ err (bytes "Error getting size: " ++ cmd.parse_error_text size)
  | some n ↦
      if ltb 0 (length name)
      then ok (n, name)
      else err (bytes "error getting name from upload message, cannot be empty")
]
parse_parts cmd command _ = err (bytes "Error splitting upload message: " ++ command)

-- `parseUploadMessage`: the size and the name, or the text that is sent.
unfoldable pub parse_upload_message : Command → Text → Result Text (ℤ × Text)
parse_upload_message cmd command =
    if not (has_prefix command (bytes "C")) && not (has_prefix command (bytes "D"))
    then err (
        bytes "unknown or invalid upload message: "
        ++ (command
            ++ (bytes " args: "
                ++ (print_args cmd.args ++ (bytes " user: " ++ cmd.connection.user.username)))))
    else parse_parts cmd command (split b' ' command)

-- Whether a bit of a file mode is set.
abbrev pub bit_set : ℕ → ℕ → Bool
bit_set m i = m / 2 ^ i % 2 == 1

abbrev letters : ℕ → List (ℕ × ℕ) → Text
letters m [] = []
letters m ((i, c) ∷ rest) = let later = letters m rest in if bit_set m i then c ∷ later else later

abbrev flags : ℕ → Text
flags m = letters m (
    (31, b'd')
    ∷ (30, b'a')
    ∷ (29, b'l')
    ∷ (28, b'T')
    ∷ (27, b'L')
    ∷ (26, b'D')
    ∷ (25, b'p')
    ∷ (24, b'S')
    ∷ (23, b'u')
    ∷ (22, b'g')
    ∷ (21, b'c')
    ∷ (20, b't')
    ∷ (19, b'?')
    ∷ [])

abbrev or_dash : Text → Text
or_dash [] = bytes "-"
or_dash (c ∷ s) = c ∷ s

abbrev perm_char : ℕ → ℕ → ℕ → ℕ
perm_char m i c = if bit_set m i then c else b'-'

abbrev pub permissions : ℕ → Text
permissions m =
    perm_char m 8 b'r'
    ∷ perm_char m 7 b'w'
    ∷ perm_char m 6 b'x'
    ∷ perm_char m 5 b'r'
    ∷ perm_char m 4 b'w'
    ∷ perm_char m 3 b'x'
    ∷ perm_char m 2 b'r'
    ∷ perm_char m 1 b'w'
    ∷ perm_char m 0 b'x'
    ∷ []

-- `FileMode.String`
unfoldable pub mode_string : ℕ → Text
mode_string m = or_dash (flags m) ++ permissions m

-- Whether the character at a distance before the last one is no dash.
abbrev pub granted : Text → ℕ → Bool
granted s k = elim (get_elem? s (length s - 1 - k)) [ none ↦ false | some c ↦ not (c == b'-') ]

abbrev pub add_if : Bool → ℕ → ℕ
add_if b n = if b then n else 0

abbrev pub octal : Text → ℕ → ℕ
octal s k = add_if (granted s (k + 2)) 4 + add_if (granted s (k + 1)) 2 + add_if (granted s k) 1

abbrev pub special : ℕ → ℕ
special m = add_if (bit_set m 20) 1 + add_if (bit_set m 23) 2 + add_if (bit_set m 22) 4

-- `getFileModeAsString`
unfoldable pub get_file_mode_as_string : ℕ → Bool → Text
get_file_mode_as_string m is_dir =
    let s = mode_string m in
    if m == 0
    then if is_dir then bytes "0755" else bytes "0644"
    else format_int64 (pos (special m))
      ++ (format_int64 (pos (octal s 6))
          ++ (format_int64 (pos (octal s 3)) ++ format_int64 (pos (octal s 0))))
