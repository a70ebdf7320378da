-- ===== src/Utils.antt =====
-- utils/utils.go: the searches in a slice of strings.
use sshserv.Prelude.{Bool, true, false, List, [], ◌∷◌, if◌then◌else◌}
use sshserv.Prelude.Text.{Text, text_eq, has_prefix}

-- `IsStringInSlice`
unfoldable pub is_string_in_slice : Text → List Text → Bool
is_string_in_slice obj [] = false
is_string_in_slice obj (v ∷ list) = if text_eq v obj then true else is_string_in_slice obj list

-- `IsStringPrefixInSlice`
unfoldable pub is_string_prefix_in_slice : Text → List Text → Bool
is_string_prefix_in_slice obj [] = false
is_string_prefix_in_slice obj (v ∷ list) =
    if has_prefix obj v then true else is_string_prefix_in_slice obj list
