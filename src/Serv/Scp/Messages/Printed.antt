-- ===== src/Serv/Scp/Messages/Printed.antt =====
-- What `parseUploadMessage` reads of a message.
use sshserv.Prelude.{
  ℕ, ◌≡◌, refl, ap, ◌∙◌, ◌<◌, ◌^◌, ◌==◌, true, false, ◌||◌, List, [], ◌∷◌, ◌++◌, ok, err, ltb,
  length, All, arith, Bool-cases, inl, inr,
}
use sshserv.Prelude.Int.{pos}
use sshserv.Prelude.Text.{Text, bytes, has_prefix}
use sshserv.Prelude.Strings.{is_digit, split}
use sshserv.Prelude.Format.{format_int64, format_digits}
use sshserv.Prelude.Format.Parse.{parse_int64-format_int64, All_digits}
use sshserv.Serv.Scp.Session.{Command}
use sshserv.Serv.Scp.Messages.{parse_parts, parse_upload_message}

-- A text without a space.
abbrev pub Solid : Text → Type 0
Solid s = All (λ (c : ℕ). (c == b' ') ≡ false) s

split_last : (s : Text) → Solid s → split b' ' s ≡ s ∷ []
unfolding split
split_last [] h = refl
split_last (c ∷ s) (h, hs) = rw (h, split_last s hs) refl

split_first : (s t : Text) → Solid s → split b' ' (s ++ (b' ' ∷ t)) ≡ s ∷ split b' ' t
unfolding split
split_first [] t h = refl
split_first (c ∷ s) t (h, hs) = rw (h, split_first s t hs) refl

-- There is always a part.
split-parts : (s : Text) → (p : Text) × (ps : List Text) × (split b' ' s ≡ p ∷ ps)
unfolding split
split-parts [] = ([], [], refl)
split-parts (c ∷ s) = elim (Bool-cases (c == b' ')) [
  | inl y ↦ ([], split b' ' s, rw (y) refl)
  | inr n ↦ let (p, ps, e) = split-parts s in (c ∷ p, ps, rw (n, e) refl)
]

digits-Solid : (s : Text) → All (λ (c : ℕ). is_digit c ≡ true) s → Solid s
digits-Solid [] h = tt
digits-Solid (c ∷ s) (h, hs) = (ground arith, digits-Solid s hs)

format_int64-Solid : (n : ℕ) → Solid (format_int64 (pos n))
unfolding format_int64
format_int64-Solid n = digits-Solid (format_digits 20 n) (All_digits 20 n)

-- `fmt.Sprintf("%v %v %v", …)` of a kind and mode, a size and a name.
abbrev pub upload_message_text : Text → ℕ → Text → Text
upload_message_text mode size name = mode ++ (b' ' ∷ (format_int64 (pos size) ++ (b' ' ∷ name)))

first_parts :
    (mode : Text) (size : ℕ) (name : Text)
    → Solid mode
    → split b' ' (upload_message_text mode size name)
      ≡ mode ∷ format_int64 (pos size) ∷ split b' ' name
first_parts mode size name m =
    split_first mode (format_int64 (pos size) ++ (b' ' ∷ name)) m
    ∙ ap (λ (l : List Text). mode ∷ l)
        (split_first (format_int64 (pos size)) name (format_int64-Solid size))

parts :
    (mode : Text) (size : ℕ) (name : Text)
    → Solid mode
    → Solid name
    → split b' ' (upload_message_text mode size name) ≡ mode ∷ format_int64 (pos size) ∷ name ∷ []
parts mode size name m n =
    first_parts mode size name m
    ∙ ap (λ (l : List Text). mode ∷ format_int64 (pos size) ∷ l) (split_last name n)

-- A message that starts with C or D is read back as its size and its name, if neither its mode nor
-- its name has a space, the name is not empty and the size is below 2^63.
pub parse-upload_message_text :
    (cmd : Command) (kind : ℕ) (mode : Text) (size : ℕ) (name : Text)
    → (kind == b'C' || kind == b'D') ≡ true
    → Solid mode
    → Solid name
    → ltb 0 (length name) ≡ true
    → size < 2 ^ 63
    → parse_upload_message cmd (upload_message_text (kind ∷ mode) size name) ≡ ok (pos size, name)
unfolding parse_upload_message has_prefix
parse-upload_message_text cmd kind mode size name k m n nonempty small =
    let solid : Solid (kind ∷ mode) = (ground arith, m) in
    let split_up = parts (kind ∷ mode) size name solid n in
    let read : parse_parts cmd (upload_message_text (kind ∷ mode) size name)
          (split b' ' (upload_message_text (kind ∷ mode) size name))
        ≡ ok (pos size, name) =
      ap (parse_parts cmd (upload_message_text (kind ∷ mode) size name)) split_up
      ∙ (rw (parse_parts, parse_int64-format_int64 size small, nonempty) refl) in
    ground (arith, read)

-- A message whose name has a space is refused.
pub spaced_name_refused :
    (cmd : Command) (mode : Text) (size : ℕ) (name rest : Text)
    → Solid mode
    → Solid name
    → parse_upload_message cmd (upload_message_text (b'C' ∷ mode) size (name ++ (b' ' ∷ rest)))
      ≡ err (
          bytes "Error splitting upload message: "
          ++ upload_message_text (b'C' ∷ mode) size (name ++ (b' ' ∷ rest)))
unfolding parse_upload_message has_prefix
spaced_name_refused cmd mode size name rest m n =
    let (p, ps, e) = split-parts rest in
    let text = upload_message_text (b'C' ∷ mode) size (name ++ (b' ' ∷ rest)) in
    let split_up : split b' ' text ≡ (b'C' ∷ mode) ∷ format_int64 (pos size) ∷ name ∷ p ∷ ps =
      first_parts (b'C' ∷ mode) size (name ++ (b' ' ∷ rest)) (refl, m)
      ∙ ap (λ (l : List Text). (b'C' ∷ mode) ∷ format_int64 (pos size) ∷ l)
          (split_first name rest n ∙ ap (λ (l : List Text). name ∷ l) e) in
    ap (parse_parts cmd text) split_up
