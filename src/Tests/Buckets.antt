-- ===== src/Tests/Buckets.antt =====
-- A bucket as a list of entries: a lawful instance of what bolt.go uses of bbolt.
use sshserv.Prelude.{
  ℕ, ◌+◌, ◌≡◌, sym, ap, ◌∙◌, true, Option, none, some, List, [], ◌∷◌, if◌then◌else◌, arith,
}
use mathlib.Core.Option.{some-injective}
use sshserv.Prelude.Text.{Text, text_eq, text_eq_iff}
use sshserv.Prelude.Assoc.{lookup, insert, lookup-insert}
use sshserv.Dataprovider.Bolt.Store.{KeyValue}

pub record Cells : Type 0 where
  pub cells : List (Text × Text)
  pub counter : ℕ

abbrev pub without : Text → List (Text × Text) → List (Text × Text)
without k [] = []
without k ((j, v) ∷ m) = if text_eq j k then without k m else (j, v) ∷ without k m

lookup-without :
    (k j : Text) (m : List (Text × Text))
    → lookup j (without k m) ≡ (if text_eq k j then none else lookup j m)
unfolding lookup
lookup-without k j [] = ground arith
lookup-without k j ((i, w) ∷ m) =
    ground (arith, text_eq_iff k j, text_eq_iff i k, text_eq_iff i j, lookup-without k j m)

module _ (b b' : Cells) (k v j : Text) where
  pub get-put_cells :
      ◌≡◌ {A = Option Cells} (some (record b { cells = insert k v b.cells })) (some b')
      → lookup j b'.cells ≡ (if text_eq k j then some v else lookup j b.cells)
  get-put_cells e = rw (sym (some-injective _ b' e)) (lookup-insert k j v b.cells)

  pub get-delete_cells :
      ◌≡◌ {A = Option Cells} (some (record b { cells = without k b.cells })) (some b')
      → lookup j b'.cells ≡ (if text_eq k j then none else lookup j b.cells)
  get-delete_cells e = rw (sym (some-injective _ b' e)) (lookup-without k j b.cells)

abbrev pub bolt : KeyValue
bolt = record {
  Bucket = Cells;
  get = λ b k. lookup k b.cells;
  put = λ b k v. some (record b { cells = insert k v b.cells });
  delete = λ b k. some (record b { cells = without k b.cells });
  sequence = λ b. b.counter;
  next_sequence = λ b. some (b.counter + 1, record b { counter = b.counter + 1 });
  entries = λ b. b.cells;
  commits = λ _ _. true;
  get-put = λ b b' k v e j. get-put_cells b b' k v j e;
  get-delete = λ b b' k e j. get-delete_cells b b' k [] j e;
  get-next_sequence =
      λ b b' n e j. ap (λ (p : ℕ × Cells). lookup j p.1.cells) (sym (some-injective _ (n, b') e));
  next_sequence_lem = λ b b' n e. (
    ap (λ (p : ℕ × Cells). p.0) (sym (some-injective _ (n, b') e)),
    ap (λ (p : ℕ × Cells). p.1.counter) (sym (some-injective _ (n, b') e))
        ∙ ap (λ (p : ℕ × Cells). p.0) (some-injective _ (n, b') e),
  );
  sequence-put = λ b b' k v e. ap (λ (c : Cells). c.counter) (sym (some-injective _ b' e));
  sequence-delete = λ b b' k e. ap (λ (c : Cells). c.counter) (sym (some-injective _ b' e));
}
