-- ===== src/Dataprovider/Expiry/Ends.antt =====
-- The scan of a bolt store ends.
use mathlib.Core.Option
use sshserv.Prelude.{
  ℕ, zero, suc, ◌+◌, ◌*◌, ◌≤◌, ◌≡◌, refl, ap, ◌∙◌, inl, inr, none, some, List, [], ◌∷◌, ◌++◌, arith,
  Option-cases, List-cases, Option, length, drop, take,
}
use sshserv.Prelude.Int.{ℤ, pos}
use sshserv.Prelude.Text.{Text}
use sshserv.Dataprovider.User.{User}
use sshserv.Dataprovider.Errors.{ProviderError}
use sshserv.Dataprovider.Validate.{Hashing}
use sshserv.Dataprovider.Password.{Checking}
use sshserv.Dataprovider.Bolt.Store.{KeyValue, Json}
use sshserv.Dataprovider.Bolt.Provider.{State, ordered}
use sshserv.Dataprovider.Bolt.Linked.{both}
use sshserv.Dataprovider.Bolt.Listing.{readable_users, get_users-ordered}
use sshserv.Dataprovider.Facade.{Config, Provider, bolt_provider}
use sshserv.Dataprovider.Expiry.{scan_users, scan_pages, delete_all, check_user_expire_once}

drop-all : {A : Type 0} (n : ℕ) (xs : List A) → length xs ≤ n → drop n xs ≡ []
drop-all zero [] h = refl
drop-all zero (x ∷ xs) h = absurd (omega arith)
drop-all (suc n) [] h = refl
drop-all (suc n) (x ∷ xs) h = drop-all n xs (omega arith)

module _ {S : Type 0} (cfg : Config) (p : Provider S) (clock : ℕ → ℤ) (s : S) where
  abbrev page_at : ℕ → List User × Option ProviderError
  page_at i = p.get_users (pos 30) (pos i) [] [] s

  scan_pages-failed :
      (fuel i : ℕ) (e : ProviderError)
      → (page_at i).1 ≡ some e
      → scan_pages cfg p (suc fuel) clock i s ≡ some []
  unfolding scan_pages
  scan_pages-failed fuel i e h = rw (h, scan_pages)

  scan_pages-empty :
      (fuel i : ℕ)
      → (page_at i).1 ≡ none
      → (page_at i).0 ≡ []
      → scan_pages cfg p (suc fuel) clock i s ≡ some []
  unfolding scan_pages
  scan_pages-empty fuel i h k = rw (h, k, scan_pages)

  scan_pages-more :
      (fuel i : ℕ) (u : User) (us : List User)
      → (page_at i).1 ≡ none
      → (page_at i).0 ≡ u ∷ us
      → scan_pages cfg p (suc fuel) clock i s
        ≡ Option.map
            (λ found. (scan_users (clock i) (pos 0) (u ∷ us)).0 ++ found)
            (scan_pages cfg p fuel clock (i + 30) s)
  unfolding scan_pages
  scan_pages-more fuel i u us h k = rw (h, k, scan_pages)

  -- If every page from the `n`th user on is empty, a page of fuel for every thirty users is enough.
  scan_pages_total :
      (n fuel i : ℕ)
      → ((j : ℕ) → n ≤ j → (page_at j).0 ≡ [])
      → n ≤ i + 30 * fuel
      → (found : List User) × (scan_pages cfg p (suc fuel) clock i s ≡ some found)
  scan_pages_total n zero i over h = elim (Option-cases (page_at i).1) [
    | inr (e, failed) ↦ ([], scan_pages-failed 0 i e failed)
    | inl fine ↦ ([], scan_pages-empty 0 i fine (over i (omega arith)))
  ]
  scan_pages_total n (suc fuel) i over h = elim (Option-cases (page_at i).1) [
    | inr (e, failed) ↦ ([], scan_pages-failed (suc fuel) i e failed)
    | inl fine ↦ elim (List-cases (page_at i).0) [
      | inl nil ↦ ([], scan_pages-empty (suc fuel) i fine nil)
      | inr (u, us, full) ↦
          let (found, ended) = scan_pages_total n fuel (i + 30) over (omega arith) in
          let add = λ (rest : List User). (scan_users (clock i) (pos 0) (u ∷ us)).0 ++ rest in
          (add found, scan_pages-more (suc fuel) i u us fine full ∙ ap (Option.map add) ended)
    ]
  ]

bolt_page-nil :
    (kv : KeyValue) (json : Json) (hashing : Hashing) (checking : Checking) (now : ℤ) (cfg : Config)
    (clock : ℕ → ℤ) (users idx : kv.Bucket) (j : ℕ)
    → length (ordered kv json [] users) ≤ j
    → (page_at cfg (bolt_provider kv json hashing checking now) clock (both kv json users idx) j).0
      ≡ []
unfolding bolt_provider
bolt_page-nil kv json hashing checking now cfg clock users idx j h =
    let stored = ordered kv json [] users in
    get_users-ordered kv json 29 (pos j) [] users idx
    ∙ ap (λ (rest : List (Text × Text)). take 30 (readable_users kv json rest))
        (drop-all j stored h)

-- With one page of fuel, and one more for every thirty stored entries, a scan of a bolt store ends.
pub check_user_expire_once_total :
    (kv : KeyValue) (json : Json) (hashing : Hashing) (checking : Checking) (now : ℤ) (cfg : Config)
    (clock : ℕ → ℤ) (users idx : kv.Bucket) (fuel : ℕ)
    → length (ordered kv json [] users) ≤ 30 * fuel
    → (db' : State kv json) × (check_user_expire_once cfg
          (bolt_provider kv json hashing checking now)
          (suc fuel)
          clock
          (both kv json users idx)
        ≡ some db')
unfolding check_user_expire_once
check_user_expire_once_total kv json hashing checking now cfg clock users idx fuel h =
    let provider = bolt_provider kv json hashing checking now in
    let stored = ordered kv json [] users in
    let (found, ended) =
      scan_pages_total cfg provider clock (both kv json users idx) (length stored) fuel 0
        (bolt_page-nil kv json hashing checking now cfg clock users idx) (omega arith) in
    (delete_all cfg provider found (both kv json users idx), ap (Option.map _) ended)
