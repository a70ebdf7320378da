-- ===== src/Api/Users/Listed.antt =====
-- What a client of the REST API can list.
use mathlib.Core.Path.{subst}
use sshserv.Prelude.{
  ℕ, zero, suc, ◌≤◌, ◌≡◌, refl, ap, inl, inr, true, ◌||◌, Option, none, some, List, [], ◌∷◌, Result,
  ok, err, ◌>>=◌, >>=-eq-ok, ok-injective, length, length-take, drop, ltb, All, arith, Bool-cases,
  Option-cases, Result-cases,
}
use sshserv.Prelude.Int.{ℤ, pos, negsuc, pos_part, leb_ℤ, eqb_ℤ, ◌≤ℤ◌}
use sshserv.Prelude.Text.{Text, bytes, text_eq}
use sshserv.Prelude.Strings.{parse_int64}
use sshserv.Dataprovider.User.{User}
use sshserv.Dataprovider.Errors.{ProviderError}
use sshserv.Dataprovider.Validate.{Hashing}
use sshserv.Dataprovider.Password.{Checking}
use sshserv.Dataprovider.Facade.{Config, bolt_provider}
use sshserv.Dataprovider.Bolt.Store.{KeyValue, Json, get_buckets}
use sshserv.Dataprovider.Bolt.Provider as Bolt
use sshserv.Dataprovider.Bolt.Listing.{readable_users, list_loop-page, positive}
use sshserv.Dataprovider.Bolt.Listing.Credentials.{HasNoCredentials, get_users-HasNoCredentials}
use sshserv.Api.{Response, failed, message, not_decoded, one_user, many_users, Query}
use sshserv.Api.Users.{
  at_most_500, number_or, name_of, limit_of, order_of, either, listed, get_users,
}

module _ (kv : KeyValue) (json : Json) where
  filtered_few :
      (offset : ℤ) (name : Text) (db : Bolt.State kv json)
      → length (Bolt.get_user_filtered kv json offset name db) ≤ 1
  unfolding Bolt.get_user_filtered
  filtered_few offset name db = elim (Bool-cases (eqb_ℤ offset (pos 0))) [
    | inr n ↦ rw (Bolt.get_user_filtered, n) (omega arith)
    | inl y ↦ elim (Result-cases (Bolt.user_exists kv json name db)) [
      | inl (e, f) ↦ rw (Bolt.get_user_filtered, y, f) (omega arith)
      | inr (u, f) ↦ rw (Bolt.get_user_filtered, y, f) (omega arith)
    ]
  ]

  page_few :
      (n : ℕ) (offset : ℤ) (stored : List (Text × Text))
      → length (Bolt.list_loop kv json (pos (suc n)) offset stored 0 [] none).0 ≤ suc n
  page_few n offset stored =
      let paged = ap length (list_loop-page kv json (pos (suc n)) offset n stored refl) in
      let few = length-take (suc n) (readable_users kv json (drop (pos_part offset) stored)) in
      omega (arith, paged, few)

  -- A limit that is not above 500 is kept, a filter on a name gives one user at most.
  listed_few :
      (limit offset : ℤ) (order name : Text) (db : Bolt.State kv json)
      → limit ≤ℤ pos 500
      → length (Bolt.get_users kv json limit offset order name db).0 ≤ 500
  unfolding Bolt.get_users
  listed_few limit offset order (c ∷ name) db l =
      let filtered : ltb 0 (suc (length name)) ≡ true = ground arith in
      rw filtered (omega (arith, filtered_few offset (c ∷ name) db))
  listed_few (negsuc m) offset order [] db l =
      let negative : leb_ℤ (negsuc m) (pos 0) ≡ true = ground arith in rw negative (omega arith)
  listed_few (pos zero) offset order [] db l = omega arith
  listed_few (pos (suc n)) offset order [] db l = elim (Result-cases (get_buckets db)) [
    | inl (e, h) ↦ rw (h, Bolt.get_users, positive kv json n) (omega arith)
    | inr ((users, idx), h) ↦
        rw (h, Bolt.get_users, positive kv json n)
          (omega (arith, l, page_few n offset (Bolt.ordered kv json order users)))
  ]

  abbrev pub IsListing : Response → Type 0
  IsListing (failed e status) = Unit
  IsListing (message text status) = Unit
  IsListing not_decoded = Unit
  IsListing (one_user u) = Unit
  IsListing (many_users users) = (length users ≤ 500) × All (HasNoCredentials kv json) users

  listed-IsListing :
      (r : List User × Option ProviderError)
      → length r.0 ≤ 500
      → All (HasNoCredentials kv json) r.0
      → IsListing (listed r)
  listed-IsListing (users, none) few bare = (few, bare)
  listed-IsListing (users, some e) few bare = tt

  -- A step of `getUsers` whose error is no listing.
  abbrev Fails : {A : Type 0} → Result Response A → Type 0
  Fails (ok a) = Unit
  Fails (err r) = IsListing r

  step-IsListing :
      {A : Type 0} (m : Result Response A) (next : A → Result Response Response)
      → Fails m
      → ((a : A) → m ≡ ok a → IsListing (either (next a)))
      → IsListing (either (m >>= next))
  step-IsListing (ok a) next f g = g a refl
  step-IsListing (err r) next f g = f

  number-Fails : (d : ℤ) (text : Text) (t : Option Text) → Fails (number_or d text t)
  number-Fails d text none = tt
  number-Fails d text (some t) = elim (Option-cases (parse_int64 t)) [
    | inl e ↦ rw (e) tt
    | inr (n, e) ↦ rw (e) tt
  ]

  limit-Fails : (t : Option Text) → Fails (limit_of t)
  limit-Fails none = tt
  limit-Fails (some t) = elim (Option-cases (parse_int64 t)) [
    | inl e ↦ rw (e) tt
    | inr (n, e) ↦ rw (e) tt
  ]

  order-Fails : (t : Option Text) → Fails (order_of t)
  order-Fails none = tt
  order-Fails (some t) = elim (Bool-cases (text_eq t (bytes "ASC") || text_eq t (bytes "DESC"))) [
    | inl y ↦ rw (y) tt
    | inr n ↦ rw (n) tt
  ]

  at_most_500_lem : (n : ℤ) → at_most_500 n ≤ℤ pos 500
  at_most_500_lem n = ground arith

  limit-bound : (t : Option Text) (l : ℤ) → limit_of t ≡ ok l → l ≤ℤ pos 500
  limit-bound t l h =
      let (n, _, cut) = >>=-eq-ok (number_or (pos 100) (bytes "Invalid limit") t) _ h in
      subst (λ (k : ℤ). k ≤ℤ pos 500) (ok-injective cut) (at_most_500_lem n)

  -- Whatever a client of the API asks for, `getUsers` answers with an error or with 500 users at
  -- most, none of which has a password or a key in it.
  pub get_users-IsListing :
      (hashing : Hashing) (checking : Checking) (now : ℤ) (cfg : Config) (q : Query)
      (db : Bolt.State kv json)
      → IsListing (get_users cfg (bolt_provider kv json hashing checking now) q db)
  unfolding get_users bolt_provider
  get_users-IsListing hashing checking now cfg q db =
      step-IsListing (limit_of q.limit) _ (limit-Fails q.limit) (λ limit l.
        step-IsListing (number_or (pos 0) (bytes "Invalid offset") q.offset) _
          (number-Fails (pos 0) (bytes "Invalid offset") q.offset)
          (λ offset _. step-IsListing (order_of q.order) _ (order-Fails q.order) (λ order _.
            listed-IsListing (Bolt.get_users kv json limit offset order (name_of q.username) db)
              (listed_few limit offset order (name_of q.username) db (limit-bound q.limit limit l))
              (get_users-HasNoCredentials kv json limit offset order (name_of q.username) db))))
