-- ===== src/Dataprovider/Bolt/Listing/Credentials.antt =====
-- `getUsers` never shows a password or a key.
use sshserv.Prelude.{
  ℕ, zero, suc, ◌≡◌, refl, inl, inr, true, Option, none, some, List, [], ◌∷◌, arith, Bool-cases,
  ltb, length, take, drop, All, Result-cases,
}
use sshserv.Prelude.Int.{ℤ, pos, negsuc, pos_part, leb_ℤ, eqb_ℤ}
use sshserv.Prelude.Text.{Text}
use sshserv.Dataprovider.User.{User}
use sshserv.Dataprovider.Bolt.Store.{KeyValue, Json, get_buckets}
use sshserv.Dataprovider.Bolt.Provider.{
  State, get_user_no_credentials, ordered, get_users, get_user_filtered, user_exists,
}
use sshserv.Dataprovider.Bolt.Listing.{keep_decoded, readable_users, list_loop-page, positive}

module _ (kv : KeyValue) (json : Json) where
  open json use {unmarshal}

  -- A user as the listing shows it.
  abbrev pub HasNoCredentials : User → Type 0
  HasNoCredentials u = (u.password ≡ []) × (u.public_keys ≡ [])

  keep_decoded-All :
      (o : Option User) (us : List User)
      → All HasNoCredentials us
      → All HasNoCredentials (keep_decoded kv json o us)
  unfolding get_user_no_credentials
  keep_decoded-All none us h = h
  keep_decoded-All (some u) us h = ((refl, refl), h)

  readable_users-All :
      (stored : List (Text × Text)) → All HasNoCredentials (readable_users kv json stored)
  readable_users-All [] = tt
  readable_users-All ((k, v) ∷ rest) =
      keep_decoded-All (unmarshal v) (readable_users kv json rest) (readable_users-All rest)

  All-take : (n : ℕ) (us : List User) → All HasNoCredentials us → All HasNoCredentials (take n us)
  All-take zero us h = tt
  All-take (suc n) [] h = tt
  All-take (suc n) (u ∷ us) h = (h.0, All-take n us h.1)

  get_user_filtered-All :
      (offset : ℤ) (username : Text) (db : State kv json)
      → All HasNoCredentials (get_user_filtered kv json offset username db)
  unfolding get_user_filtered get_user_no_credentials
  get_user_filtered-All offset username db = elim (Bool-cases (eqb_ℤ offset (pos 0))) [
    | inr n ↦ rw n tt
    | inl y ↦ elim (Result-cases (user_exists kv json username db)) [
      | inl (e, h) ↦ rw (y, h, get_user_filtered) tt
      | inr (u, h) ↦ rw (y, h, get_user_filtered) ((refl, refl), tt)
    ]
  ]

  negative : (n : ℕ) → leb_ℤ (negsuc n) (pos 0) ≡ true
  negative n = ground arith

  -- Whatever is asked for, and whatever is stored, no password and no key is listed.
  pub get_users-HasNoCredentials :
      (limit offset : ℤ) (order username : Text) (db : State kv json)
      → All HasNoCredentials (get_users kv json limit offset order username db).0
  unfolding get_users
  get_users-HasNoCredentials limit offset order (c ∷ name) db =
      let filtered : ltb 0 (suc (length name)) ≡ true = ground arith in
      rw filtered (get_user_filtered-All offset (c ∷ name) db)
  get_users-HasNoCredentials (negsuc m) offset order [] db = rw (negative m) tt
  get_users-HasNoCredentials (pos zero) offset order [] db = tt
  get_users-HasNoCredentials (pos (suc n)) offset order [] db =
      elim (Result-cases (get_buckets db)) [
        | inl (e, h) ↦ rw (h, get_users, positive kv json n) tt
        | inr ((users, idx), h) ↦
            let stored = ordered kv json order users in
            let listed = list_loop-page kv json (pos (suc n)) offset n stored refl in
            rw (positive kv json n, h, get_users, listed)
              (All-take (suc n) (readable_users kv json (drop (pos_part offset) stored))
                (readable_users-All (drop (pos_part offset) stored)))
      ]
