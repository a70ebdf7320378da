-- ===== src/Dataprovider/Bolt/Listing.antt =====
-- `getUsers` against its specification: skip `offset` entries, then the first `limit` users.
pub mod Credentials
use sshserv.Prelude.{
  ℕ, zero, suc, ◌+◌, ◌-◌, ◌≤◌, ◌<◌, ◌≡◌, ◌≢◌, refl, sym, ap, ◌∙◌, ◌⊎◌, inl, inr, Bool, true, false,
  Option, none, some, List, [], ◌∷◌, ◌++◌, map, arith, Bool-cases, Option-cases, ltb, if◌then◌else◌,
  length, length-append, take, drop, All, Result-cases, ok, err,
}
use mathlib.Core.List.{append_assoc, append-nil, reverse}
use sshserv.Prelude.Int.{ℤ, pos, negsuc, pos_part, leb_ℤ, eqb_ℤ, ◌≤ℤ◌, ◌<ℤ◌}
use sshserv.Prelude.Text.{Text, bytes, text_eq, text_eq_iff}
use sshserv.Dataprovider.User.{User}
use sshserv.Dataprovider.Errors.{ProviderError, library_error}
use sshserv.Dataprovider.Bolt.Store.{KeyValue, Json, Db, get_buckets}
use sshserv.Dataprovider.Bolt.Provider.{
  State, get_user_no_credentials, visit, list_loop, ordered, get_users, get_user_filtered,
  user_exists,
}
use sshserv.Dataprovider.Bolt.Linked.{both}

module _ (kv : KeyValue) (json : Json) where
  open json use {unmarshal}

  abbrev pub keep_decoded : Option User → List User → List User
  keep_decoded none us = us
  keep_decoded (some u) us = record u { password = []; public_keys = [] } ∷ us

  -- The users that can be read, in order, without their credentials.
  abbrev pub readable_users : List (Text × Text) → List User
  readable_users [] = []
  readable_users ((k, v) ∷ rest) = keep_decoded (unmarshal v) (readable_users rest)

  module _ (limit offset : ℤ) (k v : Text) (rest : List (Text × Text)) (it : ℕ) (us : List User)
      (e : Option ProviderError) where
    skip_step :
        leb_ℤ (pos (suc it)) offset ≡ true
        → list_loop kv json limit offset ((k, v) ∷ rest) it us e
          ≡ list_loop kv json limit offset rest (suc it) us e
    unfolding list_loop
    skip_step h = rw h

    stop_step :
        leb_ℤ (pos (suc it)) offset ≡ false
        → leb_ℤ limit (pos (length (visit kv json v us).0)) ≡ true
        → list_loop kv json limit offset ((k, v) ∷ rest) it us e ≡ visit kv json v us
    unfolding list_loop
    stop_step h l = rw (h, l)

    more_step :
        leb_ℤ (pos (suc it)) offset ≡ false
        → leb_ℤ limit (pos (length (visit kv json v us).0)) ≡ false
        → list_loop kv json limit offset ((k, v) ∷ rest) it us e
          ≡ list_loop kv json limit offset rest
              (suc it)
              (visit kv json v us).0
              (visit kv json v us).1
    unfolding list_loop
    more_step h l = rw (h, l)

  visit-some :
      (v : Text) (us : List User) (u : User)
      → unmarshal v ≡ some u
      → visit kv json v us ≡ (us ++ get_user_no_credentials u ∷ [], none)
  unfolding visit
  visit-some v us u h = rw (h, visit)

  visit-none :
      (v : Text) (us : List User)
      → unmarshal v ≡ none
      → visit kv json v us ≡ (us, some library_error)
  unfolding visit
  visit-none v us h = rw (h, visit)

  -- Past the offset the loop appends readable users until there are `n + 1` more.
  list_loop_tail :
      (limit offset : ℤ) (rest : List (Text × Text)) (it n : ℕ) (us : List User)
      (e : Option ProviderError)
      → limit ≡ pos (length us + suc n)
      → offset ≤ℤ pos it
      → (list_loop kv json limit offset rest it us e).0 ≡ us ++ take (suc n) (readable_users rest)
  unfolding list_loop get_user_no_credentials
  list_loop_tail limit offset [] it n us e l o = sym (append-nil us)
  list_loop_tail limit offset ((k, v) ∷ rest) it zero us e l o = elim (Option-cases (unmarshal v)) [
    | inl failed ↦
        let is = visit-none v us failed in
        let step =
          more_step limit offset k v rest it us e (ground (arith, o)) (rw is (ground (arith, l))) in
        rw (step, is, failed)
          (list_loop_tail limit offset rest (suc it) zero us (some library_error) l (omega arith))
    | inr (u, read) ↦
        let is = visit-some v us u read in
        let step =
          stop_step limit offset k v rest it us e (ground (arith, o))
            (rw is (ground (arith, l, length-append us (get_user_no_credentials u ∷ [])))) in
        rw (step, is, read)
  ]
  list_loop_tail limit offset ((k, v) ∷ rest) it (suc m) us e l o =
      elim (Option-cases (unmarshal v)) [
        | inl failed ↦
            let is = visit-none v us failed in
            let step =
              more_step limit offset k v rest it us e (ground (arith, o))
                (rw is (ground (arith, l))) in
            rw (step, is, failed)
              (list_loop_tail limit offset rest (suc it) (suc m) us (some library_error) l
                (omega arith))
        | inr (u, read) ↦
            let is = visit-some v us u read in
            let us' = us ++ get_user_no_credentials u ∷ [] in
            let len = length-append us (get_user_no_credentials u ∷ []) in
            let step =
              more_step limit offset k v rest it us e (ground (arith, o))
                (rw is (ground (arith, l, len))) in
            rw (step, is, read)
              (list_loop_tail limit offset rest (suc it) m us' none (ground (arith, l, len))
                  (omega arith)
                ∙ append_assoc us (get_user_no_credentials u ∷ [])
                    (take (suc m) (readable_users rest)))
      ]

  -- Up to the offset the loop skips.
  list_loop_head :
      (limit : ℤ) (o : ℕ) (rest : List (Text × Text)) (it n : ℕ)
      → limit ≡ pos (suc n)
      → (list_loop kv json limit (pos (it + o)) rest it [] none).0
        ≡ take (suc n) (readable_users (drop o rest))
  unfolding list_loop
  list_loop_head limit zero rest it n l =
      list_loop_tail limit (pos (it + 0)) rest it n [] none (ground (arith, l)) (omega arith)
  list_loop_head limit (suc o) [] it n l = refl
  list_loop_head limit (suc o) ((k, v) ∷ rest) it n l =
      let shift : it + suc o ≡ suc it + o = omega arith in
      let step = skip_step limit (pos (it + suc o)) k v rest it [] none (ground arith) in
      rw step (rw shift (list_loop_head limit o rest (suc it) n l))

  -- The users that `getUsers` gives back.
  abbrev pub page : ℕ → ℕ → List (Text × Text) → List User
  page limit offset stored = take limit (readable_users (drop offset stored))

  pub list_loop-page :
      (limit offset : ℤ) (n : ℕ) (stored : List (Text × Text))
      → limit ≡ pos (suc n)
      → (list_loop kv json limit offset stored 0 [] none).0 ≡ page (suc n) (pos_part offset) stored
  list_loop-page limit (pos o) n stored l =
      let start : 0 + o ≡ o = omega arith in rw start at (list_loop_head limit o stored 0 n l)
  list_loop-page limit (negsuc o) n stored l =
      list_loop_tail limit (negsuc o) stored 0 n [] none (ground (arith, l)) (omega arith)

  pub positive : (n : ℕ) → leb_ℤ (pos (suc n)) (pos 0) ≡ false
  positive n = ground arith

  -- The entries in the order of a cursor for "ASC", and in its reverse for any other order.
  pub data IsOrder (order : Text) (stored : List (Text × Text)) : List (Text × Text) → Type 0 where
    ascending : order ≡ bytes "ASC" → IsOrder order stored stored
    descending : order ≢ bytes "ASC" → IsOrder order stored (reverse stored)

  ordered_lem :
      (order : Text) (users : kv.Bucket) (visited : List (Text × Text))
      → IsOrder order (kv.entries users) visited
      → ordered kv json order users ≡ visited
  ordered_lem order users visited (ascending e) = rw ((text_eq_iff order (bytes "ASC")).1 e) refl
  ordered_lem order users visited (descending ne) =
      elim (Bool-cases (text_eq order (bytes "ASC"))) [
        | inl y ↦ absurd (ne ((text_eq_iff order (bytes "ASC")).0 y))
        | inr n ↦ rw (n) refl
      ]

  pub get_users-ordered :
      (n : ℕ) (offset : ℤ) (order : Text) (users idx : kv.Bucket)
      → (get_users kv json (pos (suc n)) offset order [] (both kv json users idx)).0
        ≡ page (suc n) (pos_part offset) (ordered kv json order users)
  unfolding get_users
  get_users-ordered n offset order users idx =
      rw (positive n) (list_loop-page (pos (suc n)) offset n (ordered kv json order users) refl)

  -- Without a username filter and with a positive limit, `getUsers` returns, without their
  -- credentials, the first `limit` of the readable users that are left when the first `offset`
  -- entries are dropped, in the order of a cursor for "ASC" and in its reverse for any other.
  pub get_users-page :
      (n : ℕ) (offset : ℤ) (order : Text) (users idx : kv.Bucket) (visited : List (Text × Text))
      → IsOrder order (kv.entries users) visited
      → (get_users kv json (pos (suc n)) offset order [] (both kv json users idx)).0
        ≡ page (suc n) (pos_part offset) visited
  get_users-page n offset order users idx visited h =
      get_users-ordered n offset order users idx
      ∙ ap (page (suc n) (pos_part offset)) (ordered_lem order users visited h)
