-- ===== src/Serv/Login/Admitted.antt =====
-- Whom a login lets in.
use mathlib.Core.Path.{subst}
use sshserv.Prelude.{
  ◌==◌, ◌≢◌, [], length, or_err, guard, >>=-eq-ok, >>-eq-ok, ◌≡◌, ◌∙◌, ap, sym, ◌⊎◌, inl, inr, refl,
  true, not, ◌&&◌, some, Result, ok, err, ok-injective, Bool-cases, Option-cases, arith,
}
use sshserv.Prelude.Int.{ℤ, pos, ltb_ℤ, leb_ℤ, ◌≤ℤ◌, ◌<ℤ◌}
use sshserv.Prelude.Text.{Text}
use sshserv.Dataprovider.User.{User}
use sshserv.Dataprovider.Errors.{ProviderError, record_not_found, empty_credentials}
use sshserv.Dataprovider.Validate.{Hashing, is_abs}
use sshserv.Dataprovider.Password.{Checking}
use sshserv.Dataprovider.Password.Login.{Proves, check_user_and_pass_sound}
use sshserv.Dataprovider.Facade.{Config, bolt_provider}
use sshserv.Dataprovider.Bolt.Provider as Bolt
use sshserv.Dataprovider.Bolt.Store.{
  KeyValue, Json, get_buckets, unmarshal-IsEncodable, IsEncodable, unmarshal-marshal_encodable,
}
use sshserv.Serv.Registry.{get_active_sessions}
use sshserv.Serv.Os.{Os}
use sshserv.Serv.Env.{UploadMode, Actions, Env, Server}
use sshserv.Serv.Transfer.Close.Accounts.{bolt_env}
use sshserv.Serv.Login.{LoginError, login_user, or_refuse, validate_password_credentials}

module _ (env : Env) (json : Json) where
  -- A user that may open a session in a state.
  pub record IsAdmitted (user : User) (s : Server env) : Type 0 where
    pub rooted : is_abs user.home_dir ≡ true
    pub below :
        (user.max_sessions ≤ℤ pos 0)
        ⊎ (pos (get_active_sessions user.username s.registry) <ℤ user.max_sessions)

  -- A login that is let in gives the JSON of an admitted user, and leaves the registry and the store.
  abbrev pub LetsIn : User → Server env → Result LoginError Text × Server env → Type 0
  LetsIn user s (err e, s') = Unit
  LetsIn user s (ok t, s') =
      IsAdmitted user s
      × (json.marshal user ≡ some t)
      × (s'.registry ≡ s.registry)
      × (s'.store ≡ s.store)

  login_user-LetsIn : (user : User) (s : Server env) → LetsIn user s (login_user env json user s)
  unfolding login_user
  login_user-LetsIn user s = elim (Bool-cases (is_abs user.home_dir)) [
    | inr n ↦ rw (login_user, n) tt
    | inl y ↦
        elim (Bool-cases (
          ltb_ℤ (pos 0) user.max_sessions
          && leb_ℤ user.max_sessions (pos (get_active_sessions user.username s.registry)))) [
            | inl m ↦ rw (login_user, y, m) tt
            | inr m ↦ elim (Option-cases (json.marshal user)) [
              | inl e ↦ rw (login_user, y, m, e) tt
              | inr (t, e) ↦
                  rw (login_user, y, m, e)
                    (record { rooted = y; below = ground arith }, e, refl, refl)
            ]
          ]
  ]

  -- `or_refuse` on a user that the provider has checked.
  or_refuse-LetsIn :
      (r : Result ProviderError User) (s : Server env) (t : Text) (s' : Server env)
      → or_refuse env json r s ≡ (ok t, s')
      → (user : User) × (r ≡ ok user) × LetsIn user s (ok t, s')
  or_refuse-LetsIn (err e) s t s' h = cc
  or_refuse-LetsIn (ok user) s t s' h =
      (user, refl, subst (LetsIn user s) h (login_user-LetsIn user s))

-- A user that the bolt provider finds has been read from JSON.
user_exists-IsEncodable :
    (kv : KeyValue) (json : Json) (name : Text) (db : Bolt.State kv json) (user : User)
    → Bolt.user_exists kv json name db ≡ ok user
    → IsEncodable json user
unfolding Bolt.user_exists
user_exists-IsEncodable kv json name db user h =
    let (buckets, _, at_name) = >>=-eq-ok (get_buckets db) _ h in
    let (text, _, read) = >>=-eq-ok (or_err (kv.get buckets.0 name) record_not_found) _ at_name in
    elim (Option-cases (json.unmarshal text)) [
      | inl e ↦ cc (rw (e) at read)
      | inr (u, e) ↦
          let found : ok u ≡ ok user = rw (e) at read in
          unmarshal-IsEncodable json user text (e ∙ ap some (ok-injective found))
    ]

module _ (kv : KeyValue) (json : Json) (hashing : Hashing) (checking : Checking) (now : ℤ)
    (cfg : Config) (os : Os) (mode : UploadMode) (actions : Actions) where
  abbrev pub env : Env
  env = bolt_env kv json hashing checking now cfg os mode actions

  -- What a login by password has checked, and what the connection will read.
  pub record IsLogin (name pass t : Text) (s s' : Server env) : Type 0 where
    pub user : User
    pub stored : Bolt.user_exists kv json name s.store ≡ ok user
    pub has_password : user.password ≢ []
    pub proves : Proves checking pass user.password
    pub admitted : IsAdmitted env json user s
    pub received : json.unmarshal t ≡ some user
    pub same_registry : s'.registry ≡ s.registry
    pub same_store : s'.store ≡ s.store

  -- A login by password that succeeds on the bolt provider is one of a stored user: the password
  -- matches the stored hash by the library of its scheme, the home directory is absolute, and the
  -- user has no limit on sessions or fewer sessions open than the limit. What the login hands on
  -- reads back as just that user, and it leaves the sessions and the users as they are.
  pub validate_password_credentials-IsLogin :
      (name pass t : Text) (s s' : Server env)
      → validate_password_credentials env json name pass s ≡ (ok t, s')
      → IsLogin name pass t s s'
  unfolding validate_password_credentials bolt_provider Bolt.validate_user_and_pass
  validate_password_credentials-IsLogin name pass t s s' h =
      let (user, valid, (admitted, made, same_registry, same_store)) =
        or_refuse-LetsIn env json (Bolt.validate_user_and_pass kv json checking name pass s.store) s
          t s' h in
      let (_, looked) = >>-eq-ok (guard (not (length pass == 0)) empty_credentials) _ valid in
      let (found, stored, checked) = >>=-eq-ok (Bolt.user_exists kv json name s.store) _ looked in
      let (same, has_password, proves) =
        check_user_and_pass_sound checking found user pass checked in
      let stored' = stored ∙ ap ok (sym same) in
      record {
        user = user;
        stored = stored';
        has_password = subst (λ (u : User). u.password ≢ []) (sym same) has_password;
        proves = subst (λ (u : User). Proves checking pass u.password) (sym same) proves;
        admitted = admitted;
        received =
            unmarshal-marshal_encodable json user t made
              (user_exists-IsEncodable kv json name s.store user stored');
        same_registry = same_registry;
        same_store = same_store;
      }
