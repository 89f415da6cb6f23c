-- ===== src/Accounts/Login.antt =====
-- What a login needs, and what it leaves.
use image_genie.Base.{
  ℕ, ◌+◌, ◌<◌, ◌≡◌, refl, ◌≢◌, inl, inr, Bool, true, false, Option, none, some, ◌∷◌, arith, ltb,
  leb, if◌then◌else◌, lt→ltb, Bool-cases, ◌==◌, Text, get, get-put_self, get-remove, text_eq,
  nat_eq,
}
use image_genie.RateLimit.{check, locked_for}
use image_genie.RateLimit.Backoff.{record_success_lem}
use image_genie.Accounts.Email.{normalized}
use image_genie.Accounts.{
  User, UserRole, LoginSession, Server, Moment, Hashes, logged_in, too_many, login_per_ip,
  session_ttl, user_with_email, user_with_id, create_session, resolve_session, delete_session,
}
use image_genie.Accounts.Routes.{login_key, account_key, wrong_credentials, enter, login, logout}

module _ (hashes : Hashes) where
  -- While an account is locked out, a login for it is answered by 429 whatever the password, the right one included, and
  -- it changes neither the tables nor the account's streak of failures: no session is made and no time is added.
  pub login_locked_out :
      (ip address password token : Text) (now : Moment) (server : Server)
      → 0 < locked_for server.login_backoff (account_key (normalized address)) now.monotonic
      → ((seconds : ℕ) × ((login hashes ip address password token now server).0 ≡ too_many seconds))
        × ((login hashes ip address password token now server).1.tables ≡ server.tables)
        × ((login hashes ip address password token now server).1.login_backoff
            ≡ server.login_backoff)
  unfolding login
  login_locked_out ip address password token now server locked =
      let on = lt→ltb 0 _ locked in
      elim (Bool-cases (check server.login_limiter (login_key ip) login_per_ip now.monotonic).0) [
        | inl allowed ↦ rw (allowed, on) ((_, refl), refl, refl)
        | inr barred ↦ rw barred ((_, refl), refl, refl)
      ]

  no_entry :
      (b : Bool) (email : Text) (role : UserRole) (cookie : Text)
      → wrong_credentials b ≢ logged_in email role cookie
  no_entry true email role cookie h = cc h
  no_entry false email role cookie h = cc h

  -- What holds of a login that was accepted.
  pub record IsAccepted (address password token : Text) (u : User) (after : Server) (now : Moment)
      (server : Server) : Type 0 where
    pub known : user_with_email (normalized address) server.tables.users ≡ some u
    pub verified : u.verified ≡ true
    pub password_right : hashes.verify_password password u.password_hash ≡ true
    pub unlocked :
        locked_for server.login_backoff (account_key (normalized address)) now.monotonic ≡ 0
    pub session :
        get after.tables.sessions token
        ≡ some (record { user_id = u.id; expires_at = now.utc + session_ttl })
    pub streak_over :
        get after.login_backoff.key_to_streak (account_key (normalized address)) ≡ none

  enter_accepted :
      (found : Option User) (key password token : Text) (now : Moment) (server : Server)
      (email : Text) (role : UserRole) (cookie : Text)
      → (enter hashes found key password token now server).0 ≡ logged_in email role cookie
      → (u : User) × (found ≡ some u)
        × (u.verified ≡ true)
        × (hashes.verify_password password u.password_hash ≡ true)
        × (email ≡ u.email)
        × (role ≡ u.role)
        × (cookie ≡ token)
        × (get (enter hashes found key password token now server).1.tables.sessions token
            ≡ some (record { user_id = u.id; expires_at = now.utc + session_ttl }))
        × (get (enter hashes found key password token now server).1.login_backoff.key_to_streak key
            ≡ none)
  unfolding create_session
  enter_accepted none key password token now server email role cookie h =
      absurd (no_entry _ email role cookie h)
  enter_accepted (some u) key password token now server email role cookie h =
      elim (Bool-cases (hashes.verify_password password u.password_hash)) [
        | inr wrong ↦ absurd (no_entry _ email role cookie (rw wrong at h))
        | inl right ↦ elim (Bool-cases u.verified) [
          | inr unverified ↦ absurd (cc (rw (right, unverified) at h))
          | inl verified ↦
              let accepted : logged_in u.email u.role token ≡ logged_in email role cookie =
                rw (right, verified) at h in
              let login_session : LoginSession = record {
                user_id = u.id;
                expires_at = now.utc + session_ttl;
              } in
              (
                u,
                refl,
                verified,
                right,
                cc,
                cc,
                cc,
                rw (right, verified) (get-put_self server.tables.sessions token login_session),
                rw (right, verified)
                    (record_success_lem server.login_backoff key key now.monotonic).1,
              )
        ]
      ]

  -- A login that is accepted is that of a verified account with that address and password, while the account is not
  -- locked out; the reply is the account's, with the new session's token, the session is stored for 14 days, and no
  -- streak of failures is on record for the address any more.
  pub login-IsAccepted :
      (ip address password token : Text) (now : Moment) (server : Server) (email : Text)
      (role : UserRole) (cookie : Text)
      → (login hashes ip address password token now server).0 ≡ logged_in email role cookie
      → (u : User) × (logged_in email role cookie ≡ logged_in u.email u.role token)
        × IsAccepted address password token u
            (login hashes ip address password token now server).1
            now
            server
  unfolding login
  login-IsAccepted ip address password token now server email role cookie h =
      let key = account_key (normalized address) in
      let seconds = locked_for server.login_backoff key now.monotonic in
      let found = user_with_email (normalized address) server.tables.users in
      let step = check server.login_limiter (login_key ip) login_per_ip now.monotonic in
      let counted = record server { login_limiter = step.1 } in
      elim (Bool-cases step.0) [
        | inr barred ↦ absurd (cc (rw barred at h))
        | inl allowed ↦ elim (Bool-cases (ltb 0 seconds)) [
          | inl locked ↦ absurd (cc (rw (allowed, locked) at h))
          | inr unlocked ↦
              let (u, known, verified, right, e₁, e₂, e₃, stored, streak) =
                enter_accepted found key password token now counted email role cookie
                  (rw (allowed, unlocked) at h) in
              (
                u,
                rw (e₁, e₂, e₃) refl,
                record {
                  known = known;
                  verified = verified;
                  password_right = right;
                  unlocked = ground arith;
                  session = rw (allowed, unlocked) stored;
                  streak_over = rw (allowed, unlocked) streak;
                },
              )
        ]
      ]

  -- The right password of a verified account is accepted while neither limit bars it, and the new session then stands
  -- for the account up to 14 days later, and for nobody after that.
  pub login_admits :
      (ip address password token : Text) (now : Moment) (server : Server) (u : User) (later : ℕ)
      → (check server.login_limiter (login_key ip) login_per_ip now.monotonic).0 ≡ true
      → locked_for server.login_backoff (account_key (normalized address)) now.monotonic ≡ 0
      → user_with_email (normalized address) server.tables.users ≡ some u
      → u.verified ≡ true
      → hashes.verify_password password u.password_hash ≡ true
      → ((login hashes ip address password token now server).0 ≡ logged_in u.email u.role token)
        × (resolve_session (login hashes ip address password token now server).1.tables token later
            ≡ (if leb later (now.utc + session_ttl)
                then user_with_id u.id server.tables.users
                else none))
  unfolding login create_session resolve_session
  login_admits ip address password token now server u later allowed unlocked known verified right =
      let login_session : LoginSession = record {
        user_id = u.id;
        expires_at = now.utc + session_ttl;
      } in
      let there = get-put_self server.tables.sessions token login_session in
      rw (allowed, unlocked, known, right, verified) (refl, rw there (ground arith))

-- After a logout no session stands for the token, at any time; every other token's session is as before.
pub resolve_session-logout :
    (c : ℕ) (token : Text) (server : Server) (other : Text) (now : ℕ)
    → resolve_session (logout (some (c ∷ token)) server).1.tables other now
      ≡ (if (c ∷ token) == other then none else resolve_session server.tables other now)
unfolding logout resolve_session delete_session
resolve_session-logout c token server other now = elim (Bool-cases ((c ∷ token) == other)) [
  | inl same ↦ rw (get-remove server.tables.sessions (c ∷ token) other, same) refl
  | inr apart ↦ rw (get-remove server.tables.sessions (c ∷ token) other, apart) refl
]
