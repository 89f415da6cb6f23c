-- ===== src/Accounts/Requests.antt =====
-- What holds of the accounts after any sequence of requests to the /auth routes.
use image_genie.Base.{
  ℕ, ◌+◌, inl, inr, false, Option, none, some, List, [], ◌∷◌, ◌++◌, ltb, Bool-cases, length, Text,
  codes, contains, get, put, text_eq, nat_eq,
}
use image_genie.ArtifactKeys.Decimal.{decimal}
use image_genie.RateLimit.{RateLimitRule, check, locked_for}
use image_genie.Accounts.Email.{normalized}
use image_genie.Accounts.{
  UserRole, User, Invite, Mail, invitation_mail, Tables, Server, Moment, Hashes, Reply,
  login_per_ip, signup_per_ip, verify_per_ip, resend_per_ip, resend_per_email, invite_per_admin,
  password_min_length, invite_ttl, user_with_email, create_session, delete_session,
}
use image_genie.Accounts.Routes.{
  limited, enter, login, login_key, account_key, signup, verification_with, verify_email,
  resend_verification, create_invite, logout, signing_up, verifying, resending, resending_to,
  inviting,
}
use image_genie.Accounts.Gate.{
  IsGated, IsGated-accept, IsGated-reissue, IsGated-consume, is_invited-put, All-weaken,
}

-- A request to one of the routes, with the tokens and salts that it draws.
pub data Request : Type 0 where
  logs_in : Text → Text → Text → Text → Request
  signs_up : Text → Text → Text → ℕ → Text → Request
  verifies : Text → Text → Request
  asks_again : Text → Text → Text → Request
  invites : User → Text → UserRole → Request
  logs_out : Option Text → Request

limited-keeps :
    (P : Tables → Type 0) (key : Text) (rule : RateLimitRule) (now : ℕ) (server : Server)
    (next : Server → Reply × Server)
    → P server.tables
    → ((s : Server) → P s.tables → P (next s).1.tables)
    → P (limited key rule now server next).1.tables
unfolding limited
limited-keeps P key rule now server next p f =
    elim (Bool-cases (check server.signup_limiter key rule now).0) [
      | inl allowed ↦ rw allowed (f _ p)
      | inr barred ↦ rw barred p
    ]

IsGated-invite :
    (tables : Tables) (email : Text) (invite : Invite) (outbox : List Mail)
    → IsGated tables
    → IsGated (record tables { invites = put tables.invites email invite; outbox = outbox })
IsGated-invite tables email invite outbox h = record {
  invited =
      All-weaken tables.users (λ u. is_invited-put tables.invites email invite u.email) h.invited;
  emails = h.emails;
  ids = h.ids;
  tokens = h.tokens;
}

module _ (hashes : Hashes) where
  abbrev pub perform : Request → Moment → Server → Server
  perform (logs_in ip address password token) now server =
      (login hashes ip address password token now server).1
  perform (signs_up ip address password salt token) now server =
      (signup hashes ip address password salt token now server).1
  perform (verifies ip token) now server = (verify_email hashes ip token now server).1
  perform (asks_again ip address token) now server =
      (resend_verification hashes ip address token now server).1
  perform (invites caller address role) now server =
      (create_invite caller address role now server).1
  perform (logs_out cookie) now server = (logout cookie server).1

  abbrev pub serve : List (Request × Moment) → Server → Server
  serve [] server = server
  serve ((request, now) ∷ rest) server = serve rest (perform request now server)

  IsGated-enter :
      (found : Option User) (key password token : Text) (now : Moment) (server : Server)
      → IsGated server.tables
      → IsGated (enter hashes found key password token now server).1.tables
  unfolding create_session
  IsGated-enter none key password token now server h = h
  IsGated-enter (some u) key password token now server h =
      elim (Bool-cases (hashes.verify_password password u.password_hash)) [
        | inr wrong ↦ rw wrong h
        | inl right ↦ elim (Bool-cases u.verified) [
          | inr unverified ↦ rw (right, unverified) h
          | inl verified ↦
              rw (right, verified)
                (record { invited = h.invited; emails = h.emails; ids = h.ids; tokens = h.tokens })
        ]
      ]

  IsGated-login :
      (ip address password token : Text) (now : Moment) (server : Server)
      → IsGated server.tables
      → IsGated (login hashes ip address password token now server).1.tables
  unfolding login
  IsGated-login ip address password token now server h =
      let email = normalized address in
      let step = check server.login_limiter (login_key ip) login_per_ip now.monotonic in
      let counted = record server { login_limiter = step.1 } in
      elim (Bool-cases step.0) [
        | inr barred ↦ rw barred h
        | inl allowed ↦
            elim (Bool-cases
              (ltb 0 (locked_for server.login_backoff (account_key email) now.monotonic))) [
                | inl locked ↦ rw (allowed, locked) h
                | inr unlocked ↦
                    rw (allowed, unlocked)
                      (IsGated-enter (user_with_email email server.tables.users) (account_key email)
                        password token now counted h)
              ]
      ]

  IsGated-signup :
      (ip address password : Text) (salt : ℕ) (token : Text) (now : Moment) (server : Server)
      → IsGated server.tables
      → IsGated (signup hashes ip address password salt token now server).1.tables
  unfolding signup
  IsGated-signup ip address password salt token now server h =
      limited-keeps IsGated (codes "signup:ip:" ++ ip) signup_per_ip now.monotonic server
        (signing_up hashes address password salt token now) h
        λ s p.
          let email = normalized address in
          elim (Bool-cases (ltb (length password) password_min_length)) [
            | inl short ↦ rw short p
            | inr long ↦ rw long (
                IsGated-accept hashes (get s.tables.invites email) email password salt token now
                  s.tables p)
          ]

  IsGated-create_invite :
      (caller : User) (address : Text) (role : UserRole) (now : Moment) (server : Server)
      → IsGated server.tables
      → IsGated (create_invite caller address role now server).1.tables
  unfolding create_invite
  IsGated-create_invite caller address role now server h =
      limited-keeps IsGated (codes "invite:admin:" ++ decimal caller.id) invite_per_admin
        now.monotonic server (inviting caller address role now) h
        λ s p. elim (Bool-cases (contains 64 (normalized address))) [
          | inl address_like ↦ rw address_like (
              IsGated-invite s.tables (normalized address)
                (record {
                  expires_at = now.utc + invite_ttl;
                  accepted = false;
                  invited_by = some caller.email;
                  role = role;
                })
                (s.tables.outbox ++ invitation_mail (normalized address) caller.email ∷ []) p)
          | inr other ↦ rw other p
        ]

  IsGated-perform :
      (request : Request) (now : Moment) (server : Server)
      → IsGated server.tables
      → IsGated (perform request now server).tables
  unfolding verify_email resend_verification resending_to logout delete_session
  IsGated-perform (logs_in ip address password token) now server h =
      IsGated-login ip address password token now server h
  IsGated-perform (signs_up ip address password salt token) now server h =
      IsGated-signup ip address password salt token now server h
  IsGated-perform (verifies ip token) now server h =
      limited-keeps IsGated (codes "verify:ip:" ++ ip) verify_per_ip now.monotonic server
        (verifying hashes token now) h
        λ s p.
          IsGated-consume (verification_with (hashes.hash_token token) s.tables.verifications) now
            s.tables p
  IsGated-perform (asks_again ip address token) now server h =
      let email = normalized address in
      limited-keeps IsGated (codes "resend:ip:" ++ ip) resend_per_ip now.monotonic server
        (resending_to hashes email token now) h
        λ once p.
          limited-keeps IsGated (codes "resend:email:" ++ email) resend_per_email now.monotonic once
            (resending hashes email token now) p
            λ twice q.
              IsGated-reissue hashes (user_with_email (normalized address) twice.tables.users) token
                now twice.tables q
  IsGated-perform (invites caller address role) now server h =
      IsGated-create_invite caller address role now server h
  IsGated-perform (logs_out none) now server h = h
  IsGated-perform (logs_out (some [])) now server h = h
  IsGated-perform (logs_out (some (c ∷ token))) now server h = record {
    invited = h.invited;
    emails = h.emails;
    ids = h.ids;
    tokens = h.tokens;
  }

  -- Whatever requests the /auth routes serve, in whatever order and at whatever moments: if in the beginning every account
  -- has an invite, no two accounts share an address, the numbers of the accounts have been handed out, and no account
  -- has more than one verification token, then in the end too.
  pub IsGated-serve :
      (requests : List (Request × Moment)) (server : Server)
      → IsGated server.tables
      → IsGated (serve requests server).tables
  IsGated-serve [] server h = h
  IsGated-serve ((request, now) ∷ rest) server h =
      IsGated-serve rest _ (IsGated-perform request now server h)
