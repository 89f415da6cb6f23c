-- ===== src/Accounts/Routes.antt =====
-- The /auth routes of server/app/api.py, on the caller's address `ip` and the tokens and salts that are drawn.
use image_genie.Base.{
  ℕ, suc, ◌+◌, Bool, true, false, not, Option, none, some, List, [], ◌∷◌, ◌++◌, ltb, if◌then◌else◌,
  ◌==◌, length, keep, Text, codes, contains, get, put, text_eq, nat_eq,
}
use image_genie.ArtifactKeys.Decimal.{decimal}
use image_genie.RateLimit.{
  RateLimitRule, check, retry_after, locked_for, record_failure, failure_raises, record_success,
}
use image_genie.Accounts.Email.{normalized}
use image_genie.Accounts.{
  UserRole, User, Invite, EmailVerification, Tables, Server, Moment, Hashes, invitation_mail, Reply,
  logged_in, created, no_content, refused, too_many, login_per_ip, signup_per_ip, verify_per_ip,
  resend_per_ip, resend_per_email, invite_per_admin, invite_ttl, password_min_length,
  user_with_email, user_with_id, set_verified, create_session, delete_session, issue_verification,
}

abbrev pub login_key : Text → Text
login_key ip = codes "login:ip:" ++ ip

abbrev pub account_key : Text → Text
account_key email = codes "login:account:" ++ email

-- `_rate_limit` with the signup limiter: what follows runs if the hit is allowed.
unfoldable pub limited :
    Text → RateLimitRule → ℕ → Server → (Server → Reply × Server) → Reply × Server
limited key rule now server next =
    let (allowed, limiter) = check server.signup_limiter key rule now in
    let counted = record server { signup_limiter = limiter } in
    let onward = next counted in
    if allowed then onward else (too_many (retry_after limiter key now), counted)

-- `session_scope`: tables are written by a block that returns, and not by one that raises.
abbrev pub respond : Server → Reply × Tables → Reply × Server
respond server (reply, tables) = (reply, record server { tables = tables })

abbrev pub is_taken : Option User → Bool
is_taken none = false
is_taken (some _) = true

unfoldable pub verification_with : Text → List EmailVerification → Option EmailVerification
verification_with hash [] = none
verification_with hash (row ∷ rows) =
    if row.token_hash == hash then some row else verification_with hash rows

-- `session.delete(record)`
unfoldable pub without_verification : Text → List EmailVerification → List EmailVerification
without_verification hash = keep (λ row. not (row.token_hash == hash))

-- The transaction of `verify_email`, on the row of that token: it is consumed either way.
abbrev pub consume : Option EmailVerification → Moment → Tables → Reply × Tables
consume none now tables = (refused 400 (codes "invalid_token"), tables)
consume (some row) now tables =
    let spent = record tables {
      verifications = without_verification row.token_hash tables.verifications;
    } in
    if ltb row.expires_at now.utc
    then (refused 400 (codes "expired_token"), spent)
    else if not (is_taken (user_with_id row.user_id tables.users))
    then (refused 400 (codes "invalid_token"), spent)
    else (no_content, record spent { users = set_verified row.user_id tables.users })

-- The answer to wrong credentials: 401, once the failure is recorded without an error.
abbrev pub wrong_credentials : Bool → Reply
wrong_credentials true = refused 500 (codes "Internal Server Error")
wrong_credentials false = refused 401 (codes "invalid_credentials")

abbrev pub turned_away : Text → Moment → Server → Reply × Server
turned_away key now server = (
  wrong_credentials (failure_raises server.login_backoff key),
  record server { login_backoff = record_failure server.login_backoff key now.monotonic },
)

module _ (hashes : Hashes) where
  -- The block of `login` after the two limiters, on the account of that address.
  abbrev pub enter : Option User → Text → Text → Text → Moment → Server → Reply × Server
  enter none key password token now server = turned_away key now server
  enter (some u) key password token now server =
      if not (hashes.verify_password password u.password_hash)
      then turned_away key now server
      else if not u.verified
      then (refused 403 (codes "unverified"), server)
      else (
        logged_in u.email u.role token,
        record server {
          login_backoff = record_success server.login_backoff key;
          tables = create_session u token now.utc server.tables;
        },
      )

  -- The lockout of the account comes before the account is read.
  abbrev pub unless_locked : ℕ → Text → Text → Text → Moment → Server → Reply × Server
  unless_locked seconds email password token now server =
      if ltb 0 seconds
      then (too_many seconds, server)
      else enter (user_with_email email server.tables.users) (account_key email) password token now
          server

  unfoldable pub login : Text → Text → Text → Text → Moment → Server → Reply × Server
  login ip address password token now server =
      let email = normalized address in
      let (allowed, limiter) =
        check server.login_limiter (login_key ip) login_per_ip now.monotonic in
      let counted = record server { login_limiter = limiter } in
      if allowed
      then unless_locked (locked_for server.login_backoff (account_key email) now.monotonic) email
          password token now counted
      else (too_many (retry_after limiter (login_key ip) now.monotonic), counted)

  -- The new row of `signup`, and what comes with it.
  abbrev pub enrol : Invite → Text → Text → ℕ → Text → Moment → Tables → Reply × Tables
  enrol invite email password salt token now tables =
      let u : User = record {
        id = tables.next_user_id;
        email = email;
        role = invite.role;
        password_hash = hashes.hash_password salt password;
        verified = false;
      } in
      (
        no_content,
        issue_verification hashes u token now.utc (record tables {
          users = u ∷ tables.users;
          next_user_id = suc tables.next_user_id;
          invites = put tables.invites email (record invite { accepted = true });
        }),
      )

  -- The transaction of `signup`, on the invite of that address.
  abbrev pub accept : Option Invite → Text → Text → ℕ → Text → Moment → Tables → Reply × Tables
  accept none email password salt token now tables = (refused 403 (codes "invite_required"), tables)
  accept (some invite) email password salt token now tables =
      if ltb invite.expires_at now.utc
      then (refused 403 (codes "invite_required"), tables)
      else if is_taken (user_with_email email tables.users)
      then (refused 409 (codes "email_taken"), tables)
      else if invite.accepted
      then (refused 403 (codes "invite_required"), tables)
      else enrol invite email password salt token now tables

  -- `signup` after the limit.
  abbrev pub signing_up : Text → Text → ℕ → Text → Moment → Server → Reply × Server
  signing_up address password salt token now counted =
      let email = normalized address in
      let block =
        respond counted (
          accept (get counted.tables.invites email) email password salt token now counted.tables) in
      if ltb (length password) password_min_length
      then (refused 400 (codes "validation_error"), counted)
      else block

  unfoldable pub signup : Text → Text → Text → ℕ → Text → Moment → Server → Reply × Server
  unfolding limited
  signup ip address password salt token now server =
      limited (codes "signup:ip:" ++ ip) signup_per_ip now.monotonic server
        (signing_up address password salt token now)

  -- `verify_email` after the limit.
  abbrev pub verifying : Text → Moment → Server → Reply × Server
  verifying token now counted = respond counted (
      consume (verification_with (hashes.hash_token token) counted.tables.verifications) now
        counted.tables)

  unfoldable pub verify_email : Text → Text → Moment → Server → Reply × Server
  unfolding limited
  verify_email ip token now server =
      limited (codes "verify:ip:" ++ ip) verify_per_ip now.monotonic server (verifying token now)

  abbrev pub reissue : Option User → Text → Moment → Tables → Tables
  reissue none token now tables = tables
  reissue (some u) token now tables =
      if u.verified then tables else issue_verification hashes u token now.utc tables

  -- `resend_verification` after the limits, on the normalized address.
  abbrev pub resending : Text → Text → Moment → Server → Reply × Server
  resending email token now counted =
      respond counted
        (no_content, reissue (user_with_email email counted.tables.users) token now counted.tables)

  -- The limit on the address, after the one on the caller.
  unfoldable pub resending_to : Text → Text → Moment → Server → Reply × Server
  unfolding limited
  resending_to email token now server =
      limited (codes "resend:email:" ++ email) resend_per_email now.monotonic server
        (resending email token now)

  unfoldable pub resend_verification : Text → Text → Text → Moment → Server → Reply × Server
  unfolding limited resending_to
  resend_verification ip address token now server =
      limited (codes "resend:ip:" ++ ip) resend_per_ip now.monotonic server
        (resending_to (normalized address) token now)

-- `create_invite` after the limit: the invite is refreshed, or a new row of that address.
abbrev pub inviting : User → Text → UserRole → Moment → Server → Reply × Server
inviting caller address role now counted =
    let email = normalized address in
    let expires_at = now.utc + invite_ttl in
    let tables = record counted.tables {
      invites = put counted.tables.invites email (record {
        expires_at = expires_at;
        accepted = false;
        invited_by = some caller.email;
        role = role;
      });
      outbox = counted.tables.outbox ++ invitation_mail email caller.email ∷ [];
    } in
    if contains 64 email
    then (created email expires_at role, record counted { tables = tables })
    else (refused 400 (codes "validation_error"), counted)

unfoldable pub create_invite : User → Text → UserRole → Moment → Server → Reply × Server
unfolding limited
create_invite caller address role now server =
    limited (codes "invite:admin:" ++ decimal caller.id) invite_per_admin now.monotonic server
      (inviting caller address role now)

-- The session cookie may be missing or empty.
unfoldable pub logout : Option Text → Server → Reply × Server
logout none server = (no_content, server)
logout (some []) server = (no_content, server)
logout (some (c ∷ token)) server =
    (no_content, record server { tables = delete_session (c ∷ token) server.tables })
