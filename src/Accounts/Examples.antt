-- ===== src/Accounts/Examples.antt =====
-- A small site, and the theorems at concrete inputs.
use image_genie.Base.{
  ℕ, ◌+◌, ◌≤◌, ◌≡◌, refl, ◌↔◌, true, false, some, [], ◌∷◌, ◌++◌, arith, ◌==◌, length, Text, codes,
  text_beq, starts_with, contains, get, put, empty, text_eq, nat_eq,
}
use image_genie.RateLimit.{new_limiter, new_backoff, check, locked_for}
use image_genie.Accounts.Email.{normalized, strip, lstrip, lower}
use image_genie.Accounts.{
  user, admin, User, Invite, Tables, Server, Moment, Hashes, logged_in, no_content, refused,
  too_many, login_backoff_rule, user_with_email, user_with_id, resolve_session, created, invite_ttl,
}
use image_genie.Accounts.Routes.{account_key, limited, login, signup, verify_email, create_invite}
use image_genie.Accounts.Login.{login_locked_out, IsAccepted, login-IsAccepted, login_admits}
use image_genie.Accounts.Tokens.{verify_email_once}
use image_genie.Accounts.Gate.{IsGated}
use image_genie.Accounts.Requests.{signs_up, verifies, serve, IsGated-serve}
use image_genie.Accounts.Signup.{IsSignedUp, signup-IsSignedUp}
use image_genie.ArtifactKeys.Decimal.{decimal}
use image_genie.Accounts.Caller.{current_user, invite_route, IsInvited, invite_route-admin}
use image_genie.Accounts.Csrf.{relative_path, enforce_csrf, enforce_csrf_iff}

-- A hash is the text itself.
abbrev hashes : Hashes
hashes = record {
  hash_password = λ salt password. password;
  verify_password = λ password hash. password == hash;
  hash_token = λ token. token;
}

abbrev ip : Text
ip = codes "::1"

abbrev ann_mail : Text
ann_mail = codes "a@x"

abbrev secret : Text
secret = codes "12345678"

abbrev ann : User
ann = record { id = 1; email = ann_mail; role = admin; password_hash = secret; verified = true }

abbrev bob_invite : Invite
bob_invite = record { expires_at = 500; accepted = false; invited_by = some ann_mail; role = user }

abbrev tables : Tables
tables = record {
  users = ann ∷ [];
  next_user_id = 2;
  invites = record {
    entries = (codes "b@x", bob_invite) ∷ (ann_mail, record bob_invite { accepted = true }) ∷ [];
  };
  verifications = record { token_hash = codes "t"; user_id = 1; expires_at = 900 } ∷ [];
  sessions = empty;
  outbox = [];
}

abbrev server : Server
server = record {
  tables = tables;
  login_limiter = new_limiter;
  signup_limiter = new_limiter;
  login_backoff = new_backoff login_backoff_rule;
}

abbrev now : Moment
now = record { monotonic = 10; utc = 100 }

abbrev locked_server : Server
locked_server = record server {
  login_backoff = record {
    rule = login_backoff_rule;
    key_to_streak = record {
      entries = (account_key ann_mail, record { failures = 4; locked_until = 11 }) ∷ [];
    };
  };
}

login_locked_out_example :
    ((seconds : ℕ) × ((login hashes ip ann_mail secret (codes "s") now locked_server).0
        ≡ too_many seconds))
    × ((login hashes ip ann_mail secret (codes "s") now locked_server).1.tables ≡ tables)
    × ((login hashes ip ann_mail secret (codes "s") now locked_server).1.login_backoff
        ≡ locked_server.login_backoff)
unfolding locked_for get text_beq normalized strip lstrip lower
login_locked_out_example =
    login_locked_out hashes ip ann_mail secret (codes "s") now locked_server (omega arith)

ann_logs_in :
    (login hashes ip ann_mail secret (codes "s") now server).0
    ≡ logged_in ann_mail admin (codes "s")
unfolding check locked_for get user_with_email normalized strip lstrip lower text_beq
ann_logs_in =
    (login_admits hashes ip ann_mail secret (codes "s") now server ann 0 refl refl refl refl refl).0

login-IsAccepted_example :
    (u : User) × (logged_in ann_mail admin (codes "s") ≡ logged_in u.email u.role (codes "s"))
    × IsAccepted hashes ann_mail secret
        (codes "s")
        u
        (login hashes ip ann_mail secret (codes "s") now server).1
        now
        server
login-IsAccepted_example =
    login-IsAccepted hashes ip ann_mail secret (codes "s") now server ann_mail admin (codes "s")
      ann_logs_in

first_use :
    (check server.signup_limiter
      (codes "verify:ip:" ++ ip)
      (record { max_hits = 20; window_seconds = 600 })
      10).0
    ≡ true
unfolding check get
first_use = refl

second_use :
    (check
      (verify_email hashes ip (codes "t") now server).1.signup_limiter
      (codes "verify:ip:" ++ ip)
      (record { max_hits = 20; window_seconds = 600 })
      10).0
    ≡ true
unfolding check get put verify_email limited text_beq
second_use = refl

verify_email_once_example :
    ((verify_email hashes ip (codes "t") now (verify_email hashes ip (codes "t") now server).1).0
      ≡ refused 400 (codes "invalid_token"))
    × ((verify_email hashes ip
          (codes "t")
          now
          (verify_email hashes ip (codes "t") now server).1).1.tables
        ≡ (verify_email hashes ip (codes "t") now server).1.tables)
verify_email_once_example =
    verify_email_once hashes ip ip (codes "t") now now server first_use second_use

tables-IsGated : IsGated tables
unfolding get text_beq
tables-IsGated = record {
  invited = (refl, tt);
  emails = (tt, tt);
  ids = (omega arith, tt);
  tokens = λ id. ground arith;
}

IsGated-serve_example :
    IsGated
      (serve hashes
        ((signs_up ip (codes "b@x") secret 0 (codes "n"), now)
          ∷ (verifies ip (codes "n"), now)
          ∷ [])
        server).tables
IsGated-serve_example =
    IsGated-serve hashes
      ((signs_up ip (codes "b@x") secret 0 (codes "n"), now) ∷ (verifies ip (codes "n"), now) ∷ [])
      server tables-IsGated

signs_bob_up : (signup hashes ip (codes "b@x") secret 0 (codes "n") now server).0 ≡ no_content
unfolding signup limited check get put text_beq user_with_email normalized strip lstrip lower
signs_bob_up = refl

signup-IsSignedUp_example :
    (8 ≤ length secret)
    × (invite : Invite) × IsSignedUp hashes
        (normalized (codes "b@x"))
        secret
        0
        invite
        now
        tables
        (signup hashes ip (codes "b@x") secret 0 (codes "n") now server).1.tables
signup-IsSignedUp_example =
    signup-IsSignedUp hashes ip (codes "b@x") secret 0 (codes "n") now server signs_bob_up

enforce_csrf_iff_example :
    (enforce_csrf
        (codes "/api")
        (codes "POST")
        (codes "/api/auth/logout")
        (some (codes "k"))
        (some (codes "k"))
      ≡ true)
    ↔ ((c : ℕ) × (token : Text) × (some (codes "k") ≡ some (c ∷ token))
        × (some (codes "k") ≡ some (c ∷ token)))
unfolding relative_path text_beq starts_with
enforce_csrf_iff_example =
    enforce_csrf_iff (codes "/api") (codes "POST") (codes "/api/auth/logout") (some (codes "k"))
      (some (codes "k")) refl refl

abbrev ann_server : Server
ann_server = record server {
  tables = record tables {
    sessions = record { entries = (codes "s", record { user_id = 1; expires_at = 900 }) ∷ [] };
  };
}

ann_invites :
    (invite_route (some (codes "s")) (codes "c@x") user now ann_server).0
    ≡ created (codes "c@x") (100 + invite_ttl) user
unfolding invite_route create_invite limited check get put text_beq current_user resolve_session
    user_with_id normalized strip lstrip lower contains decimal
ann_invites = refl

invite_route-admin_example :
    IsInvited
      (some (codes "s"))
      (codes "c@x")
      user
      now
      ann_server.tables
      (invite_route (some (codes "s")) (codes "c@x") user now ann_server).1.tables
invite_route-admin_example =
    invite_route-admin (some (codes "s")) (codes "c@x") user now ann_server (codes "c@x")
      (100 + invite_ttl) user ann_invites
