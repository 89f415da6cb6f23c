-- ===== src/Accounts.antt =====
-- Accounts, invites, sessions and one-time tokens: the /auth routes of server/app/api.py over server/app/security.py
-- and the tables of server/app/models.py. A transaction that raises leaves the tables as they were; the limiters
-- live in the process and keep what they counted.
pub mod Email
pub mod Routes
pub mod Login
pub mod Tokens
pub mod Gate
pub mod Requests
pub mod Signup
pub mod Csrf
pub mod Caller
mod Examples
use image_genie.Base.{
  ℕ, ◌+◌, ◌-◌, ◌/◌, max, Bool, true, not, Option, none, some, List, [], ◌∷◌, ◌++◌, arith, ltb,
  if◌then◌else◌, ◌==◌, keep, Text, Dict, get, put, remove, text_eq, nat_eq,
}
use image_genie.RateLimit.{
  RateLimitRule, BackoffRule, FixedWindowRateLimiter, LoginBackoff, check, retry_after, locked_for,
  record_failure, record_success,
}
use image_genie.Accounts.Email.{normalized}

pub data UserRole : Type 0 where
  user admin : UserRole

pub record User : Type 0 where
  pub id : ℕ
  pub email : Text
  pub role : UserRole
  pub password_hash : Text
  pub verified : Bool

pub record Invite : Type 0 where
  pub expires_at : ℕ
  pub accepted : Bool
  pub invited_by : Option Text
  pub role : UserRole

pub record EmailVerification : Type 0 where
  pub token_hash : Text
  pub user_id : ℕ
  pub expires_at : ℕ

pub record LoginSession : Type 0 where
  pub user_id : ℕ
  pub expires_at : ℕ

-- The mails that are queued: a verification link with its token, and an invitation with its author.
pub data Mail : Type 0 where
  verification_mail invitation_mail : Text → Text → Mail

pub record Tables : Type 0 where
  pub users : List User
  pub next_user_id : ℕ
  pub invites : Dict Text Invite
  pub verifications : List EmailVerification
  pub sessions : Dict Text LoginSession
  pub outbox : List Mail

pub record Server : Type 0 where
  pub tables : Tables
  pub login_limiter : FixedWindowRateLimiter
  pub signup_limiter : FixedWindowRateLimiter
  pub login_backoff : LoginBackoff

-- `time.monotonic()` and `datetime.now(UTC)` in seconds.
pub record Moment : Type 0 where
  pub monotonic : ℕ
  pub utc : ℕ

-- bcrypt, with the salt that is drawn, and SHA-256.
pub record Hashes : Type 0 where
  pub hash_password : ℕ → Text → Text
  pub verify_password : Text → Text → Bool
  pub hash_token : Text → Text

pub data Reply : Type 0 where
  logged_in : Text → UserRole → Text → Reply
  created : Text → ℕ → UserRole → Reply
  no_content : Reply
  refused : ℕ → Text → Reply
  too_many_requests : ℕ → Reply

abbrev pub login_per_ip : RateLimitRule
login_per_ip = record { max_hits = 20; window_seconds = 600 }

abbrev pub login_backoff_rule : BackoffRule
login_backoff_rule = record { free_retries = 3; base_seconds = 1; max_seconds = 900 }

abbrev pub signup_per_ip : RateLimitRule
signup_per_ip = record { max_hits = 10; window_seconds = 600 }

abbrev pub verify_per_ip : RateLimitRule
verify_per_ip = record { max_hits = 20; window_seconds = 600 }

abbrev pub resend_per_ip : RateLimitRule
resend_per_ip = record { max_hits = 5; window_seconds = 600 }

abbrev pub resend_per_email : RateLimitRule
resend_per_email = record { max_hits = 5; window_seconds = 600 }

abbrev pub invite_per_admin : RateLimitRule
invite_per_admin = record { max_hits = 50; window_seconds = 600 }

abbrev pub session_ttl : ℕ
session_ttl = 1209600

abbrev pub verification_ttl : ℕ
verification_ttl = 86400

abbrev pub invite_ttl : ℕ
invite_ttl = 1209600

abbrev pub password_min_length : ℕ
password_min_length = 8

-- `_too_many_requests`
abbrev pub too_many : ℕ → Reply
too_many seconds = too_many_requests (max 1 seconds)

unfoldable pub user_with_email : Text → List User → Option User
user_with_email email [] = none
user_with_email email (u ∷ us) = if u.email == email then some u else user_with_email email us

unfoldable pub user_with_id : ℕ → List User → Option User
user_with_id id [] = none
user_with_id id (u ∷ us) = if u.id == id then some u else user_with_id id us

-- `user.verified = True`
unfoldable pub set_verified : ℕ → List User → List User
set_verified id [] = []
set_verified id (u ∷ us) =
    let rest = set_verified id us in
    if u.id == id then record u { verified = true } ∷ us else u ∷ rest

unfoldable pub create_session : User → Text → ℕ → Tables → Tables
create_session u token now tables = record tables {
  sessions = put tables.sessions token (record { user_id = u.id; expires_at = now + session_ttl });
}

abbrev pub live_user : List User → ℕ → Option LoginSession → Option User
live_user users now none = none
live_user users now (some login) =
    if ltb login.expires_at now then none else user_with_id login.user_id users

unfoldable pub resolve_session : Tables → Text → ℕ → Option User
resolve_session tables token now = live_user tables.users now (get tables.sessions token)

unfoldable pub delete_session : Text → Tables → Tables
delete_session token tables = record tables { sessions = remove tables.sessions token }

-- `_issue_verification`, with the token that is drawn
unfoldable pub issue_verification : Hashes → User → Text → ℕ → Tables → Tables
issue_verification hashes u token now tables = record tables {
  verifications =
      record {
        token_hash = hashes.hash_token token;
        user_id = u.id;
        expires_at = now + verification_ttl;
      }
      ∷ keep (λ row. not (row.user_id == u.id)) tables.verifications;
  outbox = tables.outbox ++ verification_mail u.email token ∷ [];
}
