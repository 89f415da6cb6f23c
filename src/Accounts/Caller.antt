-- ===== src/Accounts/Caller.antt =====
-- Who a request comes from: `_client_ip`, `current_user` and `require_admin` of server/app/api.py, and the invite route
-- behind them.
use image_genie.Base.{
  ℕ, ◌+◌, ◌≤◌, ◌≡◌, refl, inl, inr, Bool, true, false, Option, none, some, [], ◌∷◌, ◌++◌, arith,
  ltb, nat_beq, if◌then◌else◌, Bool-cases, Option-cases, Text, codes, contains, get, get-put_self,
  text_eq, nat_eq,
}
use image_genie.ArtifactKeys.Decimal.{decimal}
use image_genie.RateLimit.{check}
use image_genie.Accounts.Email.{strip, normalized}
use image_genie.Accounts.{
  UserRole, user, admin, User, Tables, Server, Moment, Reply, created, refused, resolve_session,
  LoginSession, user_with_id, invite_ttl, invite_per_admin,
}
use image_genie.Accounts.Routes.{create_invite, limited}

-- `s.split(",")[0]`
unfoldable pub before_comma : Text → Text
before_comma [] = []
before_comma (c ∷ s) = let rest = before_comma s in if nat_beq c 44 then [] else c ∷ rest

abbrev host_or_unknown : Option Text → Text
host_or_unknown none = codes "unknown"
host_or_unknown (some host) = host

abbrev forwarded_or : Option Text → Option Text → Text
forwarded_or none host = host_or_unknown host
forwarded_or (some []) host = host_or_unknown host
forwarded_or (some (c ∷ forwarded)) host = strip (before_comma (c ∷ forwarded))

-- The forwarded header counts only if the proxy is trusted.
unfoldable pub client_ip : Bool → Option Text → Option Text → Text
unfolding before_comma
client_ip true forwarded host = forwarded_or forwarded host
client_ip false forwarded host = host_or_unknown host

-- The account of the session cookie; `none` is a 401.
unfoldable pub current_user : Option Text → ℕ → Tables → Option User
current_user none now tables = none
current_user (some []) now tables = none
current_user (some (c ∷ token)) now tables = resolve_session tables (c ∷ token) now

abbrev is_admin : UserRole → Bool
is_admin admin = true
is_admin user = false

-- `require_admin`, and the route that it guards
abbrev pub require_admin : Option User → Server → (User → Reply × Server) → Reply × Server
require_admin none server route = (refused 401 (codes "unauthorized"), server)
require_admin (some u) server route =
    if is_admin u.role then route u else (refused 403 (codes "forbidden"), server)

-- POST /auth/invites
unfoldable pub invite_route : Option Text → Text → UserRole → Moment → Server → Reply × Server
unfolding current_user
invite_route cookie address role now server =
    require_admin (current_user cookie now.utc server.tables) server
      λ caller. create_invite caller address role now server

resolve_session-some :
    (tables : Tables) (token : Text) (now : ℕ) (found : Option LoginSession) (u : User)
    → get tables.sessions token ≡ found
    → resolve_session tables token now ≡ some u
    → (login : LoginSession) × (get tables.sessions token ≡ some login)
      × (now ≤ login.expires_at)
      × (user_with_id login.user_id tables.users ≡ some u)
unfolding resolve_session
resolve_session-some tables token now none u e h = absurd (cc (rw e at h))
resolve_session-some tables token now (some login) u e h =
    elim (Bool-cases (ltb login.expires_at now)) [
      | inl over ↦ absurd (cc (rw (e, over) at h))
      | inr running ↦ (login, e, ground (arith, running), rw (e, running) at h)
    ]

-- The caller: a session of the cookie's token that is not over, and the account that it is of.
current_user-some :
    (cookie : Option Text) (now : ℕ) (tables : Tables) (u : User)
    → current_user cookie now tables ≡ some u
    → (token : Text) × (cookie ≡ some token)
      × ((login : LoginSession) × (get tables.sessions token ≡ some login)
          × (now ≤ login.expires_at)
          × (user_with_id login.user_id tables.users ≡ some u))
unfolding current_user
current_user-some none now tables u h = absurd (cc h)
current_user-some (some []) now tables u h = absurd (cc h)
current_user-some (some (c ∷ token)) now tables u h =
    (c ∷ token, refl, resolve_session-some tables (c ∷ token) now _ u refl h)

-- What stands behind an invite: an unexpired session of the cookie, of an administrator's account; and the invite
-- that is stored for the address, which names that account.
pub record IsInvited (cookie : Option Text) (address : Text) (role : UserRole) (now : Moment)
    (before after : Tables) : Type 0 where
  pub token : Text
  pub presented : cookie ≡ some token
  pub login : LoginSession
  pub session : get before.sessions token ≡ some login
  pub running : now.utc ≤ login.expires_at
  pub caller : User
  pub account : user_with_id login.user_id before.users ≡ some caller
  pub administrator : caller.role ≡ admin
  pub stored :
      get after.invites (normalized address)
      ≡ some (record {
        expires_at = now.utc + invite_ttl;
        accepted = false;
        invited_by = some caller.email;
        role = role;
      })
  pub users : after.users ≡ before.users
  pub sessions : after.sessions ≡ before.sessions

-- What the route stores when it answers with an invite.
record Stored (caller : User) (address : Text) (role : UserRole) (now : Moment)
    (before after : Tables) : Type 0 where
  invite :
      get after.invites (normalized address)
      ≡ some (record {
        expires_at = now.utc + invite_ttl;
        accepted = false;
        invited_by = some caller.email;
        role = role;
      })
  users : after.users ≡ before.users
  sessions : after.sessions ≡ before.sessions

create_invite-Stored :
    (caller : User) (address : Text) (role : UserRole) (now : Moment) (server : Server)
    (email : Text) (expires_at : ℕ) (granted : UserRole)
    → (create_invite caller address role now server).0 ≡ created email expires_at granted
    → Stored caller address role now server.tables
        (create_invite caller address role now server).1.tables
unfolding create_invite limited
create_invite-Stored caller address role now server email expires_at granted h =
    let key = codes "invite:admin:" ++ decimal caller.id in
    elim (Bool-cases (check server.signup_limiter key invite_per_admin now.monotonic).0) [
      | inr barred ↦ absurd (cc (rw barred at h))
      | inl allowed ↦ elim (Bool-cases (contains 64 (normalized address))) [
        | inr malformed ↦ absurd (cc (rw (allowed, malformed) at h))
        | inl good ↦
            rw (allowed, good)
              (record {
                invite = get-put_self server.tables.invites (normalized address) _;
                users = refl;
                sessions = refl;
              })
      ]
    ]

-- An invite is made only for a call whose cookie holds the token of a session that has not expired, of an account that
-- is an administrator's at that moment; it stands for the address under the role asked for, names the administrator,
-- is not accepted, and expires after the invite's time; and no account and no session is changed.
pub invite_route-admin :
    (cookie : Option Text) (address : Text) (role : UserRole) (now : Moment) (server : Server)
    (email : Text) (expires_at : ℕ) (granted : UserRole)
    → (invite_route cookie address role now server).0 ≡ created email expires_at granted
    → IsInvited cookie address role now server.tables
        (invite_route cookie address role now server).1.tables
unfolding invite_route
invite_route-admin cookie address role now server email expires_at granted h =
    elim (Option-cases (current_user cookie now.utc server.tables)) [
      | inl nobody ↦ absurd (cc (rw nobody at h))
      | inr (u, known) ↦ elim (Bool-cases (is_admin u.role)) [
        | inr viewer ↦ absurd (cc (rw (known, viewer) at h))
        | inl administrator ↦
            let (token, presented, (login, session, running, account)) =
              current_user-some cookie now.utc server.tables u known in
            let made =
              create_invite-Stored u address role now server email expires_at granted
                (rw (known, administrator) at h) in
            rw (known, administrator)
              (record {
                token = token;
                presented = presented;
                login = login;
                session = session;
                running = running;
                caller = u;
                account = account;
                administrator = ground arith;
                stored = made.invite;
                users = made.users;
                sessions = made.sessions;
              })
      ]
    ]
