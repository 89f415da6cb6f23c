-- ===== src/Accounts/Signup.antt =====
-- An account is made by an invite that is open.
use image_genie.Base.{
  ℕ, ◌≤◌, ◌≡◌, refl, inl, inr, true, false, Option, none, some, ◌++◌, arith, ltb, Bool-cases,
  Option-cases, beq_refl, length, Text, codes, get, get-put_self, text_eq, nat_eq,
}
use image_genie.RateLimit.{RateLimitRule, check}
use image_genie.Accounts.Email.{normalized}
use image_genie.Accounts.{
  Invite, Tables, Server, Moment, Hashes, Reply, no_content, signup_per_ip, user_with_email,
  issue_verification,
}
use image_genie.Accounts.Routes.{limited, accept, signing_up, signup}

limited-eq_no_content :
    (key : Text) (rule : RateLimitRule) (now : ℕ) (server : Server) (next : Server → Reply × Server)
    → (limited key rule now server next).0 ≡ no_content
    → (counted : Server) × (counted.tables ≡ server.tables)
      × (limited key rule now server next ≡ next counted)
unfolding limited
limited-eq_no_content key rule now server next h =
    elim (Bool-cases (check server.signup_limiter key rule now).0) [
      | inl allowed ↦ (
        record server { signup_limiter = (check server.signup_limiter key rule now).1 },
        refl,
        rw allowed refl,
      )
      | inr barred ↦ absurd (cc (rw barred at h))
    ]

-- What holds of a signup that was accepted.
pub record IsSignedUp (hashes : Hashes) (email password : Text) (salt : ℕ) (invite : Invite)
    (now : Moment) (before after : Tables) : Type 0 where
  pub invited : get before.invites email ≡ some invite
  pub unspent : invite.accepted ≡ false
  pub in_time : now.utc ≤ invite.expires_at
  pub free : user_with_email email before.users ≡ none
  pub account :
      user_with_email email after.users
      ≡ some (record {
        id = before.next_user_id;
        email = email;
        role = invite.role;
        password_hash = hashes.hash_password salt password;
        verified = false;
      })
  pub spent : get after.invites email ≡ some (record invite { accepted = true })

module _ (hashes : Hashes) where
  accept-IsSignedUp :
      (found : Option Invite) (email password : Text) (salt : ℕ) (token : Text) (now : Moment)
      (tables : Tables)
      → get tables.invites email ≡ found
      → (accept hashes found email password salt token now tables).0 ≡ no_content
      → (invite : Invite) × IsSignedUp hashes email password salt invite now tables
          (accept hashes found email password salt token now tables).1
  unfolding user_with_email issue_verification
  accept-IsSignedUp none email password salt token now tables e h = absurd (cc h)
  accept-IsSignedUp (some invite) email password salt token now tables e h =
      elim (Bool-cases (ltb invite.expires_at now.utc)) [
        | inl expired ↦ absurd (cc (rw expired at h))
        | inr valid ↦ elim (Option-cases (user_with_email email tables.users)) [
          | inr (u, taken) ↦ absurd (cc (rw (valid, taken) at h))
          | inl free ↦ elim (Bool-cases invite.accepted) [
            | inl used ↦ absurd (cc (rw (valid, free, used) at h))
            | inr unused ↦ (
              invite,
              record {
                invited = e;
                unspent = unused;
                in_time = ground arith;
                free = free;
                account = rw (valid, free, unused, beq_refl email) refl;
                spent =
                    rw (valid, free, unused)
                      (get-put_self tables.invites email (record invite { accepted = true }));
              },
            )
          ]
        ]
      ]

  -- A signup that is accepted had an invite for its address that was neither spent nor past its expiry, for an address
  -- without an account, and a password of 8 characters at least; it makes an unverified account of that address, with the
  -- invite's role and the password's hash, and spends the invite.
  pub signup-IsSignedUp :
      (ip address password : Text) (salt : ℕ) (token : Text) (now : Moment) (server : Server)
      → (signup hashes ip address password salt token now server).0 ≡ no_content
      → (8 ≤ length password)
        × (invite : Invite) × IsSignedUp hashes
            (normalized address)
            password
            salt
            invite
            now
            server.tables
            (signup hashes ip address password salt token now server).1.tables
  unfolding signup
  signup-IsSignedUp ip address password salt token now server h =
      let email = normalized address in
      let (counted, same, ran) =
        limited-eq_no_content (codes "signup:ip:" ++ ip) signup_per_ip now.monotonic server
          (signing_up hashes address password salt token now) h in
      let h' = rw ran at h in
      elim (Bool-cases (ltb (length password) 8)) [
        | inl short ↦ absurd (cc (rw short at h'))
        | inr long ↦
            let (invite, signed) =
              accept-IsSignedUp (get counted.tables.invites email) email password salt token now
                counted.tables refl (rw long at h') in
            (ground arith, invite, rw (ran, long) (rw (← same) signed))
      ]
