-- ===== src/Accounts/Gate.antt =====
-- Accounts come from invites: what holds of the tables after any requests.
use image_genie.Base.{
  ℕ, ◌≤◌, ◌<◌, ◌≡◌, refl, inl, inr, Bool, true, false, Option, none, some, List, [], ◌∷◌, arith,
  ltb, Bool-cases, Option-cases, ◌==◌, All, Text, Dict, get, put, get-put, get-put_self, text_eq,
  nat_eq,
}
use image_genie.Accounts.{
  User, Invite, EmailVerification, Tables, Moment, Hashes, user_with_email, user_with_id,
  set_verified, issue_verification,
}
use image_genie.Accounts.Routes.{is_taken, accept, enrol, without_verification, consume, reissue}
use image_genie.Accounts.Tokens.{tokens_of, tokens_of-keep_others, tokens_of-without}

abbrev has_invite : Option Invite → Bool
has_invite none = false
has_invite (some _) = true

abbrev pub is_invited : Dict Text Invite → Text → Bool
is_invited invites email = has_invite (get invites email)

-- No later user has the same address.
abbrev pub OneUserAnEmail : List User → Type 0
OneUserAnEmail [] = Unit
OneUserAnEmail (u ∷ us) = All (λ later. (later.email == u.email) ≡ false) us × OneUserAnEmail us

pub record IsGated (tables : Tables) : Type 0 where
  pub invited : All (λ u. is_invited tables.invites u.email ≡ true) tables.users
  pub emails : OneUserAnEmail tables.users
  pub ids : All (λ u. u.id < tables.next_user_id) tables.users
  pub tokens : (id : ℕ) → tokens_of id tables.verifications ≤ 1

pub All-weaken :
    {P Q : User → Type 0} (us : List User) → ((u : User) → P u → Q u) → All P us → All Q us
All-weaken [] f _ = tt
All-weaken (u ∷ us) f (p, ps) = (f u p, All-weaken us f ps)

All-set_verified :
    (P : User → Type 0) (id : ℕ) (us : List User)
    → ((u : User) → P u → P (record u { verified = true }))
    → All P us
    → All P (set_verified id us)
unfolding set_verified
All-set_verified P id [] f _ = tt
All-set_verified P id (u ∷ us) f (p, ps) = elim (Bool-cases (u.id == id)) [
  | inl here ↦ rw here (f u p, ps)
  | inr other ↦ rw other (p, All-set_verified P id us f ps)
]

OneUserAnEmail-set_verified :
    (id : ℕ) (us : List User) → OneUserAnEmail us → OneUserAnEmail (set_verified id us)
unfolding set_verified
OneUserAnEmail-set_verified id [] _ = tt
OneUserAnEmail-set_verified id (u ∷ us) (apart, rest) = elim (Bool-cases (u.id == id)) [
  | inl here ↦ rw here (apart, rest)
  | inr other ↦ rw other (
    All-set_verified (λ later. (later.email == u.email) ≡ false) id us (λ _ h. h) apart,
    OneUserAnEmail-set_verified id us rest,
  )
]

apart-user_with_email :
    (email : Text) (us : List User)
    → user_with_email email us ≡ none
    → All (λ u. (u.email == email) ≡ false) us
unfolding user_with_email
apart-user_with_email email [] _ = tt
apart-user_with_email email (u ∷ us) h = elim (Bool-cases (u.email == email)) [
  | inl here ↦ absurd (cc (rw here at h))
  | inr other ↦ (other, apart-user_with_email email us (rw other at h))
]

pub is_invited-put :
    (invites : Dict Text Invite) (email : Text) (invite : Invite) (other : Text)
    → is_invited invites other ≡ true
    → is_invited (put invites email invite) other ≡ true
is_invited-put invites email invite other h = elim (Bool-cases (email == other)) [
  | inl same ↦ rw (get-put invites email other invite, same) refl
  | inr apart ↦ rw (get-put invites email other invite, apart) h
]

is_invited-put_self :
    (invites : Dict Text Invite) (email : Text) (invite : Invite)
    → is_invited (put invites email invite) email ≡ true
is_invited-put_self invites email invite = rw (get-put_self invites email invite) refl

module _ (hashes : Hashes) where
  IsGated-issue_verification :
      (u : User) (token : Text) (now : ℕ) (tables : Tables)
      → IsGated tables
      → IsGated (issue_verification hashes u token now tables)
  unfolding issue_verification
  IsGated-issue_verification u token now tables h = record {
    invited = h.invited;
    emails = h.emails;
    ids = h.ids;
    tokens = λ id. ground (arith, tokens_of-keep_others id u.id tables.verifications, h.tokens id);
  }

  IsGated-enrol :
      (invite : Invite) (email password : Text) (salt : ℕ) (token : Text) (now : Moment)
      (tables : Tables)
      → user_with_email email tables.users ≡ none
      → IsGated tables
      → IsGated (enrol hashes invite email password salt token now tables).1
  IsGated-enrol invite email password salt token now tables free h =
      IsGated-issue_verification _ token now.utc _ (record {
        invited = (
          is_invited-put_self tables.invites email _,
          All-weaken tables.users (λ u. is_invited-put tables.invites email _ u.email) h.invited,
        );
        emails = (apart-user_with_email email tables.users free, h.emails);
        ids = (omega arith, All-weaken tables.users (λ u low. omega (arith, low)) h.ids);
        tokens = h.tokens;
      })

  pub IsGated-accept :
      (found : Option Invite) (email password : Text) (salt : ℕ) (token : Text) (now : Moment)
      (tables : Tables)
      → IsGated tables
      → IsGated (accept hashes found email password salt token now tables).1
  IsGated-accept none email password salt token now tables h = h
  IsGated-accept (some invite) email password salt token now tables h =
      elim (Bool-cases (ltb invite.expires_at now.utc)) [
        | inl expired ↦ rw expired h
        | inr valid ↦ elim (Option-cases (user_with_email email tables.users)) [
          | inr (u, taken) ↦ rw (valid, taken) h
          | inl free ↦ elim (Bool-cases invite.accepted) [
            | inl spent ↦ rw (valid, free, spent) h
            | inr unused ↦
                rw (valid, free, unused)
                  (IsGated-enrol invite email password salt token now tables free h)
          ]
        ]
      ]

  pub IsGated-reissue :
      (found : Option User) (token : Text) (now : Moment) (tables : Tables)
      → IsGated tables
      → IsGated (reissue hashes found token now tables)
  unfolding issue_verification
  IsGated-reissue none token now tables h = h
  IsGated-reissue (some u) token now tables h = elim (Bool-cases u.verified) [
    | inl verified ↦ rw verified h
    | inr unverified ↦ rw unverified (IsGated-issue_verification u token now.utc tables h)
  ]

IsGated-without :
    (hash : Text) (tables : Tables)
    → IsGated tables
    → IsGated (record tables { verifications = without_verification hash tables.verifications })
IsGated-without hash tables h = record {
  invited = h.invited;
  emails = h.emails;
  ids = h.ids;
  tokens = λ id. omega (arith, tokens_of-without id hash tables.verifications, h.tokens id);
}

pub IsGated-consume :
    (found : Option EmailVerification) (now : Moment) (tables : Tables)
    → IsGated tables
    → IsGated (consume found now tables).1
IsGated-consume none now tables h = h
IsGated-consume (some row) now tables h =
    let spent = IsGated-without row.token_hash tables h in
    elim (Bool-cases (ltb row.expires_at now.utc)) [
      | inl expired ↦ rw expired spent
      | inr valid ↦ elim (Bool-cases (is_taken (user_with_id row.user_id tables.users))) [
        | inr unknown ↦ rw (valid, unknown) spent
        | inl known ↦
            rw (valid, known)
              (record {
                invited =
                    All-set_verified (λ u. is_invited tables.invites u.email ≡ true) row.user_id
                      tables.users (λ _ p. p) h.invited;
                emails = OneUserAnEmail-set_verified row.user_id tables.users h.emails;
                ids =
                    All-set_verified (λ u. u.id < tables.next_user_id) row.user_id tables.users
                      (λ _ p. p) h.ids;
                tokens = spent.tokens;
              })
      ]
    ]
