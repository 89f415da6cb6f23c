-- ===== src/Accounts/Tokens.antt =====
-- A verification token is used at most once, and an account has at most one.
use image_genie.Base.{
  ℕ, ◌≤◌, ◌≡◌, refl, sym, ◌∙◌, inl, inr, true, not, none, some, List, [], ◌∷◌, ◌++◌, arith,
  if◌then◌else◌, Bool-cases, Option-cases, ◌==◌, keep, count, Text, codes, text_beq_iff, text_eq,
  nat_eq,
}
use image_genie.RateLimit.{check}
use image_genie.Accounts.{
  User, EmailVerification, Tables, Server, Moment, Hashes, refused, verify_per_ip,
  issue_verification,
}
use image_genie.Accounts.Routes.{
  limited, verification_with, without_verification, consume, verify_email,
}

verification_with-without :
    (hash : Text) (rows : List EmailVerification)
    → verification_with hash (without_verification hash rows) ≡ none
unfolding verification_with without_verification
verification_with-without hash [] = refl
verification_with-without hash (row ∷ rows) = elim (Bool-cases (row.token_hash == hash)) [
  | inl gone ↦ rw gone (verification_with-without hash rows)
  | inr kept ↦ rw (kept, kept) (verification_with-without hash rows)
]

token_hash-verification_with :
    (hash : Text) (rows : List EmailVerification) (row : EmailVerification)
    → verification_with hash rows ≡ some row
    → row.token_hash ≡ hash
unfolding verification_with
token_hash-verification_with hash [] row h = absurd (cc h)
token_hash-verification_with hash (first ∷ rows) row h =
    elim (Bool-cases (first.token_hash == hash)) [
      | inl here ↦
          let same : first ≡ row = cc (rw here at h) in
          rw (sym same) ((text_beq_iff first.token_hash hash).0 here)
      | inr later ↦ token_hash-verification_with hash rows row (rw later at h)
    ]

-- The rows that `consume` leaves when it finds one.
verifications-consume :
    (row : EmailVerification) (now : Moment) (tables : Tables)
    → (consume (some row) now tables).1.verifications
      ≡ without_verification row.token_hash tables.verifications
verifications-consume row now tables = ground arith

consumed :
    (hash : Text) (now : Moment) (tables : Tables)
    → verification_with hash
        (consume (verification_with hash tables.verifications) now tables).1.verifications
      ≡ none
consumed hash now tables = elim (Option-cases (verification_with hash tables.verifications)) [
  | inl absent ↦ rw (absent, absent) refl
  | inr (row, found) ↦
      let same = token_hash-verification_with hash tables.verifications row found in
      rw (found, verifications-consume row now tables, same)
        (verification_with-without hash tables.verifications)
]

module _ (hashes : Hashes) where
  verify_email_allowed :
      (ip token : Text) (now : Moment) (server : Server)
      → (check server.signup_limiter (codes "verify:ip:" ++ ip) verify_per_ip now.monotonic).0
        ≡ true
      → ((verify_email hashes ip token now server).0
          ≡ (consume
              (verification_with (hashes.hash_token token) server.tables.verifications)
              now
              server.tables).0)
        × ((verify_email hashes ip token now server).1.tables
            ≡ (consume
                (verification_with (hashes.hash_token token) server.tables.verifications)
                now
                server.tables).1)
  unfolding verify_email limited
  verify_email_allowed ip token now server allowed = rw allowed (refl, refl)

  -- A token that was presented once, and not turned away by the limit, is spent whatever came of it: while it is not
  -- issued again, to present it once more, from any address and at any time that the limit allows, is answered by
  -- 400 `invalid_token` and changes no table.
  pub verify_email_once :
      (ip again token : Text) (now later : Moment) (server : Server)
      → (check server.signup_limiter (codes "verify:ip:" ++ ip) verify_per_ip now.monotonic).0
        ≡ true
      → (check
          (verify_email hashes ip token now server).1.signup_limiter
          (codes "verify:ip:" ++ again)
          verify_per_ip
          later.monotonic).0
        ≡ true
      → ((verify_email hashes again token later (verify_email hashes ip token now server).1).0
          ≡ refused 400 (codes "invalid_token"))
        × ((verify_email hashes again token later
              (verify_email hashes ip token now server).1).1.tables
            ≡ (verify_email hashes ip token now server).1.tables)
  verify_email_once ip again token now later server first second =
      let after = (verify_email hashes ip token now server).1 in
      let spent : verification_with (hashes.hash_token token) after.tables.verifications ≡ none =
        rw (verify_email_allowed ip token now server first).1
          (consumed (hashes.hash_token token) now server.tables) in
      let (reply, tables) = verify_email_allowed again token later after second in
      (reply ∙ rw spent refl, tables ∙ rw spent refl)

-- The live tokens of an account.
abbrev pub tokens_of : ℕ → List EmailVerification → ℕ
tokens_of id = count (λ row. row.user_id == id)

pub tokens_of-keep_others :
    (id gone : ℕ) (rows : List EmailVerification)
    → tokens_of id (keep (λ row. not (row.user_id == gone)) rows)
      ≡ (if gone == id then 0 else tokens_of id rows)
tokens_of-keep_others id gone [] = ground arith
tokens_of-keep_others id gone (row ∷ rows) = ground (arith, tokens_of-keep_others id gone rows)

pub tokens_of-without :
    (id : ℕ) (hash : Text) (rows : List EmailVerification)
    → tokens_of id (without_verification hash rows) ≤ tokens_of id rows
unfolding without_verification
tokens_of-without id hash [] = omega arith
tokens_of-without id hash (row ∷ rows) = ground (arith, tokens_of-without id hash rows)

-- After a token is issued to an account it has exactly one, and every other account those it had.
pub tokens_of-issue_verification :
    (hashes : Hashes) (u : User) (token : Text) (now : ℕ) (tables : Tables) (id : ℕ)
    → tokens_of id (issue_verification hashes u token now tables).verifications
      ≡ (if u.id == id then 1 else tokens_of id tables.verifications)
unfolding issue_verification
tokens_of-issue_verification hashes u token now tables id =
    ground (arith, tokens_of-keep_others id u.id tables.verifications)
