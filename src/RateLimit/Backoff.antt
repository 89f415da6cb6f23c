-- ===== src/RateLimit/Backoff.antt =====
-- The lockout ladder of repeated failed logins.
use image_genie.Base.{
  ℕ, suc, ◌+◌, ◌-◌, ◌*◌, ◌^◌, ◌≤◌, ◌<◌, min, ◌≡◌, refl, sym, ap, ◌∙◌, inl, inr, none, List, [], ◌∷◌,
  arith, leb, if◌then◌else◌, Bool-cases, ◌==◌, beq_refl, Text, text_beq_iff, get, get-put,
  get-remove, text_eq, nat_eq,
}
use native.Mathlib.Nat.{add-zero, zero-add}
use mathlib.Core.Path.{subst}
use image_genie.RateLimit.{
  BackoffRule, Streak, or_fresh, LoginBackoff, streak_of, fail_streak, record_failure,
  record_success, locked_for,
}

-- Failed logins, each an account key and a moment, in order.
abbrev pub fail_all : LoginBackoff → List (Text × ℕ) → LoginBackoff
fail_all b [] = b
fail_all b ((key, moment) ∷ fs) = fail_all (record_failure b key moment) fs

abbrev pub failures_of : Text → List (Text × ℕ) → ℕ
failures_of k [] = 0
failures_of k ((key, moment) ∷ fs) =
    let rest = failures_of k fs in if key == k then suc rest else rest

-- The delay that the n-th failure in a row earns.
abbrev pub ladder : BackoffRule → ℕ → ℕ
ladder rule n =
    if leb n rule.free_retries
    then 0
    else min (rule.base_seconds * 2 ^ (n - rule.free_retries - 1)) rule.max_seconds

streak_of-record_failure :
    (b : LoginBackoff) (k j : Text) (m : ℕ)
    → streak_of (record_failure b k m) j
      ≡ (if k == j then fail_streak b.rule m (streak_of b j) else streak_of b j)
unfolding record_failure or_fresh
streak_of-record_failure b k j m = rw get-put (elim (Bool-cases (k == j)) [
  | inl same ↦ let e : k ≡ j = (text_beq_iff _ _).0 same in rw (same, e) refl
  | inr other ↦ rw other refl
])

-- A streak of `n` failures that has not used up its grace is not locked.
record InGrace (rule : BackoffRule) (n : ℕ) (streak : Streak) : Type 0 where
  counted : streak.failures ≡ n
  unlocked : n ≤ rule.free_retries → streak.locked_until ≡ 0

fail_streak-InGrace :
    (rule : BackoffRule) (m n : ℕ) (streak : Streak)
    → InGrace rule n streak
    → InGrace rule (suc n) (fail_streak rule m streak)
unfolding fail_streak
fail_streak-InGrace rule m n streak h = record {
  counted = ground (arith, h.counted);
  unlocked = λ le. ground (arith, h.counted, h.unlocked (omega arith));
}

rule-fail_all : (b : LoginBackoff) (fs : List (Text × ℕ)) → (fail_all b fs).rule ≡ b.rule
unfolding record_failure
rule-fail_all b [] = refl
rule-fail_all b ((key, m) ∷ fs) = rule-fail_all (record_failure b key m) fs

fail_all-InGrace :
    (b : LoginBackoff) (k : Text) (n : ℕ) (fs : List (Text × ℕ))
    → InGrace b.rule n (streak_of b k)
    → InGrace b.rule (n + failures_of k fs) (streak_of (fail_all b fs) k)
unfolding record_failure
fail_all-InGrace b k n [] h = rw add-zero h
fail_all-InGrace b k n ((key, m) ∷ fs) h = elim (Bool-cases (key == k)) [
  | inl same ↦
      let more = fail_streak-InGrace b.rule m n (streak_of b k) h in
      let here : InGrace b.rule (suc n) (streak_of (record_failure b key m) k) =
        rw (streak_of-record_failure b key k m, same) more in
      let counted : n + suc (failures_of k fs) ≡ suc n + failures_of k fs = omega arith in
      rw (same, counted) (fail_all-InGrace (record_failure b key m) k (suc n) fs here)
  | inr other ↦
      let here : InGrace b.rule n (streak_of (record_failure b key m) k) =
        rw (streak_of-record_failure b key k m, other) h in
      rw other (fail_all-InGrace (record_failure b key m) k n fs here)
]

locked_for-streak :
    (b : LoginBackoff) (k : Text) (m : ℕ) → locked_for b k m ≡ (streak_of b k).locked_until - m
unfolding locked_for or_fresh
locked_for-streak b k m = ground arith

fail_streak-ladder :
    (rule : BackoffRule) (m n : ℕ) (streak : Streak)
    → InGrace rule n streak
    → n < rule.free_retries + 1024
    → (fail_streak rule m streak).locked_until - m ≡ ladder rule (suc n)
unfolding fail_streak
fail_streak-ladder rule m n streak h few = ground (arith, h.counted, h.unlocked, few)

-- Whatever accounts fail in between: right after its n-th failure in a row an account is locked out
-- for what the ladder says, nothing for the free retries, then the base delay, doubled each time up to the cap, as long
-- as fewer than 1,024 failures were penalized.
pub locked_for-record_failure :
    (b : LoginBackoff) (k : Text) (fs : List (Text × ℕ)) (m : ℕ)
    → get b.key_to_streak k ≡ none
    → failures_of k fs < b.rule.free_retries + 1024
    → locked_for (record_failure (fail_all b fs) k m) k m ≡ ladder b.rule (suc (failures_of k fs))
unfolding or_fresh
locked_for-record_failure b k fs m none_yet few =
    let fresh : InGrace b.rule 0 (streak_of b k) =
      rw none_yet (record { counted = refl; unlocked = λ _. refl }) in
    let grown : InGrace b.rule (failures_of k fs) (streak_of (fail_all b fs) k) =
      rw zero-add at (fail_all-InGrace b k 0 fs fresh) in
    rw (locked_for-streak, streak_of-record_failure, beq_refl k)
      (fail_streak-ladder (fail_all b fs).rule m (failures_of k fs) _
          (subst (λ r. InGrace r (failures_of k fs) (streak_of (fail_all b fs) k))
            (sym (rule-fail_all b fs)) grown)
          (rw (rule-fail_all b fs) few)
        ∙ ap (λ r. ladder r (suc (failures_of k fs))) (rule-fail_all b fs))

streak_of-record_success :
    (b : LoginBackoff) (k j : Text)
    → streak_of (record_success b k) j ≡ (if k == j then or_fresh none else streak_of b j)
unfolding record_success
streak_of-record_success b k j =
    rw get-remove
      (elim (Bool-cases (k == j)) [ inl same ↦ rw same refl | inr other ↦ rw other refl ])

-- A success ends the account's lockout and its streak, and leaves every other account as it was.
pub record_success_lem :
    (b : LoginBackoff) (k j : Text) (m : ℕ)
    → (locked_for (record_success b k) k m ≡ 0)
      × (get (record_success b k).key_to_streak k ≡ none)
      × (locked_for (record_success b k) j m ≡ (if k == j then 0 else locked_for b j m))
record_success_lem b k j m = (
  rw (locked_for-streak, streak_of-record_success, beq_refl k) (unfold or_fresh in omega arith),
  unfold record_success in rw (get-remove, beq_refl k) refl,
  elim (Bool-cases (k == j)) [
    | inl same ↦
        rw (locked_for-streak, streak_of-record_success, same) (unfold or_fresh in omega arith)
    | inr other ↦
        rw (locked_for-streak, streak_of-record_success, other) (rw locked_for-streak refl)
  ],
)
