-- ===== src/RateLimit/Admission.antt =====
-- How many hits a fixed window admits.
use image_genie.Base.{
  ℕ, suc, ◌+◌, ◌-◌, ◌≤◌, ◌<◌, min, max, ◌≡◌, refl, ap, ◌∙◌, inl, inr, Bool, true, false, ◌&&◌,
  Option, none, some, List, [], ◌∷◌, arith, leb, if◌then◌else◌, Bool-cases, ◌==◌, All, Text,
  text_beq_iff, get, get-put, get-put_self, text_eq, nat_eq,
}
use image_genie.RateLimit.{RateLimitRule, Window, FixedWindowRateLimiter, check, hit, retry_after}

-- One request to a limiter.
pub record Hit : Type 0 where
  pub key : Text
  pub rule : RateLimitRule
  pub moment : ℕ

-- How many of a sequence of requests the limiter admits under one key.
abbrev pub admitted : Text → FixedWindowRateLimiter → List Hit → ℕ
admitted k l [] = 0
admitted k l (h ∷ hs) =
    let step = check l h.key h.rule h.moment in
    let rest = admitted k step.1 hs in if (h.key == k) && step.0 then suc rest else rest

abbrev pub requests : Text → List Hit → ℕ
requests k [] = 0
requests k (h ∷ hs) = let rest = requests k hs in if h.key == k then suc rest else rest

module _ (k : Text) (rule : RateLimitRule) (s : ℕ) where
  -- A request under the key is made by the rule, in the span of one window from `s` on.
  abbrev pub InSpan : Hit → Type 0
  InSpan h = h.key ≡ k → (h.rule ≡ rule) × (s ≤ h.moment) × (h.moment < s + rule.window_seconds)

  check_other :
      (l : FixedWindowRateLimiter) (h : Hit)
      → (h.key == k) ≡ false
      → get (check l h.key h.rule h.moment).1.key_to_window k ≡ get l.key_to_window k
  unfolding check
  check_other l h e = rw (get-put, e) refl

  check_same :
      (l : FixedWindowRateLimiter) (h : Hit)
      → (h.key == k) ≡ true
      → ((check l h.key h.rule h.moment).0 ≡ (hit h.rule h.moment (get l.key_to_window k)).0)
        × (get (check l h.key h.rule h.moment).1.key_to_window k
            ≡ some (hit h.rule h.moment (get l.key_to_window k)).1)
  unfolding check
  check_same l h e =
      let same : h.key ≡ k = (text_beq_iff _ _).0 e in
      (rw (← same) refl, rw (get-put, e) (rw (← same) refl))

  none_after_check :
      (l : FixedWindowRateLimiter) (h : Hit) (hs : List Hit)
      → (h.key == k) ≡ false
      → admitted k l (h ∷ hs) ≡ admitted k (check l h.key h.rule h.moment).1 hs
  none_after_check l h hs e = rw e refl

  -- A hit before the window resets counts, and is allowed up to the cap.
  hit_in_window :
      (h : Hit) (w : Window)
      → (h.rule ≡ rule) × (s ≤ h.moment) × (h.moment < s + rule.window_seconds)
      → s + rule.window_seconds ≤ w.resets_at
      → hit h.rule h.moment (some w)
        ≡ (leb (w.hits + 1) rule.max_hits, record w { hits = w.hits + 1 })
  unfolding hit
  hit_in_window h w span long = ground arith

  admitted_same :
      (l : FixedWindowRateLimiter) (h : Hit) (hs : List Hit)
      → (h.key == k) ≡ true
      → admitted k l (h ∷ hs) ≡ (
          let step = check l h.key h.rule h.moment in
          if step.0 then suc (admitted k step.1 hs) else admitted k step.1 hs)
  admitted_same l h hs e = rw e refl

  -- The answer and the window that a hit under the key leaves, from the entry that it found.
  check_found :
      (l : FixedWindowRateLimiter) (h : Hit) {o : Option Window} {b : Bool} {w : Window}
      → (h.key == k) ≡ true
      → get l.key_to_window k ≡ o
      → hit h.rule h.moment o ≡ (b, w)
      → ((check l h.key h.rule h.moment).0 ≡ b)
        × (get (check l h.key h.rule h.moment).1.key_to_window k ≡ some w)
  check_found l h same found e =
      let (answer, stored) = check_same l h same in
      let joined : hit h.rule h.moment (get l.key_to_window k) ≡ _ = rw found e in
      (answer ∙ ap (λ p. p.0) joined, stored ∙ ap (λ p. some p.1) joined)

  -- A window that outlasts the span admits what is left of its hits.
  admitted_in_window :
      (l : FixedWindowRateLimiter) (hs : List Hit) (w : Window)
      → All InSpan hs
      → get l.key_to_window k ≡ some w
      → s + rule.window_seconds ≤ w.resets_at
      → admitted k l hs ≡ min (requests k hs) (rule.max_hits - w.hits)
  admitted_in_window l [] w _ _ _ = omega arith
  admitted_in_window l (h ∷ hs) w (span, spans) found long = elim (Bool-cases (h.key == k)) [
    | inl same ↦
        let (answer, stored) =
          check_found l h same found (hit_in_window h w (span ((text_beq_iff _ _).0 same)) long) in
        let rest =
          admitted_in_window (check l h.key h.rule h.moment).1 hs (record w { hits = w.hits + 1 })
            spans stored long in
        admitted_same l h hs same ∙ rw (answer, rest, same) (ground arith)
    | inr other ↦
        rw (none_after_check l h hs other, other)
          (admitted_in_window (check l h.key h.rule h.moment).1 hs w spans
            (rw (check_other l h other) found) long)
  ]

  -- A hit that opens a window is allowed, and the window outlasts the span.
  opened : (h : Hit) → Window
  opened h = record { hits = 1; resets_at = h.moment + h.rule.window_seconds }

  admitted_from_open :
      (l : FixedWindowRateLimiter) (h : Hit) (hs : List Hit) {o : Option Window}
      → (h.key == k) ≡ true
      → All InSpan (h ∷ hs)
      → get l.key_to_window k ≡ o
      → hit h.rule h.moment o ≡ (true, opened h)
      → admitted k l (h ∷ hs) ≡ suc (min (requests k hs) (rule.max_hits - 1))
  unfolding opened
  admitted_from_open l h hs same (span, spans) found e =
      let (answer, stored) = check_found l h same found e in
      let in_span = span ((text_beq_iff _ _).0 same) in
      let (by_rule, after, _) = in_span in
      let rest =
        admitted_in_window (check l h.key h.rule h.moment).1 hs _ spans stored
          (rw by_rule (omega arith)) in
      admitted_same l h hs same ∙ rw (answer, rest) refl

  -- From a key with no window, the hits of one window's span that are admitted are exactly the
  -- first `max_hits` (and the opening one, where `max_hits` is 0).
  pub admitted_fresh :
      (l : FixedWindowRateLimiter) (hs : List Hit)
      → All InSpan hs
      → get l.key_to_window k ≡ none
      → admitted k l hs ≡ min (requests k hs) (max 1 rule.max_hits)
  unfolding hit opened
  admitted_fresh l [] _ _ = omega arith
  admitted_fresh l (h ∷ hs) (span, spans) found = elim (Bool-cases (h.key == k)) [
    | inl same ↦ admitted_from_open l h hs same (span, spans) found refl ∙ rw same (omega arith)
    | inr other ↦
        rw (none_after_check l h hs other, other)
          (admitted_fresh (check l h.key h.rule h.moment).1 hs spans
            (rw (check_other l h other) found))
  ]

  -- What the current window of a key can still admit.
  abbrev remaining : Option Window → ℕ
  remaining none = 0
  remaining (some w) = rule.max_hits - w.hits

  -- One hit under the key: it opens a window, or takes one from what remains of the current one.
  admitted-le_one_hit :
      (l : FixedWindowRateLimiter) (h : Hit) (hs : List Hit) (o : Option Window)
      → All InSpan (h ∷ hs)
      → (h.key == k) ≡ true
      → get l.key_to_window k ≡ o
      → ((o' : Option Window)
          → get (check l h.key h.rule h.moment).1.key_to_window k ≡ o'
          → admitted k (check l h.key h.rule h.moment).1 hs ≤ remaining o' + max 1 rule.max_hits)
      → admitted k l (h ∷ hs) ≤ remaining o + max 1 rule.max_hits
  unfolding hit opened
  admitted-le_one_hit l h hs none spans same found ih =
      rw (admitted_from_open l h hs same spans found refl) (omega arith)
  admitted-le_one_hit l h hs (some w) (span, spans) same found ih =
      elim (Bool-cases (leb w.resets_at h.moment)) [
        | inl over ↦
            rw (admitted_from_open l h hs same (span, spans) found (rw (over, hit) refl))
              (omega arith)
        | inr running ↦
            let (by_rule, _, _) = span ((text_beq_iff _ _).0 same) in
            let (answer, stored) =
              check_found l h {b = leb (w.hits + 1) h.rule.max_hits}
                {w = record w { hits = w.hits + 1 }} same found (rw (running, hit) refl) in
            let rest = ih (some (record w { hits = w.hits + 1 })) stored in
            rw (admitted_same l h hs same, answer, by_rule) (ground arith)
      ]

  admitted-le_remaining :
      (l : FixedWindowRateLimiter) (hs : List Hit) (o : Option Window)
      → All InSpan hs
      → get l.key_to_window k ≡ o
      → admitted k l hs ≤ remaining o + max 1 rule.max_hits
  admitted-le_remaining l [] o _ _ = omega arith
  admitted-le_remaining l (h ∷ hs) o (span, spans) found = elim (Bool-cases (h.key == k)) [
    | inr other ↦ rw (none_after_check l h hs other) (
        admitted-le_remaining (check l h.key h.rule h.moment).1 hs o spans
          (rw (check_other l h other) found))
    | inl same ↦
        admitted-le_one_hit l h hs o (span, spans) same found
          (λ o' stored. admitted-le_remaining (check l h.key h.rule h.moment).1 hs o' spans stored)
  ]

  remaining-le : (o : Option Window) → remaining o ≤ rule.max_hits
  remaining-le none = omega arith
  remaining-le (some w) = omega arith

  -- Whatever the limiter has seen before, and whatever the order of the clocks, one window's span
  -- admits at most twice the cap under a key (a cap of 0 counted as 1): the burst that straddles a
  -- window boundary.
  pub admitted-le_twice :
      (l : FixedWindowRateLimiter) (hs : List Hit)
      → All InSpan hs
      → admitted k l hs ≤ rule.max_hits + max 1 rule.max_hits
  admitted-le_twice l hs spans = omega (
    arith,
    admitted-le_remaining l hs (get l.key_to_window k) spans refl,
    remaining-le (get l.key_to_window k),
  )

retry_after-check :
    (l : FixedWindowRateLimiter) (k : Text) (rule : RateLimitRule) (now : ℕ)
    → retry_after (check l k rule now).1 k now
      ≡ (hit rule now (get l.key_to_window k)).1.resets_at - now
unfolding check retry_after
retry_after-check l k rule now = rw (get-put_self, retry_after) refl

check-check :
    (l : FixedWindowRateLimiter) (k : Text) (rule : RateLimitRule) (now later : ℕ)
    → (check (check l k rule now).1 k rule later).0
      ≡ (hit rule later (some (hit rule now (get l.key_to_window k)).1)).0
unfolding check
check-check l k rule now later = rw get-put_self refl

hit_refused :
    (rule : RateLimitRule) (now : ℕ) (o : Option Window)
    → (hit rule now o).0 ≡ false
    → (now < (hit rule now o).1.resets_at)
      × ((later : ℕ)
          → (hit rule later (some (hit rule now o).1)).0 ≡ leb (hit rule now o).1.resets_at later)
unfolding hit
hit_refused rule now none h = cc
hit_refused rule now (some w) h = (ground arith, λ later. ground arith)

-- A refused hit: `retry_after` is positive, and the key's next hit is allowed exactly from the
-- moment on at which `retry_after` has run out.
pub check-retry_after :
    (l : FixedWindowRateLimiter) (k : Text) (rule : RateLimitRule) (now : ℕ)
    → (check l k rule now).0 ≡ false
    → (0 < retry_after (check l k rule now).1 k now)
      × ((later : ℕ)
          → (check (check l k rule now).1 k rule later).0
            ≡ leb (now + retry_after (check l k rule now).1 k now) later)
check-retry_after l k rule now refused =
    let (ahead, next) = hit_refused rule now (get l.key_to_window k) (unfold check in refused) in
    rw retry_after-check (
      omega arith,
      λ later. check-check l k rule now later ∙ next later ∙ ap (λ t. leb t later) (omega arith),
    )
