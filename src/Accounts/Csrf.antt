-- ===== src/Accounts/Csrf.antt =====
-- The CSRF middleware of server/app/api.py and `csrf_tokens_match` of server/app/security.py.
use image_genie.Base.{
  ℕ, ◌≡◌, refl, sym, ap, ◌↔◌, Bool, true, false, not, ◌&&◌, ◌||◌, Option, none, some, List, [], ◌∷◌,
  ◌++◌, if◌then◌else◌, ◌==◌, length, drop, drop-append, Text, codes, text_beq_iff, starts_with,
  starts_with-append, text_eq, nat_eq,
}
use image_genie.ArtifactKeys.{is_empty}

-- Membership in one of the two frozen sets.
abbrev pub member : Text → List Text → Bool
member t [] = false
member t (u ∷ us) = (u == t) || member t us

abbrev pub csrf_safe_methods : List Text
csrf_safe_methods = codes "GET" ∷ codes "HEAD" ∷ codes "OPTIONS" ∷ []

abbrev pub csrf_exempt_paths : List Text
csrf_exempt_paths =
    codes "/auth/login"
    ∷ codes "/auth/signup"
    ∷ codes "/auth/verify-email"
    ∷ codes "/auth/verify-email/resend"
    ∷ []

-- A missing value and an empty one are alike.
unfoldable pub csrf_tokens_match : Option Text → Option Text → Bool
csrf_tokens_match none header = false
csrf_tokens_match (some []) header = false
csrf_tokens_match (some (c ∷ cookie)) none = false
csrf_tokens_match (some (c ∷ cookie)) (some []) = false
csrf_tokens_match (some (c ∷ cookie)) (some (d ∷ header)) = (c ∷ cookie) == (d ∷ header)

-- `path or "/"`
abbrev or_slash : Text → Text
or_slash [] = codes "/"
or_slash (c ∷ s) = c ∷ s

-- The path relative to the mount.
unfoldable pub relative_path : Text → Text → Text
relative_path root_path path =
    if not (is_empty root_path) && starts_with path root_path
    then or_slash (drop (length root_path) path)
    else path

-- Whether the request goes on to its route; it is answered by 403 otherwise.
unfoldable pub enforce_csrf : Text → Text → Text → Option Text → Option Text → Bool
unfolding relative_path
enforce_csrf root_path method path cookie header =
    member method csrf_safe_methods
    || (member (relative_path root_path path) csrf_exempt_paths || csrf_tokens_match cookie header)

csrf_tokens_match_iff :
    (cookie header : Option Text)
    → (csrf_tokens_match cookie header ≡ true)
      ↔ ((c : ℕ) × (token : Text) × (cookie ≡ some (c ∷ token)) × (header ≡ some (c ∷ token)))
unfolding csrf_tokens_match
csrf_tokens_match_iff none header = (λ h. absurd (cc h), λ (c, token, e, _). absurd (cc e))
csrf_tokens_match_iff (some []) header = (λ h. absurd (cc h), λ (c, token, e, _). absurd (cc e))
csrf_tokens_match_iff (some (c ∷ cookie)) none =
    (λ h. absurd (cc h), λ (c, token, _, e). absurd (cc e))
csrf_tokens_match_iff (some (c ∷ cookie)) (some []) =
    (λ h. absurd (cc h), λ (c, token, _, e). absurd (cc e))
csrf_tokens_match_iff (some (c ∷ cookie)) (some (d ∷ header)) =
    let compared = text_beq_iff (c ∷ cookie) (d ∷ header) in
    (λ h. (c, cookie, refl, ap some (sym (compared.0 h))), λ (b, token, e, f). compared.1 (cc))

-- A request whose method changes state, to a path that is not exempt below its mount, goes on exactly if it brings the same
-- non-empty token in the cookie and in the header.
pub enforce_csrf_iff :
    (root_path method path : Text) (cookie header : Option Text)
    → member method csrf_safe_methods ≡ false
    → member (relative_path root_path path) csrf_exempt_paths ≡ false
    → (enforce_csrf root_path method path cookie header ≡ true)
      ↔ ((c : ℕ) × (token : Text) × (cookie ≡ some (c ∷ token)) × (header ≡ some (c ∷ token)))
unfolding enforce_csrf
enforce_csrf_iff root_path method path cookie header unsafe guarded =
    rw (unsafe, guarded) (csrf_tokens_match_iff cookie header)

-- A path that is not empty is treated alike below a mount and standing alone.
pub enforce_csrf-mounted :
    (r : ℕ) (root_path method : Text) (c : ℕ) (path : Text) (cookie header : Option Text)
    → enforce_csrf (r ∷ root_path) method ((r ∷ root_path) ++ (c ∷ path)) cookie header
      ≡ enforce_csrf [] method (c ∷ path) cookie header
unfolding enforce_csrf relative_path
enforce_csrf-mounted r root_path method c path cookie header =
    let begins : starts_with ((r ∷ root_path) ++ (c ∷ path)) (r ∷ root_path) ≡ true =
      starts_with-append (r ∷ root_path) (c ∷ path) in
    let rest : drop (length (r ∷ root_path)) ((r ∷ root_path) ++ (c ∷ path)) ≡ c ∷ path =
      drop-append (r ∷ root_path) (c ∷ path) in
    rw (begins, rest) refl
