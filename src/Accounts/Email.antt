-- ===== src/Accounts/Email.antt =====
-- `email.strip().lower()` on ASCII, which the routes of server/app/api.py apply to every address.
use image_genie.Base.{ℕ, ◌+◌, Bool, ◌&&◌, ◌||◌, [], ◌∷◌, leb, if◌then◌else◌, Text}
use mathlib.Core.List.{reverse}

-- The ASCII characters that `str.strip` removes.
abbrev pub is_space : ℕ → Bool
is_space c = (leb 9 c && leb c 13) || (leb 28 c && leb c 32)

unfoldable pub lstrip : Text → Text
lstrip [] = []
lstrip (c ∷ s) = if is_space c then lstrip s else c ∷ s

unfoldable pub strip : Text → Text
unfolding lstrip
strip s = reverse (lstrip (reverse (lstrip s)))

abbrev pub to_lower : ℕ → ℕ
to_lower c = if leb 65 c && leb c 90 then c + 32 else c

unfoldable pub lower : Text → Text
lower [] = []
lower (c ∷ s) = to_lower c ∷ lower s

unfoldable pub normalized : Text → Text
unfolding strip lower
normalized email = lower (strip email)
