-- ===== src/SelfUpdate/Order.antt =====
-- internal/selfupdate/update.go: Compare is the lexicographic order of the versions.
use ai_config_selector.Prelude.{ℕ, ◌<◌, true, ◌≡◌, ◌⊎◌, ◌↔◌, arith}
use ai_config_selector.Prelude.Int.{ℤ, pos, ltb_ℤ}
use ai_config_selector.SelfUpdate.{Version, compare_then, compare_versions, available, downgrade}

-- `b` is a later version than `a`.
abbrev pub Later : Version → Version → Type 0
Later a b =
    (a.major < b.major)
    ⊎ ((a.major ≡ b.major) × ((a.minor < b.minor) ⊎ ((a.minor ≡ b.minor) × (a.patch < b.patch))))

compare_then-negative :
    (a b : ℕ) (r : ℤ)
    → (ltb_ℤ (compare_then a b r) (pos 0) ≡ true) ↔ ((a < b) ⊎ ((a ≡ b) × (ltb_ℤ r (pos 0) ≡ true)))
compare_then-negative a b r = (λ h. ground arith, λ h. ground arith)

compare_then-positive :
    (a b : ℕ) (r : ℤ)
    → (ltb_ℤ (pos 0) (compare_then a b r) ≡ true) ↔ ((b < a) ⊎ ((b ≡ a) × (ltb_ℤ (pos 0) r ≡ true)))
compare_then-positive a b r = (λ h. ground arith, λ h. ground arith)

-- An update is available exactly if the target is a later version than the current one, and a
-- downgrade is one exactly if it is an earlier version.
pub available_iff :
    (current target : Version)
    → ((available current target ≡ true) ↔ Later current target)
      × ((downgrade current target ≡ true) ↔ Later target current)
unfolding available downgrade compare_versions
available_iff current target =
    let last = compare_then current.patch target.patch (pos 0) in
    let middle = compare_then current.minor target.minor last in
    let (a, a₁) = compare_then-negative current.major target.major middle in
    let (b, b₁) = compare_then-negative current.minor target.minor last in
    let (c, c₁) = compare_then-negative current.patch target.patch (pos 0) in
    let (d, d₁) = compare_then-positive current.major target.major middle in
    let (e, e₁) = compare_then-positive current.minor target.minor last in
    let (f, f₁) = compare_then-positive current.patch target.patch (pos 0) in
    ((ground arith, ground arith), (ground arith, ground arith))
