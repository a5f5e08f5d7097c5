-- ===== src/Errors.antt =====
-- Go errors as values. A wrapped error (`%w`) keeps its cause, which `errors.Is` and
-- `errors.As` find; `%v` and `%s` keep only the text, and give a `failure`.
use Prim.Native.String.{String}
use text.Mathlib.Text.{find?}
use operator_sdk.Base.{Bool, true, false, ◌<>◌, is_some, ◌≡◌, refl, ◌⊎◌, inl, inr}

pub data Error : Type 0 where
  release_not_found upgrade_failed deadline_exceeded : Error
  api_not_found api_conflict already_exists no_match failure : String → Error
  wrap : String → Error → Error

-- `err.Error()`
unfoldable pub message : Error → String
message release_not_found = "release: not found"
message upgrade_failed = "upgrade failed; rollback required"
message deadline_exceeded = "context deadline exceeded"
message (api_not_found m) = m
message (api_conflict m) = m
message (already_exists m) = m
message (no_match m) = m
message (failure m) = m
message (wrap m e) = m <> ": " <> message e

-- `strings.Contains(err.Error(), part)`
unfoldable pub mentions : Error → String → Bool
unfolding message
mentions e part = is_some (find? (message e) part)

-- `errors.Is(err, driver.ErrReleaseNotFound)`
unfoldable pub is_release_not_found : Error → Bool
is_release_not_found release_not_found = true
is_release_not_found (wrap m e) = is_release_not_found e
is_release_not_found _ = false

-- `errors.Is(err, ErrUpgradeFailed)`
unfoldable pub is_upgrade_failed : Error → Bool
is_upgrade_failed upgrade_failed = true
is_upgrade_failed (wrap m e) = is_upgrade_failed e
is_upgrade_failed _ = false

-- `apierrors.IsNotFound(err)`
unfoldable pub is_not_found : Error → Bool
is_not_found (api_not_found m) = true
is_not_found (wrap m e) = is_not_found e
is_not_found _ = false

-- `apierrors.IsAlreadyExists(err)`
unfoldable pub is_already_exists : Error → Bool
is_already_exists (already_exists m) = true
is_already_exists (wrap m e) = is_already_exists e
is_already_exists _ = false

-- `meta.IsNoMatchError(err)`, which looks at the error alone.
unfoldable pub is_no_match : Error → Bool
is_no_match (no_match m) = true
is_no_match _ = false

-- `errors.Is(err, context.DeadlineExceeded)`
unfoldable pub is_deadline_exceeded : Error → Bool
is_deadline_exceeded deadline_exceeded = true
is_deadline_exceeded (wrap m e) = is_deadline_exceeded e
is_deadline_exceeded _ = false

-- A Go pair of a value and an error, of which one is meaningful.
pub data Result {ℓ} (A : Type ℓ) : Type ℓ where
  ok : A → Result A
  err : Error → Result A

pub Result-cases {ℓ} :
    {A : Type ℓ} (r : Result A) → ((a : A) × (r ≡ ok a)) ⊎ ((e : Error) × (r ≡ err e))
Result-cases (ok a) = inl (a, refl)
Result-cases (err e) = inr (e, refl)
