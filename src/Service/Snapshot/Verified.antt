-- ===== src/Service/Snapshot/Verified.antt =====
-- Which configurations a service state vouches for (apps/resticpal-service/src/state.rs).
use resticpal.Prelude.{false, none, is_some, ◌≡◌, ◌↔◌, ◌⊎◌, arith}
use resticpal.Time.{DateTime}
use resticpal.Config.{EffectiveConfig}
use resticpal.Service.{ServiceStateSnapshot}
use resticpal.Service.Snapshot.{
  identity_of, repository_requires_validation, require_repository_validation,
  mark_repository_verified, repository_verified_at,
}

-- After a repository was verified under one configuration, another configuration wants a validation
-- exactly if it has a repository and names it by another URL, other options or other secrets.
pub mark_repository_verified_iff :
    (snapshot : ServiceStateSnapshot) (config other : EffectiveConfig) (now : DateTime)
    → (repository_requires_validation (mark_repository_verified snapshot config now) other ≡ false)
      ↔ ((other.repository.url ≡ none) ⊎ (identity_of config ≡ identity_of other))
unfolding repository_requires_validation mark_repository_verified
mark_repository_verified_iff snapshot config other now = (λ h. ground arith, λ h. ground arith)

-- Once validation is required, it is for every configuration that has a repository, and no
-- verification time is reported for one.
pub require_repository_validation_lem :
    (snapshot : ServiceStateSnapshot) (config : EffectiveConfig)
    → (repository_requires_validation (require_repository_validation snapshot) config
        ≡ is_some config.repository.url)
      × (repository_verified_at (require_repository_validation snapshot) config ≡ none)
unfolding repository_requires_validation require_repository_validation repository_verified_at
require_repository_validation_lem snapshot config = (ground arith, ground arith)
