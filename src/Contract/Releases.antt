-- ===== src/Contract/Releases.antt =====
-- The entry points of campaign/src/lib.rs that wrap a function of another module.
use orbit_chain_contracts.Common.{ℕ}
use orbit_chain_contracts.Types.{Address, not_initialized}
use orbit_chain_contracts.Host.{Env, M, ⊤, or_panic, require_auth, ◌>>=◌, ◌>>◌}
use orbit_chain_contracts.Storage.{get_campaign}
use orbit_chain_contracts.Lifecycle
use orbit_chain_contracts.Release
use orbit_chain_contracts.MultiRelease
use orbit_chain_contracts.Reports.{refresh_report_cache}

module _ {T : Type 0} (env : Env T) where
  -- `campaign.creator.require_auth()` on the stored campaign.
  unfoldable pub authorize_creator : M T ⊤
  unfolding get_campaign
  authorize_creator = do
    found ← get_campaign
    c ← or_panic found not_initialized
    require_auth env c.creator

  unfoldable pub release_milestone : ℕ → Address → M T ⊤
  release_milestone i recipient = do
    authorize_creator
    Release.release_milestone env i recipient
    refresh_report_cache

  unfoldable pub release_milestone_multi_asset : ℕ → Address → M T ⊤
  release_milestone_multi_asset i recipient = do
    authorize_creator
    MultiRelease.release_milestone_multi_asset env i recipient
    refresh_report_cache

  unfoldable pub end_campaign : M T ⊤
  end_campaign = do Lifecycle.end_campaign env; refresh_report_cache

  unfoldable pub cancel_campaign : M T ⊤
  cancel_campaign = do Lifecycle.cancel_campaign env; refresh_report_cache

  unfoldable pub extend_deadline : ℕ → M T ⊤
  extend_deadline new_end_time = do Lifecycle.extend_deadline env new_end_time; refresh_report_cache
