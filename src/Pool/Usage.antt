-- ===== src/Pool/Usage.antt =====
-- internal/adapter/types.go: the snapshot of the official quota, and when it stops an account.
-- The floating-point numbers are a parameter with two tests: a percentage reaches 99.5, and so does the
-- quotient of two amounts times 100.
use chatgpt_prism2api.Base.{Bool, true, false, ◌&&◌, ◌||◌, Option, none, some, [], if◌then◌else◌}
use chatgpt_prism2api.Base.Int.{ℤ, pos}
use chatgpt_prism2api.Base.Text.{Text, codes}

-- `UsageSnapshot`.
pub record Snapshot (F : Type 0) : Type 0 where
  pub email : Text
  pub workos_id : Text
  pub sign_up_type : Text
  pub membership_type : Text
  pub individual_plan : Text
  pub team_membership_type : Text
  pub subscription_status : Text
  pub is_team_member : Option Bool
  pub is_enterprise : Option Bool
  pub plan_badge : Text
  pub plan_label : Text
  pub billing_cycle_start : ℤ
  pub billing_cycle_end : ℤ
  pub plan_used_cents : Option F
  pub plan_limit_cents : Option F
  pub total_percent_used : Option F
  pub auto_percent_used : Option F
  pub api_percent_used : Option F
  pub on_demand_used_cents : Option F
  pub on_demand_limit_cents : Option F
  pub team_on_demand_used : Option F
  pub team_on_demand_limit : Option F
  pub on_demand_enabled : Option Bool
  pub on_demand_limit_type : Text
  pub unlimited : Bool
  pub fetched_at : ℤ

-- `UsageSnapshot{}`.
abbrev pub no_snapshot : {F : Type 0} → Snapshot F
no_snapshot = record {
  email = [];
  workos_id = [];
  sign_up_type = [];
  membership_type = [];
  individual_plan = [];
  team_membership_type = [];
  subscription_status = [];
  is_team_member = none;
  is_enterprise = none;
  plan_badge = [];
  plan_label = [];
  billing_cycle_start = pos 0;
  billing_cycle_end = pos 0;
  plan_used_cents = none;
  plan_limit_cents = none;
  total_percent_used = none;
  auto_percent_used = none;
  api_percent_used = none;
  on_demand_used_cents = none;
  on_demand_limit_cents = none;
  team_on_demand_used = none;
  team_on_demand_limit = none;
  on_demand_enabled = none;
  on_demand_limit_type = [];
  unlimited = false;
  fetched_at = pos 0;
}

abbrev is_present : {F : Type 0} → Option F → Bool
is_present none = false
is_present (some x) = true

-- `HasQuotaMeters`.
unfoldable pub has_quota_meters : {F : Type 0} → Snapshot F → Bool
has_quota_meters s =
    is_present s.api_percent_used
    || is_present s.auto_percent_used
    || is_present s.total_percent_used
    || (is_present s.plan_used_cents && is_present s.plan_limit_cents)

module _ {F : Type 0} (is_full : F → Bool) (plan_is_full : F → F → Bool) where
  abbrev is_bucket_full : Option F → Bool
  is_bucket_full none = false
  is_bucket_full (some p) = is_full p

  -- `*PlanLimitCents > 0 && (used / limit) * 100 >= quotaFullPercent`, if both are set.
  abbrev plan_full : Option F → Option F → Bool
  plan_full none limit = false
  plan_full (some u) none = false
  plan_full (some u) (some l) = plan_is_full u l

  -- `QuotaDisableReason`.
  unfoldable pub quota_disable_reason : Snapshot F → Text
  quota_disable_reason s =
      if s.unlimited
      then []
      else if is_bucket_full s.api_percent_used
      then codes "quota_api"
      else if is_bucket_full s.auto_percent_used
      then codes "quota_auto"
      else if is_bucket_full s.total_percent_used
      then codes "quota_total"
      else if plan_full s.plan_used_cents s.plan_limit_cents
      then codes "quota_plan"
      else []
