-- ===== src/Policies.antt =====
-- frontend/src/mystic_auth/policies: the data that the policy and permission screens share.
-- Of `PolicyRead` (api/policies_api.ts) the fields that no modelled code reads are left out:
-- conditions, created_at, updated_at and holder_count.
pub mod EffectiveGrants
pub mod Lists
pub mod Bulk
pub mod PageHandlers
pub mod Form
use mystic_auth.Prelude.{ℕ, String, Bool, Option, List}

pub record PolicyRead : Type 0 where
  pub id : ℕ
  pub name : String
  pub description : Option String
  pub actions : List String
  pub resource_type : String
  pub is_active : Bool
  pub created_by : Option String

-- `{ action: string; resource_type: string }`, the shape of a direct grant.
pub record Grant : Type 0 where
  pub action : String
  pub resource_type : String
