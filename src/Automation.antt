-- ===== src/Automation.antt =====
-- src/automation_dnd.rs: the operations and results of the automation API.
pub mod Results
pub mod Source
pub mod UriList
pub mod Offers
use minde.Base.{ℕ}

pub data AutomationOperation : Type 0 where
  drop_files drop_text screenshot : AutomationOperation

pub data AutomationStatus : Type 0 where
  pending accepted rejected no_target cancelled unsupported_target done failed : AutomationStatus

pub record AutomationResult : Type 0 where
  pub token : ℕ
  pub operation : AutomationOperation
  pub status : AutomationStatus
