-- ===== src/Client/Windows.antt =====
-- What the client asks Windows for when it renders a record, and the names of
-- MiniMonClient/src/trace/names.cpp whose codes are constants of the Windows SDK.
use minifilter_monitor.Common.{ℕ, List, codes}

pub record Windows : Type 0 where
  -- values::RenderSid, RenderTime and RenderOperationTime of MiniMonClient/src/trace/values.cpp.
  pub render_sid : List ℕ → List ℕ
  pub render_time : ℕ → List ℕ
  pub render_operation_time : ℕ → List ℕ
  -- ConvertSecurityDescriptorToStringSecurityDescriptorW, with what details/security.cpp makes of it.
  pub render_descriptor : List ℕ → ℕ → List ℕ
  pub render_irql : ℕ → List ℕ
  pub render_status : ℕ → List ℕ
  pub render_reparse_tag : ℕ → List ℕ
  pub render_transaction_notify : ℕ → List ℕ
  pub render_file_action : ℕ → List ℕ
  pub render_desired_access : ℕ → List ℕ
  pub render_share_access : ℕ → List ℕ
  pub render_file_attributes : ℕ → List ℕ
  pub render_completion_filter : ℕ → List ℕ
  pub render_security_information : ℕ → List ℕ
  pub render_page_protection : ℕ → List ℕ
  pub render_allocation_attributes : ℕ → List ℕ
  pub render_device_type : ℕ → List ℕ
  pub render_file_system_attributes : ℕ → List ℕ
  pub render_file_system_type : ℕ → List ℕ

-- Answers of a machine that knows no name.
abbrev pub nameless : Windows
nameless = record {
  render_sid = λ sid. codes "sid";
  render_time = λ time. codes "time";
  render_operation_time = λ time. codes "time";
  render_descriptor = λ payload information. codes "descriptor";
  render_irql = λ irql. codes "irql";
  render_status = λ status. codes "status";
  render_reparse_tag = λ tag. codes "tag";
  render_transaction_notify = λ notification. codes "notification";
  render_file_action = λ action. codes "action";
  render_desired_access = λ access. codes "access";
  render_share_access = λ access. codes "share";
  render_file_attributes = λ attributes. codes "attributes";
  render_completion_filter = λ filter. codes "filter";
  render_security_information = λ information. codes "information";
  render_page_protection = λ protection. codes "protection";
  render_allocation_attributes = λ attributes. codes "allocation";
  render_device_type = λ type_code. codes "device";
  render_file_system_attributes = λ attributes. codes "attributes";
  render_file_system_type = λ type_code. codes "file system";
}
