-- ===== src/Workers/Status.antt =====
-- mic11api's `proc_status_t`, as far as the workers use it.
pub data ProcStatus : Type 0 where
  ok_s error_s fatal_error_s : ProcStatus
