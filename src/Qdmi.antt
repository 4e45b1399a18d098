-- ===== src/Qdmi.antt =====
-- The QDMI enumerations that the device code names, with the values that it names. The numeric
-- values come from the QDMI headers, which are not part of the repository.
use qdmi_on_iqm.Base.{Bool, true, false}

pub data QdmiStatus : Type 0 where
  success fatal outofmem notfound outofrange invalidargument : QdmiStatus
  permissiondenied notsupported badstate timeout : QdmiStatus

pub data JobStatus : Type 0 where
  created submitted queued running done canceled failed : JobStatus

pub data ProgramFormat : Type 0 where
  iqmjson qirbasestring other_format invalid_format : ProgramFormat

-- `==` on the two enumerations that the code compares.
unfoldable pub status_eq : JobStatus → JobStatus → Bool
status_eq created created = true
status_eq submitted submitted = true
status_eq queued queued = true
status_eq running running = true
status_eq done done = true
status_eq canceled canceled = true
status_eq failed failed = true
status_eq _ _ = false

unfoldable pub format_eq : ProgramFormat → ProgramFormat → Bool
format_eq iqmjson iqmjson = true
format_eq qirbasestring qirbasestring = true
format_eq other_format other_format = true
format_eq invalid_format invalid_format = true
format_eq _ _ = false

unfoldable pub is_success : QdmiStatus → Bool
is_success success = true
is_success _ = false
