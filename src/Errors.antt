-- ===== src/Errors.antt =====
-- crates/core/src/error.rs: the kernel's error, with the chain of foreign causes left out.
use ai_kernel.Prelude.{Text, codes, List}
use ai_kernel.Clock.{Duration}

pub data ErrorKind : Type 0 where
  config not_found conflict wiring lifecycle : ErrorKind
  invalid_argument unsupported permission confinement : ErrorKind
  timeout cancelled serialization other : ErrorKind

pub data Error : Type 0 where
  config not_found already_exists : Text → Text → Error
  ambiguous : Text → List Text → Error
  missing_dependency : Text → Text → Error
  dependency_cycle : List Text → Error
  lifecycle component invalid_argument unsupported permission_denied confinement : Text → Error
  timeout : Duration → Error
  cancelled serialization : Error
  other : Text → Error

unfoldable pub kind : Error → ErrorKind
kind (Error.config p m) = ErrorKind.config
kind (Error.not_found k i) = ErrorKind.not_found
kind (Error.already_exists k i) = ErrorKind.conflict
kind (Error.ambiguous s cs) = ErrorKind.wiring
kind (Error.missing_dependency c d) = ErrorKind.wiring
kind (Error.dependency_cycle cs) = ErrorKind.wiring
kind (Error.lifecycle m) = ErrorKind.lifecycle
kind (Error.component c) = ErrorKind.lifecycle
kind (Error.invalid_argument m) = ErrorKind.invalid_argument
kind (Error.unsupported m) = ErrorKind.unsupported
kind (Error.permission_denied m) = ErrorKind.permission
kind (Error.confinement m) = ErrorKind.confinement
kind (Error.timeout d) = ErrorKind.timeout
kind Error.cancelled = ErrorKind.cancelled
kind Error.serialization = ErrorKind.serialization
kind (Error.other m) = ErrorKind.other

-- `format!("{:?}", kind).to_lowercase()`.
unfoldable pub kind_text : ErrorKind → Text
kind_text ErrorKind.config = codes "config"
kind_text ErrorKind.not_found = codes "notfound"
kind_text ErrorKind.conflict = codes "conflict"
kind_text ErrorKind.wiring = codes "wiring"
kind_text ErrorKind.lifecycle = codes "lifecycle"
kind_text ErrorKind.invalid_argument = codes "invalidargument"
kind_text ErrorKind.unsupported = codes "unsupported"
kind_text ErrorKind.permission = codes "permission"
kind_text ErrorKind.confinement = codes "confinement"
kind_text ErrorKind.timeout = codes "timeout"
kind_text ErrorKind.cancelled = codes "cancelled"
kind_text ErrorKind.serialization = codes "serialization"
kind_text ErrorKind.other = codes "other"
