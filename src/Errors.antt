-- ===== src/Errors.antt =====
-- Go's `error` values as the services build and inspect them: sentinels of the standard library and
-- of the ports packages, texts, `%w` wrapping, `errors.Join`, and the coded `domain.Error` of a
-- component, whose codes are the parameter.
use go_bemu.Base.{String, Bool, true, false, ◌||◌, Option, none, some}

-- The error variables that code under internal/storagewrite and internal/storageread compares with.
pub data Sentinel : Type 0 where
  canceled deadline_exceeded eof : Sentinel
  table_not_found unsupported_schema resource_exhausted : Sentinel
  queue_wait_timeout operation_timeout invalid_rows : Sentinel
  state_not_found state_conflict receipt_conflict exact_receipt commit_group_conflict : Sentinel
  session_state_not_found session_state_conflict : Sentinel

-- A numbering, to compare them.
abbrev pub tag : Sentinel → Sentinel → Bool
tag canceled canceled = true
tag deadline_exceeded deadline_exceeded = true
tag eof eof = true
tag table_not_found table_not_found = true
tag unsupported_schema unsupported_schema = true
tag resource_exhausted resource_exhausted = true
tag queue_wait_timeout queue_wait_timeout = true
tag operation_timeout operation_timeout = true
tag invalid_rows invalid_rows = true
tag state_not_found state_not_found = true
tag state_conflict state_conflict = true
tag receipt_conflict receipt_conflict = true
tag exact_receipt exact_receipt = true
tag commit_group_conflict commit_group_conflict = true
tag session_state_not_found session_state_not_found = true
tag session_state_conflict session_state_conflict = true
tag _ _ = false

pub data GoError (C : Type 0) : Type 0 where
  sentinel : Sentinel → GoError C
  message : String → GoError C
  wrapped : String → GoError C → GoError C
  joined : GoError C → GoError C → GoError C
  coded : C → String → GoError C → GoError C

module _ {C : Type 0} where
  -- errors.Is(err, target): the tree of causes, `domain.Error.Unwrap` included.
  unfoldable pub is : GoError C → Sentinel → Bool
  is (sentinel s) t = tag s t
  is (message m) t = false
  is (wrapped m e) t = is e t
  is (joined e f) t = is e t || is f t
  is (coded c op e) t = is e t

  -- errors.Join of two errors that may be nil.
  abbrev pub join : Option (GoError C) → Option (GoError C) → Option (GoError C)
  join none f = f
  join (some e) none = some e
  join (some e) (some f) = some (joined e f)

  abbrev first : Option C → Option C → Option C
  first none d = d
  first (some c) d = some c

  -- errors.As(err, *domain.Error): the first coded error, depth first.
  unfoldable pub as_coded : GoError C → Option C
  as_coded (sentinel s) = none
  as_coded (message m) = none
  as_coded (wrapped m e) = as_coded e
  as_coded (joined e f) = first (as_coded e) (as_coded f)
  as_coded (coded c op e) = some c
