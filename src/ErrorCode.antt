-- ===== src/ErrorCode.antt =====
-- include/vaultos/error_codes.h: the result codes that the kernel's operations return.

-- `VOS_OK` and the `VOS_ERR_*` values, a constructor for each.
pub data ErrorCode : Type 0 where
  ok generic nomem inval notfound perm exists full syntax : ErrorCode
  cap_invalid cap_expired cap_revoked txn_abort io overflow busy nosys : ErrorCode
