-- ===== src/Proto/Types.antt =====
-- crates/halephant-core/src/proto/types.rs.
use halephant.Prelude.{ℕ}

-- `Oid`: a `u32`.
abbrev pub Oid : Type 0
Oid = ℕ

pub data FormatCode : Type 0 where
  text binary : FormatCode

pub data TransactionStatus : Type 0 where
  idle in_transaction failed : TransactionStatus
