-- ===== src/Proto.antt =====
-- proto/main.proto: the enumeration that validators answer with.

-- `proto.ValidationResult`
pub data ValidationResult : Type 0 where
  nil accept ignore reject : ValidationResult
