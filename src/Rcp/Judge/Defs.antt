-- ===== src/Rcp/Judge/Defs.antt =====
-- What a reply leads to: `accept` stores the value and marks the command as working, `reject` marks a
-- failure, `ignore` does neither.
pub data Verdict (A : Type 0) : Type 0 where
  accept : A → Verdict A
  reject : Verdict A
  ignore : Verdict A
