-- ===== src/Accounts.antt =====
-- agent/accounts.py: accounts never mix. The error that every operation raises for an object of
-- another account, and the account types.
use investmentagent.Prelude.{String, Bool, true, false}

pub data AccountType : Type 0 where
  taxable roth_ira traditional_ira : AccountType

-- `AccountType.is_retirement`
abbrev pub is_retirement : AccountType → Bool
is_retirement taxable = false
is_retirement _ = true

-- `CrossAccountError(expected, got)`
pub record CrossAccount : Type 0 where
  pub expected : String
  pub got : String
