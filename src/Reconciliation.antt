-- ===== src/Reconciliation.antt =====
-- agent/reconciliation.py: a ledger's view of an account compared with the broker's. Quantities
-- and amounts are exact decimals, so integers; a broker object keeps the fields that are compared.
pub mod Agreement
mod Tests
use investmentagent.Prelude.{
  ℕ, String, Bool, true, not, ◌&&◌, List, [], ◌∷◌, map, str_eq, any, all, Option, none, some,
  if◌then◌else◌, Result, ok, err, ◌>>=◌, ◌>>◌, raise_if,
}
use investmentagent.Prelude.Int.{ℤ, eq_ℤ}
use investmentagent.Prelude.Dict.{Dict, get, put}
use investmentagent.Accounts.{CrossAccount}

pub data ReconciliationError : Type 0 where
  reconciliation_mismatch : ReconciliationError
  cross_account : CrossAccount → ReconciliationError

pub record AccountSnapshot : Type 0 where
  pub account_id : String
  pub settled_cash : ℤ

pub record Position : Type 0 where
  pub account_id : String
  pub symbol : String
  pub qty : ℤ

pub record BrokerOrder : Type 0 where
  pub account_id : String
  pub client_order_id : String

abbrev pub foreign : String → String → ReconciliationError
foreign account_id got = cross_account (record { expected = account_id; got = got })

unfoldable pub reconcile_settled_cash :
    String → ℤ → AccountSnapshot → Result ReconciliationError Unit
reconcile_settled_cash account_id local_settled_cash broker_account = do
  raise_if (not (str_eq broker_account.account_id account_id))
      (foreign account_id broker_account.account_id)
  raise_if (not (eq_ℤ broker_account.settled_cash local_settled_cash)) reconciliation_mismatch

-- the loops that refuse another account's objects
module _ {A : Type 0} (owner : A → String) where
  unfoldable pub check_owners : String → List A → Result ReconciliationError Unit
  check_owners account_id [] = ok tt
  check_owners account_id (x ∷ xs) = do
    raise_if (not (str_eq (owner x) account_id)) (foreign account_id (owner x))
    check_owners account_id xs

-- `{p.symbol: p.qty for p in broker_positions}`: the last position of a symbol wins
unfoldable pub by_symbol : Dict ℤ → List Position → Dict ℤ
by_symbol d [] = d
by_symbol d (p ∷ ps) = by_symbol (put d p.symbol p.qty) ps

abbrev pub same_qty : Option ℤ → Option ℤ → Bool
same_qty none none = true
same_qty (some a) (some b) = eq_ℤ a b
same_qty _ _ = Bool.false

abbrev pub covers : Dict ℤ → Dict ℤ → Dict ℤ → Bool
covers d e [] = true
covers d e ((k, _) ∷ rest) = same_qty (get d k) (get e k) && covers d e rest

-- `==` of two dictionaries: equal at every key of either
abbrev pub same_dict : Dict ℤ → Dict ℤ → Bool
same_dict d e = covers d e d && covers d e e

unfoldable pub reconcile_positions :
    String → Dict ℤ → List Position → Result ReconciliationError Unit
reconcile_positions account_id local_positions broker_positions = do
  check_owners (λ (p : Position). p.account_id) account_id broker_positions
  raise_if (not (same_dict (by_symbol [] broker_positions) local_positions)) reconciliation_mismatch

abbrev pub is_in : List String → String → Bool
is_in xs x = any (str_eq x) xs

-- `==` of the sets of two lists
abbrev pub same_set : List String → List String → Bool
same_set xs ys = all (is_in ys) xs && all (is_in xs) ys

unfoldable pub reconcile_open_orders :
    String → List String → List BrokerOrder → Result ReconciliationError Unit
reconcile_open_orders account_id local_open_order_ids broker_open_orders = do
  check_owners (λ (o : BrokerOrder). o.account_id) account_id broker_open_orders
  raise_if
      (not (
        same_set (map (λ (o : BrokerOrder). o.client_order_id) broker_open_orders)
          local_open_order_ids))
      reconciliation_mismatch
