-- ===== src/Bridge/Tests.antt =====
-- Runs of agent/approval_bridge.py over fixed-point prices.
use investmentagent.Prelude.{ℕ, ◌*◌, String, ◌≡◌, refl, none, some, [], ◌∷◌, inl, ok}
use investmentagent.Prelude.Text.{upper}
use investmentagent.Prelude.Int.{pos, ◌+ℤ◌}
use investmentagent.Prelude.Dict.{get, put}
use investmentagent.Prelude.Floats.{fixed_point, unit}
use investmentagent.Audit.{Payload, Value}
use investmentagent.Approval.{
  ApprovalToken, ApprovalService, approve, choose_band, mint, token_for_request,
}
use investmentagent.Requests.{record_token_minted, token_minted}
use investmentagent.Requests.Tests.{approved, decided_store}
use investmentagent.Bridge.{
  World, order_fingerprint, final_order, approval_of, mint_approval_token, mint_first, issue,
  validate_modification, reject_compound,
}
use investmentagent.Bridge.Once.{mint-twice}

abbrev pub digest : Payload → String → String
digest p prev = prev

abbrev pub rounded : ℕ → ℕ → ℕ
rounded n x = x

abbrev pub sha256 : Value → String
sha256 v = "digest"

abbrev pub service : ApprovalService fixed_point
service = record {
  expiration = 300;
  min_display = 30;
  max_per_day = 5;
  price_band_pct = 1 * unit;
  tokens = [];
}

abbrev world : World fixed_point
world = record { store = decided_store; service = service; log = none }

-- the operator approves three of the five shares
abbrev pub token : ApprovalToken fixed_point
token =
    mint fixed_point digest service
      (approval_of fixed_point digest rounded sha256 approved "apr-1"
        (final_order fixed_point approved.proposal_snapshot (some (3 * unit)) none) 160 (pos 0))
      (99 * unit, 101 * unit)

abbrev pub minted_world : World fixed_point
minted_world = record {
  store = record decided_store {
    rows =
        record {
          event = token_minted;
          account_id = "acct";
          request = record approved { token_snapshot = some token };
        }
        ∷ [];
    current = ("apr-1", record approved { token_snapshot = some token }) ∷ [];
  };
  service = record service { tokens = ("tok-apr-1", token) ∷ [] };
  log = none;
}

minted :
    mint_approval_token fixed_point digest rounded sha256 world "apr-1" 160 (some (3 * unit)) none
    ≡ ok (minted_world, token)
unfolding mint_approval_token mint_first issue validate_modification reject_compound approve
    choose_band record_token_minted get put token_for_request upper order_fingerprint ◌+ℤ◌
minted = refl

free : token_for_request fixed_point service "apr-1" ≡ none
unfolding token_for_request
free = refl

mint-twice_example :
    mint_approval_token fixed_point digest rounded sha256
      (record minted_world { service = service })
      "apr-1"
      9000
      none
      none
    ≡ ok (record minted_world { service = service }, token)
mint-twice_example =
    mint-twice fixed_point digest rounded sha256 world minted_world "apr-1" 160 (some (3 * unit))
      none token free minted service 9000 none none (inl free)
