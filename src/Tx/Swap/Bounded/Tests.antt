-- ===== src/Tx/Swap/Bounded/Tests.antt =====
-- Runs: the plan of the sample trade.
use robinhoodpools.Prelude.{◌≡◌, refl, none, some, [], ◌∷◌, String, true, false, arith, ok}
use robinhoodpools.Tx.Chain.{
  Bytes, ur, permit2, weth, max_uint256, address_this, msg_sender, contract_balance,
  permit2_transfer_from, pay_portion, v3_swap,
}
use robinhoodpools.Tx.Chain.Path.{path_hops, v3_path}
use robinhoodpools.Tx.Chain.Abi.{Abi, done}
use robinhoodpools.Tx.Chain.Calls.{erc20_approve, permit2_approve}
use robinhoodpools.Tx.Plan.{single, swap_body, Plan}
use robinhoodpools.Tx.Swap.{hop_command, add_hop, add_hops, close, plan_ur, plan}
use robinhoodpools.Tx.Swap.Finalize.{finalize}
use robinhoodpools.Tx.Swap.Bounded.Plans.{Bounds, plan-finalize}
use robinhoodpools.Tx.Sample.{sample_intent, sample_route, sample_policy, sample_shape, treasury}

abbrev blank : Abi
blank = record {
  encode = λ types vs. ok [];
  decode = λ types b. ok done;
  selector = λ s. [];
  is_normal = λ a. true;
}

abbrev one_byte : String → Bytes
one_byte s = 7 ∷ []

abbrev no_text : Bytes → String
no_text b = ""

abbrev sample_plan : Plan
sample_plan = record {
  to = ur;
  value = 0;
  deadline = 99;
  body =
      swap_body
        (permit2_transfer_from weth address_this 10_000
          ∷ pay_portion weth treasury 100
          ∷ v3_swap msg_sender contract_balance 0 (7 ∷ 0 ∷ 11 ∷ 184 ∷ 7 ∷ []) false
          ∷ [])
        2 sample_shape none;
  approvals =
      record { token = weth; spender = permit2; approve_amount = max_uint256; required = 10_000 }
      ∷ [];
  permit = some (
      single (record {
        details = record { token = weth; amount = 10_000; expiration = 99; nonce = 5 };
        spender = ur;
        sig_deadline = 99;
      }));
  staging =
      record { to = weth; calldata = []; value = 0 }
      ∷ record { to = permit2; calldata = []; value = 0 }
      ∷ [];
  signature = none;
}

plan-finalize_example :
    (q : Plan) × ((finalize sample_plan 4_975 (some (1 ∷ [])) ≡ ok q) × Bounds 4_975 q.body)
unfolding plan plan_ur add_hops add_hop hop_command close v3_path path_hops erc20_approve
    permit2_approve
plan-finalize_example =
    plan-finalize blank one_byte no_text sample_intent sample_route sample_policy 99 5 4_975
      (1 ∷ []) sample_plan (omega arith) refl
