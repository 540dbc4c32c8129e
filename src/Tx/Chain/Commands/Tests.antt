-- ===== src/Tx/Chain/Commands/Tests.antt =====
-- Runs on a small ABI library.
use robinhoodpools.Prelude.{◌≡◌, refl, [], ◌∷◌, ok}
use robinhoodpools.Tx.Chain.{unwrap_weth, msg_sender}
use robinhoodpools.Tx.Chain.Abi.Items.{encode_items}
use robinhoodpools.Tx.Chain.Abi.Sample.{tiny, tiny_laws, tiny_encode}
use robinhoodpools.Tx.Chain.Commands.{ur_execute, cmd_encode, decode_ur_execute}
use robinhoodpools.Tx.Chain.Commands.RoundTrip.{decode_ur_execute-ur_execute}

decode_ur_execute-ur_execute_example :
    decode_ur_execute tiny (1 ∷ 2 ∷ 3 ∷ 4 ∷ 1 ∷ 99 ∷ 1 ∷ 12 ∷ 0 ∷ 5 ∷ [])
    ≡ ok (unwrap_weth msg_sender 5 ∷ [], 99)
unfolding ur_execute encode_items cmd_encode tiny_encode
decode_ur_execute-ur_execute_example =
    decode_ur_execute-ur_execute tiny tiny_laws (unwrap_weth msg_sender 5 ∷ []) 99
      (1 ∷ 2 ∷ 3 ∷ 4 ∷ 1 ∷ 99 ∷ 1 ∷ 12 ∷ 0 ∷ 5 ∷ []) refl refl
