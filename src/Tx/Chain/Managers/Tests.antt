-- ===== src/Tx/Chain/Managers/Tests.antt =====
-- Runs on a small ABI library.
use robinhoodpools.Prelude.{◌≡◌, refl, [], ◌∷◌, ok}
use robinhoodpools.Tx.Chain.{posm_sweep, msg_sender}
use robinhoodpools.Tx.Chain.Abi.Items.{encode_items}
use robinhoodpools.Tx.Chain.Abi.Sample.{tiny, tiny_laws, tiny_encode}
use robinhoodpools.Tx.Chain.Managers.{posm_modify_liquidities, decode_posm_modify_liquidities}
use robinhoodpools.Tx.Chain.Managers.RoundTrip.{
  decode_posm_modify_liquidities-posm_modify_liquidities,
}

decode_posm_modify_liquidities-posm_modify_liquidities_example :
    decode_posm_modify_liquidities tiny (1 ∷ 2 ∷ 3 ∷ 4 ∷ 4 ∷ 99 ∷ 3 ∷ 1 ∷ 20 ∷ 2 ∷ [])
    ≡ ok (posm_sweep msg_sender msg_sender ∷ [], 99)
unfolding posm_modify_liquidities encode_items tiny_encode
decode_posm_modify_liquidities-posm_modify_liquidities_example =
    decode_posm_modify_liquidities-posm_modify_liquidities tiny tiny_laws
      (posm_sweep msg_sender msg_sender ∷ []) 99 (1 ∷ 2 ∷ 3 ∷ 4 ∷ 4 ∷ 99 ∷ 3 ∷ 1 ∷ 20 ∷ 2 ∷ []) refl
      refl
