-- ===== src/Tx/Chain/Path/Tests.antt =====
-- A path of two hops, with three tokens that stand for their bytes.
use robinhoodpools.Prelude.{
  ℕ, ◌≡◌, refl, String, List, [], ◌∷◌, ◌++◌, some, ◌==◌, str_eq, if◌then◌else◌,
}
use robinhoodpools.Tx.Chain.{Bytes, weth, usdg}
use robinhoodpools.Tx.Chain.Path.{
  path_hops, v3_path, decode_v3_path, decode_v3_path-v3_path, decode_v3_path-total,
}

abbrev twenty : ℕ → Bytes
twenty b = b ∷ b ∷ b ∷ b ∷ b ∷ b ∷ b ∷ b ∷ b ∷ b ∷ b ∷ b ∷ b ∷ b ∷ b ∷ b ∷ b ∷ b ∷ b ∷ b ∷ []

abbrev bytes : String → Bytes
bytes t = if str_eq t weth then twenty 11 else twenty 95

abbrev text_of : Bytes → String
text_of [] = ""
text_of (b ∷ bs) = if b == 11 then weth else usdg

abbrev two_hops : Bytes
two_hops =
    twenty 11 ++ ((0 ∷ 1 ∷ 244 ∷ []) ++ (twenty 95 ++ ((0 ∷ 0 ∷ 100 ∷ []) ++ (twenty 11 ++ []))))

decode_v3_path-v3_path_example :
    decode_v3_path bytes text_of two_hops ≡ some (weth ∷ usdg ∷ weth ∷ [], 500 ∷ 100 ∷ [])
unfolding v3_path path_hops
decode_v3_path-v3_path_example =
    decode_v3_path-v3_path bytes text_of (weth ∷ usdg ∷ weth ∷ []) (500 ∷ 100 ∷ []) two_hops
      ((refl, refl), ((refl, refl), ((refl, refl), tt))) refl

decode_v3_path-total_example :
    (r : List String × List ℕ) × (decode_v3_path bytes text_of (11 ∷ 95 ∷ 7 ∷ []) ≡ some r)
decode_v3_path-total_example = decode_v3_path-total bytes text_of (11 ∷ 95 ∷ 7 ∷ [])
