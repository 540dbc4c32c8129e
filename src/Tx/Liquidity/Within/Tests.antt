-- ===== src/Tx/Liquidity/Within/Tests.antt =====
-- A run inside a range around the price one.
use robinhoodpools.Prelude.{ℕ, ◌≤◌, ◌≡◌, ◌+◌, ◌-◌, true, ok, arith}
use robinhoodpools.Math.{q96}
use robinhoodpools.Tx.Liquidity.{liquidity_for_amounts, principal_at}
use robinhoodpools.Tx.Liquidity.Within.{liquidity_for_amounts-within}

liquidity_for_amounts-within_example :
    (l : ℕ) × ((liquidity_for_amounts q96 (q96 - 1000) (q96 + 1000) 500 700 ≡ ok l)
      × ((u : ℕ) × ((v : ℕ) × ((principal_at q96 (q96 - 1000) (q96 + 1000) l true ≡ ok (u, v))
              × ((u ≤ 500) × (v ≤ 700))))))
liquidity_for_amounts-within_example =
    liquidity_for_amounts-within q96 (q96 - 1000) (q96 + 1000) 500 700 (omega arith) (omega arith)
