-- ===== src/Gate/Entitlement/Tests.antt =====
-- A wallet that sold its tokens, at concrete requests.
use robinhoodpools.Prelude.{◌≡◌, refl, true, false, Option, none, some, arith}
use robinhoodpools.Gate.Policy.{trade}
use robinhoodpools.Gate.Policy.Samples.{small}
use robinhoodpools.Gate.Entitle.{Holding, entitle, grant}
use robinhoodpools.Gate.Entitle.Laws.{observed}
use robinhoodpools.Gate.Entitlement.{Anchors, entitlement, is_dropped, kept, moved}
use robinhoodpools.Gate.Entitlement.Laws.{sold-LeavesOut, sold_then_silent}

abbrev rows : Anchors
rows f = some (record { at = 1_000_000; version = 3 })

abbrev alone : Anchors → Anchors
alone t = t

-- Without the observation of the sale the grace period would still run.
grace_would_run : (entitlement small "0xw" 3_000_000 none alone alone rows).1.has trade ≡ true
unfolding entitlement kept is_dropped moved entitle grant
grace_would_run = refl

abbrev one_left : Option Holding
one_left = some (observed "0xw" 1 7 2_000_000 1000)

-- Another request of the wallet, which the oracle does not answer.
abbrev silent_request : Anchors → Anchors
silent_request t = (entitlement small "0xw" 2_500_000 none alone alone t).0

-- The silent request comes between the sections of the call that sees the sale, and once more after it;
-- then the oracle answers with the cached holding.
sold_then_silent_example :
    (entitlement small "0xw" 30_000_000 one_left alone alone (
        silent_request
          (entitlement small "0xw" 2_000_000 one_left silent_request alone rows).0)).1.has
      trade
    ≡ false
sold_then_silent_example =
    sold_then_silent small "0xw" 2_000_000 30_000_000 one_left one_left silent_request alone
      silent_request alone alone rows trade refl refl (omega arith) (omega arith)
      (sold-LeavesOut small "0xw" 2_500_000 none alone alone trade refl (omega arith) (λ t e. e)
        (λ t e. e))
      (λ t e. e)
      (sold-LeavesOut small "0xw" 2_500_000 none alone alone trade refl (omega arith) (λ t e. e)
        (λ t e. e))
