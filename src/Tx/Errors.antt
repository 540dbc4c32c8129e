-- ===== src/Tx/Errors.antt =====
-- tx_plan.py: the codes of `TxError` and `TxRefusal`, with the errors of Python that the same code
-- raises.
use robinhoodpools.Math.{MathError}

pub data TxError : Type 0 where
  internal unmodeled_fee unobservable permit_required : TxError
  invalid_intent unsupported_pool : TxError
  no_route value_error index_error key_error zero_division : TxError
  in_math : MathError → TxError
