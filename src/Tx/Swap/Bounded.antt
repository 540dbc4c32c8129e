-- ===== src/Tx/Swap/Bounded.antt =====
-- A plan that `SwapPlanner.plan` of tx_plan.py makes can be finalized, and what then bounds the output.
pub mod Plans
mod Tests
use robinhoodpools.Prelude.{
  ℕ, zero, suc, ◌+◌, ◌-◌, ◌*◌, ◌/◌, ◌≤◌, ◌<◌, ◌≡◌, refl, sym, ap, String, Bool, true, false, not,
  ◌&&◌, Option, none, some, List, [], ◌∷◌, ◌++◌, arith, length, get_elem?, ltb, leb, gt→leb, ge→ltb,
  ◌==◌, str_eq, if◌then◌else◌, Bool-cases, Option-cases, Result-cases, inl, inr, Result, ok, err,
  ◌>>=◌, raise_if, or_raise,
}
use robinhoodpools.Tx.Errors.{TxError, internal, index_error, value_error}
use robinhoodpools.Tx.Chain.{
  Bytes, native, weth, V4Param, v4_settle, v4_settle_all, v4_take, v4_swap_exact_in_single,
  UrCommand, unwrap_weth, sweep, v3_swap, v2_swap, v4_swap, wrap_eth, pay_portion,
  permit2_transfer_from, permit2_permit, msg_sender, address_this, PoolKey, contract_balance,
  open_delta,
}
use robinhoodpools.Tx.Chain.Path.{v3_path}
use robinhoodpools.Tx.Chain.Abi.{Abi}
use robinhoodpools.Tx.Routes.{Venue, v2, v3, v4, Pool, pool_key, Hop, Route, hops}
use robinhoodpools.Tx.Plan.{
  TxPolicy, SwapIntent, currency_out, fee_leg, SwapShape, Body, swap_body, router_body, nfpm_body,
  posm_body, Plan,
}
use robinhoodpools.Tx.Swap.{
  Build, add_command, add_slot, serves, own_router, convert, is_direct, is_input, wrap_output,
  pay_and_send, close, opening, ur_shape, router_shape, router_approvals, hop_command, add_hop,
  add_hops, approve_all, ur_staging, plan_router, plan_ur, plan,
}
use robinhoodpools.Tx.Swap.Finalize.{
  with_min_out, set_at, bound_at, gross_min, lacks_signature, finalize, params_min,
}

module _ {A : Type 0} where
  get_elem?-append :
      (xs ys : List A) (i : ℕ) (a : A) → get_elem? xs i ≡ some a → get_elem? (xs ++ ys) i ≡ some a
  get_elem?-append [] ys i a h = absurd (cc h)
  get_elem?-append (x ∷ xs) ys zero a h = h
  get_elem?-append (x ∷ xs) ys (suc i) a h = get_elem?-append xs ys i a h

  pub get_elem?-last : (xs : List A) (a : A) → get_elem? (xs ++ (a ∷ [])) (length xs) ≡ some a
  get_elem?-last [] a = refl
  get_elem?-last (x ∷ xs) a = get_elem?-last xs a

-- The minimum that a command carries.
abbrev pub params_carry : List V4Param → Option ℕ
params_carry [] = none
params_carry (v4_swap_exact_in_single k z a m ∷ ps) = some m
params_carry (v4_settle c a p ∷ ps) = params_carry ps
params_carry (v4_settle_all c a ∷ ps) = params_carry ps
params_carry (v4_take c r a ∷ ps) = params_carry ps

abbrev pub carries : UrCommand → Option ℕ
carries (v3_swap r a m p u) = some m
carries (v2_swap r a m p u) = some m
carries (sweep t r m) = some m
carries (unwrap_weth r m) = some m
carries (v4_swap ps) = params_carry ps
carries _ = none

-- The command takes a minimum.
abbrev pub Minable : UrCommand → Type 0
Minable c = (m : ℕ) → (d : UrCommand) × ((with_min_out c m ≡ ok d) × (carries d ≡ some m))

abbrev pub SlotOk : Build → Type 0
SlotOk b = elim b.slot [
  | none ↦ Unit
  | some i ↦ (c : UrCommand) × ((get_elem? b.commands i ≡ some c) × Minable c)
]

slot_kept :
    (commands more : List UrCommand) (held held' : String) (slot : Option ℕ)
    → SlotOk (record { commands = commands; held = held; slot = slot })
    → SlotOk (record { commands = commands ++ more; held = held'; slot = slot })
slot_kept commands more held held' none h = tt
slot_kept commands more held held' (some i) (c, (at_, min)) =
    (c, (get_elem?-append commands more i c at_, min))

slot_set :
    (commands : List UrCommand) (held : String) (c : UrCommand)
    → Minable c
    → SlotOk
        (record { commands = commands ++ (c ∷ []); held = held; slot = some (length commands) })
slot_set commands held c min = (c, (get_elem?-last commands c, min))

command_of : Result TxError UrCommand → UrCommand → UrCommand
command_of (ok c) d = c
command_of (err e) d = d

build_of : Result TxError Build → Build → Build
build_of (ok b) d = b
build_of (err e) d = d

module _ (fromhex : String → Bytes) (hex : Bytes → String) (abi : Abi) where
  hop_command-Minable :
      (h : Hop) (recipient : String) (m0 : ℕ) (c : UrCommand)
      → hop_command abi fromhex hex h recipient m0 ≡ ok c
      → Minable c
  unfolding hop_command with_min_out command_of
  hop_command-Minable h recipient m0 c e m =
      elim h.pool.venue
          as (λ (v : Venue).
            h.pool.venue ≡ v
            → (d : UrCommand) × ((with_min_out c m ≡ ok d) × (carries d ≡ some m))) [
              | v3 ↦ λ ev.
                  elim (Option-cases (
                    v3_path fromhex hex (h.currency_in ∷ h.currency_out ∷ [])
                      (h.pool.fee_ppm ∷ []))) [
                        | inl none_e ↦ absurd (cc (rw (hop_command, ev, none_e) at e))
                        | inr (path, ep) ↦
                            let e' : ok (v3_swap recipient contract_balance m0 path false) ≡ ok c =
                              rw (hop_command, ev, ep) at e in
                            let is : c ≡ v3_swap recipient contract_balance m0 path false =
                              sym (ap (λ (r : Result TxError UrCommand). command_of r c) e') in
                            (v3_swap recipient contract_balance m path false, (rw (is) refl, refl))
                      ]
              | v2 ↦ λ ev.
                  let made =
                    v2_swap recipient contract_balance m0 (h.currency_in ∷ h.currency_out ∷ [])
                      false in
                  let e' : ok made ≡ ok c = rw (hop_command, ev) at e in
                  let is : c ≡ made =
                    sym (ap (λ (r : Result TxError UrCommand). command_of r c) e') in
                  (
                    v2_swap recipient contract_balance m (h.currency_in ∷ h.currency_out ∷ [])
                        false,
                    (rw (is) refl, refl),
                  )
              | v4 ↦ λ ev. elim (Result-cases (pool_key h.pool)) [
                | inr (x, ek) ↦ absurd (cc (rw (hop_command, ev, ek) at e))
                | inl (key, ek) ↦
                    let made =
                      v4_settle h.currency_in contract_balance false
                      ∷ v4_swap_exact_in_single key (str_eq h.currency_in h.pool.token0) open_delta
                          m0
                      ∷ v4_take h.currency_out recipient open_delta
                      ∷ [] in
                    let e' : ok (v4_swap made) ≡ ok c = rw (hop_command, ev, ek) at e in
                    let is : c ≡ v4_swap made =
                      sym (ap (λ (r : Result TxError UrCommand). command_of r c) e') in
                    (v4_swap (params_min m made), (rw (is) refl, refl))
              ]
            ]
        refl

  convert-SlotOk : (h : Hop) (b : Build) → SlotOk b → SlotOk (convert h b)
  convert-SlotOk h b s = elim (Bool-cases (str_eq h.currency_in b.held)) [
    | inl e ↦ rw (e) s
    | inr e ↦ rw (e) (slot_kept b.commands _ b.held h.currency_in b.slot s)
  ]

  add_hop-SlotOk :
      (direct : Bool) (h : Hop) (b next : Build)
      → SlotOk b
      → add_hop abi fromhex hex direct h b ≡ ok next
      → SlotOk next
  unfolding add_hop build_of
  add_hop-SlotOk true h b next s e =
      elim (Result-cases (hop_command abi fromhex hex h msg_sender 0)) [
        | inr (x, ec) ↦ absurd (cc (rw (add_hop, ec) at e))
        | inl (c, ec) ↦
            let made : Build = record (add_slot c b) { held = h.currency_out } in
            let e' : ok made ≡ ok next = rw (add_hop, ec) at e in
            let is : next ≡ made = sym (ap (λ (r : Result TxError Build). build_of r next) e') in
            rw is (slot_set b.commands h.currency_out c (hop_command-Minable h msg_sender 0 c ec))
      ]
  add_hop-SlotOk false h b next s e =
      elim (Result-cases (hop_command abi fromhex hex h address_this 0)) [
        | inr (x, ec) ↦ absurd (cc (rw (add_hop, ec) at e))
        | inl (c, ec) ↦
            let made : Build = record (add_command c b) { held = h.currency_out } in
            let e' : ok made ≡ ok next = rw (add_hop, ec) at e in
            let is : next ≡ made = sym (ap (λ (r : Result TxError Build). build_of r next) e') in
            rw is (slot_kept b.commands (c ∷ []) b.held h.currency_out b.slot s)
      ]

  pub add_hops-SlotOk :
      (i : SwapIntent) (hs : List Hop) (b end : Build)
      → SlotOk b
      → add_hops abi fromhex hex i hs b ≡ ok end
      → SlotOk end
  unfolding add_hops build_of
  add_hops-SlotOk i [] b end s e =
      let is : end ≡ b = sym (ap (λ (r : Result TxError Build). build_of r end) e) in rw is s
  add_hops-SlotOk i (h ∷ hs) b end s e =
      elim (Result-cases (add_hop abi fromhex hex (is_direct i h hs) h (convert h b))) [
        | inr (x, eh) ↦ absurd (cc (rw (add_hops, eh) at e))
        | inl (next, eh) ↦
            add_hops-SlotOk i hs next end
              (add_hop-SlotOk (is_direct i h hs) h (convert h b) next (convert-SlotOk h b s) eh)
              (rw (add_hops, eh) at e)
      ]

sweep-Minable : (t r : String) → Minable (sweep t r 0)
unfolding with_min_out
sweep-Minable t r m = (sweep t r m, (refl, refl))

unwrap-Minable : (r : String) → Minable (unwrap_weth r 0)
unfolding with_min_out
unwrap-Minable r m = (unwrap_weth r m, (refl, refl))

pay_and_send-SlotOk :
    (i : SwapIntent) (policy : TxPolicy) (b : Build) → SlotOk (pay_and_send i policy b)
pay_and_send-SlotOk i policy b =
    elim (Bool-cases (str_eq (currency_out i) native && str_eq b.held weth)) [
      | inl e ↦ rw (e) (
          slot_set (add_command (pay_portion b.held policy.fee_recipient policy.fee_bps) b).commands
            b.held (unwrap_weth msg_sender 0) (unwrap-Minable msg_sender))
      | inr e ↦ rw (e) (
          slot_set (add_command (pay_portion b.held policy.fee_recipient policy.fee_bps) b).commands
            b.held (sweep b.held msg_sender 0) (sweep-Minable b.held msg_sender))
    ]

pub close-SlotOk :
    (i : SwapIntent) (policy : TxPolicy) (b : Build) → SlotOk b → SlotOk (close i policy b)
unfolding close
close-SlotOk i policy b s = elim (Bool-cases (is_input (fee_leg i))) [
  | inl e ↦ rw (close, e) s
  | inr e ↦ rw (close, e) (pay_and_send-SlotOk i policy (wrap_output i b))
]
