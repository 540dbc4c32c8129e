-- ===== src/Rpc/Pace.antt =====
-- What `_SourceGate` of lp_rpc.py keeps, under every interleaving of its callers.
use robinhoodpools.Prelude.{
  ℕ, ◌+◌, ◌≤◌, ◌<◌, ◌≡◌, refl, sym, ap, arith, Bool, true, false, ◌&&◌, ◌||◌, Option, none, some,
  ltb, leb, Bool-cases, inl, inr, ltb→lt, leb→le,
}
use robinhoodpools.Rpc.{
  SourceGate, priority_debt, is_aged, background_slots, is_free, is_due, started_by, try_acquire,
  arrive, leave_queue, release, Run, start, arrives, gives_up, enters, releases,
}

gate_of : Option SourceGate → SourceGate → SourceGate
gate_of none d = d
gate_of (some g) d = g

-- A caller that is let in found a slot and its time.
pub record Admitted (priority : Bool) (now spend : ℕ) (h k : SourceGate) : Type 0 where
  pub slot : h.in_flight < h.concurrency
  pub in_time : h.next_at ≤ now + priority_debt
  pub same : k.concurrency ≡ h.concurrency
  pub one_more : k.in_flight ≡ h.in_flight + 1
  pub paid : h.next_at + spend ≤ k.next_at

try_acquire-Admitted :
    (priority : Bool) (started now spend : ℕ) (h k : SourceGate)
    → 0 < h.concurrency
    → try_acquire priority started now spend h ≡ some k
    → Admitted priority now spend h k
unfolding try_acquire gate_of
try_acquire-Admitted priority started now spend h k some_slot e =
    let aged = is_aged priority started now in
    elim (Bool-cases (is_free priority aged h && is_due (priority || aged) now h)) [
      | inr no_way ↦ absurd (cc (rw (try_acquire, no_way) at e))
      | inl way ↦
          let e' : some (started_by (priority || aged) now spend h) ≡ some k =
            rw (try_acquire, way) at e in
          let is : k ≡ started_by (priority || aged) now spend h =
            sym (ap (λ (o : Option SourceGate). gate_of o k) e') in
          let free : is_free priority aged h ≡ true = ground (arith, way) in
          let due : is_due (priority || aged) now h ≡ true = ground (arith, way) in
          rw is (record {
            slot = found priority aged free;
            in_time = timely (priority || aged) due;
            same = refl;
            one_more = refl;
            paid = omega arith;
          })
    ]
  where
    found : (p a : Bool) → is_free p a h ≡ true → h.in_flight < h.concurrency
    found true a f = ltb→lt _ _ f
    found false true f = let lt = ltb→lt _ _ f in omega (arith, lt, some_slot)
    found false false f =
        let room : ltb h.in_flight (background_slots h) ≡ true = ground (arith, f) in
        let lt = ltb→lt _ _ room in omega (arith, lt, some_slot)

    timely : (ahead : Bool) → is_due ahead now h ≡ true → h.next_at ≤ now + priority_debt
    timely true d =
        let soon : leb h.next_at (now + priority_debt) ≡ true = ground (arith, d) in leb→le _ _ soon
    timely false d = let le = leb→le _ _ d in omega (arith, le)

-- What every run keeps, of its first gate and its last one
pub record Kept (g h : SourceGate) (spent : ℕ) : Type 0 where
  pub slots : h.in_flight ≤ h.concurrency
  pub same : h.concurrency ≡ g.concurrency
  pub paid : g.next_at + spent ≤ h.next_at

queue-Kept :
    (priority : Bool) (g h : SourceGate) (spent : ℕ)
    → Kept g h spent
    → Kept g (leave_queue priority h) spent
queue-Kept true g h spent k = record { slots = k.slots; same = k.same; paid = k.paid }
queue-Kept false g h spent k = k

arrive-Kept :
    (priority : Bool) (g h : SourceGate) (spent : ℕ)
    → Kept g h spent
    → Kept g (arrive priority h) spent
arrive-Kept true g h spent k = record { slots = k.slots; same = k.same; paid = k.paid }
arrive-Kept false g h spent k = k

run-Kept :
    (g h : SourceGate) (spent : ℕ)
    → 0 < g.concurrency
    → g.in_flight ≤ g.concurrency
    → Run g h spent
    → Kept g h spent
unfolding release
run-Kept g h spent some_slot ok_at_start start = record {
  slots = ok_at_start;
  same = refl;
  paid = omega arith;
}
run-Kept g h spent some_slot ok_at_start (arrives priority r) =
    arrive-Kept priority g _ spent (run-Kept g _ spent some_slot ok_at_start r)
run-Kept g h spent some_slot ok_at_start (gives_up priority r) =
    queue-Kept priority g _ spent (run-Kept g _ spent some_slot ok_at_start r)
run-Kept g h spent some_slot ok_at_start (enters priority started now spend r e) =
    let k = run-Kept g _ _ some_slot ok_at_start r in
    let a =
      try_acquire-Admitted priority started now spend _ _ (omega (arith, k.same, some_slot)) e in
    queue-Kept priority g _ _ (record {
      slots = omega (arith, a.slot, a.same, a.one_more);
      same = omega (arith, a.same, k.same);
      paid = omega (arith, a.paid, k.paid);
    })
run-Kept g h spent some_slot ok_at_start (releases r busy) =
    let k = run-Kept g _ _ some_slot ok_at_start r in
    record { slots = omega (arith, k.slots); same = k.same; paid = k.paid }

-- From a gate with a slot and no more requests in flight than its concurrency, however its callers
-- interleave, a caller that is let in finds fewer requests in flight than the concurrency, and all that
-- the callers before it spent since then is at most the time from the shared clock to now, and the debt
-- that priority callers may run up.
pub source_stays_paced :
    (g h k : SourceGate) (spent started now spend : ℕ) (priority : Bool)
    → 0 < g.concurrency
    → g.in_flight ≤ g.concurrency
    → Run g h spent
    → try_acquire priority started now spend h ≡ some k
    → (h.in_flight < g.concurrency) × (g.next_at + spent ≤ now + priority_debt)
source_stays_paced g h k spent started now spend priority some_slot ok_at_start r e =
    let kept = run-Kept g h spent some_slot ok_at_start r in
    let a =
      try_acquire-Admitted priority started now spend h k (omega (arith, kept.same, some_slot)) e in
    (omega (arith, a.slot, kept.same), omega (arith, a.in_time, kept.paid))
