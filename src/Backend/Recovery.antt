-- ===== src/Backend/Recovery.antt =====
-- src/backend.rs: discovery while a peer is alone. A Duration or Instant counts nanoseconds.
use link_ear.Prelude.{
  ℕ, ◌+◌, ◌*◌, ◌≤◌, ◌<◌, ◌≡◌, refl, sym, ◌∙◌, inl, inr, Bool, true, false, not, ◌&&◌, List, [], ◌∷◌,
  arith, ltb, leb, if◌then◌else◌, Bool-cases, ◌==◌, string_eq, nat_eq, bool_eq, option_eq, length,
  all,
}

abbrev second : ℕ
second = 1_000_000_000

abbrev pub rendezvous_discover_interval : ℕ
rendezvous_discover_interval = 30 * second

abbrev pub zero_peer_recovery_discover_delays : List ℕ
zero_peer_recovery_discover_delays = 0 ∷ 5 * second ∷ 10 * second ∷ 20 * second ∷ 30 * second ∷ []

pub record ZeroPeerRecovery : Type 0 where
  pub active : Bool
  pub discover_deadlines : List ℕ

abbrev pub default : ZeroPeerRecovery
default = record { active = false; discover_deadlines = [] }

abbrev deadlines_from : ℕ → List ℕ → List ℕ
deadlines_from now [] = []
deadlines_from now (delay ∷ delays) = (now + delay) ∷ deadlines_from now delays

unfoldable pub start : ZeroPeerRecovery → ℕ → ZeroPeerRecovery × Bool
start r now = if r.active then (r, false) else (
  record {
    active = true;
    discover_deadlines = deadlines_from now zero_peer_recovery_discover_delays;
  },
  true,
)

unfoldable pub finish : ZeroPeerRecovery → ZeroPeerRecovery × Bool
finish r =
    if not r.active then (r, false) else (record { active = false; discover_deadlines = [] }, true)

-- The `while` loop: the deadlines that are left, and whether one was due.
abbrev pub pop_due : ℕ → Bool → List ℕ → List ℕ × Bool
pop_due now due [] = ([], due)
pop_due now due (deadline ∷ deadlines) =
    let rest = pop_due now true deadlines in
    if leb deadline now then rest else (deadline ∷ deadlines, due)

abbrev rearmed : ℕ → List ℕ × Bool → ZeroPeerRecovery × Bool
rearmed now (deadlines, due) = (
  record {
    active = true;
    discover_deadlines =
        if due && (length deadlines == 0)
        then (now + rendezvous_discover_interval) ∷ []
        else deadlines;
  },
  due,
)

unfoldable pub pop_due_discovery : ZeroPeerRecovery → ℕ → ZeroPeerRecovery × Bool
pop_due_discovery r now =
    if not r.active then (r, false) else rearmed now (pop_due now false r.discover_deadlines)

-- What the network task calls, at times that do not go back.
pub data Call : Type 0 where
  lost_all_peers : Call
  found_peer : Call
  tick : Call

abbrev pub call : ZeroPeerRecovery → ℕ → Call → ZeroPeerRecovery
call r now lost_all_peers = (start r now).0
call r now found_peer = (finish r).0
call r now tick = (pop_due_discovery r now).0

-- Calls, each with the time that went by before it: the state and the time behind the last.
abbrev pub run : ZeroPeerRecovery → ℕ → List (ℕ × Call) → ZeroPeerRecovery × ℕ
run r now [] = (r, now)
run r now (c ∷ cs) = run (call r (now + c.0) c.1) (now + c.0) cs

abbrev pub soon : ℕ → ℕ → Bool
soon now deadline = leb deadline (now + rendezvous_discover_interval)

-- While it is active there is a deadline, and all are within the interval; otherwise there is none.
abbrev pub IsArmed : ZeroPeerRecovery → ℕ → Type 0
IsArmed r now =
    (r.active ≡ ltb 0 (length r.discover_deadlines)) × (all (soon now) r.discover_deadlines ≡ true)

pop_due-soon :
    (now : ℕ) (due : Bool) (ds : List ℕ)
    → all (soon now) ds ≡ true
    → all (soon now) (pop_due now due ds).0 ≡ true
pop_due-soon now due [] h = refl
pop_due-soon now due (d ∷ ds) h = ground (arith, pop_due-soon now true ds)

later_soon :
    (now later : ℕ) (ds : List ℕ)
    → now ≤ later
    → all (soon now) ds ≡ true
    → all (soon later) ds ≡ true
later_soon now later [] l h = refl
later_soon now later (d ∷ ds) l h = ground (arith, later_soon now later ds)

pop_due-true : (now : ℕ) (ds : List ℕ) → (pop_due now true ds).1 ≡ true
pop_due-true now [] = refl
pop_due-true now (d ∷ ds) = ground (arith, pop_due-true now ds)

-- Nothing is popped where nothing was due.
pop_due_none :
    (now : ℕ) (ds : List ℕ) → (pop_due now false ds).1 ≡ false → (pop_due now false ds).0 ≡ ds
pop_due_none now [] h = refl
pop_due_none now (d ∷ ds) h = ground (arith, pop_due-true now ds)

rearmed-IsArmed :
    (now : ℕ) (ds : List ℕ) (due : Bool)
    → (due ≡ false → 0 < length ds)
    → all (soon now) ds ≡ true
    → IsArmed (rearmed now (ds, due)).0 now
rearmed-IsArmed now [] due h s = elim (Bool-cases due) [
  | inl y ↦ rw (y, if◌then◌else◌) (refl, ground arith)
  | inr n ↦ absurd (omega (arith, h n))
]
rearmed-IsArmed now (d ∷ ds) due h s = ground arith

call-IsArmed :
    (r : ZeroPeerRecovery) (now later : ℕ) (c : Call)
    → now ≤ later
    → IsArmed r now
    → IsArmed (call r later c) later
unfolding start finish pop_due_discovery
call-IsArmed r now later lost_all_peers l h = elim (Bool-cases r.active) [
  | inl y ↦ rw (y, if◌then◌else◌) (sym y ∙ h.0, later_soon now later r.discover_deadlines l h.1)
  | inr n ↦ rw (n, if◌then◌else◌) (ground arith, ground arith)
]
call-IsArmed r now later found_peer l h = elim (Bool-cases r.active) [
  | inl y ↦ rw (y, if◌then◌else◌) (ground arith, refl)
  | inr n ↦ rw (n, if◌then◌else◌) (sym n ∙ h.0, later_soon now later r.discover_deadlines l h.1)
]
call-IsArmed r now later tick l h = elim (Bool-cases r.active) [
  | inl y ↦
      let ds = r.discover_deadlines in
      let popped = pop_due later false ds in
      rw (y, if◌then◌else◌)
        (rearmed-IsArmed later popped.0 popped.1 (λ e. ground (arith, pop_due_none later ds e))
          (pop_due-soon later false ds (later_soon now later ds l h.1)))
  | inr n ↦ rw (n, if◌then◌else◌) (sym n ∙ h.0, later_soon now later r.discover_deadlines l h.1)
]

run-IsArmed :
    (r : ZeroPeerRecovery) (now : ℕ) (cs : List (ℕ × Call))
    → IsArmed r now
    → IsArmed (run r now cs).0 (run r now cs).1
run-IsArmed r now [] h = h
run-IsArmed r now (c ∷ cs) h =
    run-IsArmed (call r (now + c.0) c.1) (now + c.0) cs
      (call-IsArmed r now (now + c.0) c.1 (omega arith) h)

due_of_soon :
    (now later : ℕ) (ds : List ℕ)
    → now + rendezvous_discover_interval ≤ later
    → 0 < length ds
    → all (soon now) ds ≡ true
    → (pop_due later false ds).1 ≡ true
due_of_soon now later [] l n h = absurd (omega (arith, n))
due_of_soon now later (d ∷ ds) l n h = ground (arith, pop_due-true later ds)

-- Whatever was called before, a recovery that is active discovers peers at the first tick after 30 seconds
-- at the latest, and goes on being active.
pub discovery_due :
    (cs : List (ℕ × Call)) (wait : ℕ)
    → rendezvous_discover_interval ≤ wait
    → (run default 0 cs).0.active ≡ true
    → let (r, now) = run default 0 cs in
      ((pop_due_discovery r (now + wait)).1 ≡ true)
      × ((pop_due_discovery r (now + wait)).0.active ≡ true)
unfolding pop_due_discovery
discovery_due cs wait l active =
    let (r, now) = run default 0 cs in
    let h = run-IsArmed default 0 cs (refl, refl) in
    let due =
      due_of_soon now (now + wait) r.discover_deadlines (omega (arith, l)) (ground (arith, h))
        h.1 in
    (rw (active, if◌then◌else◌) due, rw (active, if◌then◌else◌) refl)
