-- ===== src/Debug/Tracking.antt =====
-- The tracked bus (src/sixfiveohtwo/debug.py, `_wrap_bus`) changes nothing that the CPU does, and
-- its log holds one valid access for each cycle that a step returns.
use python.Prelude.{
  ℕ, ◌+◌, ◌≤◌, ◌<◌, ◌≡◌, refl, ap, ◌∙◌, Bool, true, false, List, [], ◌∷◌, ◌++◌, length,
  length-append, All, All-append, arith,
}
use mathlib.Core.List.{append_assoc, append-nil}
use python.Frame.{Frame, Call, run_calls, confirm}
use python.Frame.Disturbed.{Disturbed, Disturbed-trans, run_calls-Disturbed, confirm-Disturbed}
use python.Cpu.{Cpu, Program, ret, get, put, read_cycle, write_cycle, Bus, routed, run}
use python.Cpu.Wp.{Wp}
use python.Step.{step}
use python.Step.Cycles.{IsReady, step_lem}
use python.Debug.Access.{Kind, Access, valid_access, tracked}

-- What a run on a host gives, beside a log.
abbrev pub logged : {A H : Type 0} → A × Cpu × H → List Access → A × Cpu × (H × List Access)
logged (a, c, h) log = (a, c, (h, log))

-- For any program, the tracked bus gives the same result, the same attributes and the same host,
-- and only adds to the log.
pub run-tracked :
    {A H : Type 0} (bus : Bus H) (m : Program A) (c : Cpu) (h : H) (log : List Access)
    → (new : List Access) × (run (tracked bus) m c (h, log) ≡ logged (run bus m c h) (log ++ new))
unfolding run tracked
run-tracked bus (ret a) c h log = ([], rw append-nil refl)
run-tracked bus (get f) c h log = run-tracked bus (f c) c h log
run-tracked bus (put c' m) c h log = run-tracked bus m c' h log
run-tracked bus (read_cycle address f) c h log =
    let (value, calls, h') = bus.read_byte address h in
    let here : List Access = record { kind = Kind.r; address = address; value = value } ∷ [] in
    let (new, e) =
      run-tracked bus (f value)
        (record c { frame = run_calls calls (routed c.frame.read_confirming c.frame) }) h'
        (log ++ here) in
    (here ++ new, e ∙ ap (logged (run bus (read_cycle address f) c h)) (append_assoc log here new))
run-tracked bus (write_cycle address value m) c h log =
    let (calls, h') = bus.write_byte address value h in
    let here : List Access = record { kind = Kind.w; address = address; value = value } ∷ [] in
    let (new, e) =
      run-tracked bus m
        (record c { frame = run_calls calls (routed c.frame.write_confirming c.frame) }) h'
        (log ++ here) in
    (
      here ++ new,
      e ∙ ap (logged (run bus (write_cycle address value m) c h)) (append_assoc log here new),
    )

callback-Disturbed :
    (confirming : Bool) (calls : List Call) (f : Frame)
    → Disturbed f (run_calls calls (routed confirming f))
unfolding routed
callback-Disturbed true calls f =
    Disturbed-trans (confirm-Disturbed f) (run_calls-Disturbed calls (confirm f))
callback-Disturbed false calls f = run_calls-Disturbed calls f

valid_access_lem : (x : Access) → x.address < 65536 → x.value < 256 → valid_access x ≡ true
unfolding valid_access
valid_access_lem x h k = ground arith

length-snoc : (log : List Access) (x : Access) → length (log ++ x ∷ []) ≡ length log + 1
length-snoc log x = length-append log (x ∷ [])

-- What `Wp` says of a program holds of its run on the tracked bus, with the length of the log for
-- the count of cycles, and every access that is logged is valid.
pub Wp-tracked :
    {A H : Type 0} (Q : A → Cpu → ℕ → Type 0) (bus : Bus H) (m : Program A) (c : Cpu) (h : H)
    (log : List Access)
    → Wp m Q c (length log)
    → All (λ x. valid_access x ≡ true) log
    → let (a, c', (h', log')) = run (tracked bus) m c (h, log) in
      Q a c' (length log') × All (λ x. valid_access x ≡ true) log'
unfolding run tracked
Wp-tracked Q bus (ret a) c h log q v = (q, v)
Wp-tracked Q bus (get f) c h log q v = Wp-tracked Q bus (f c) c h log q v
Wp-tracked Q bus (put c' m) c h log q v = Wp-tracked Q bus m c' h log q v
Wp-tracked Q bus (read_cycle address f) c h log q v =
    let (value, calls, h') = bus.read_byte address h in
    let here : Access = record { kind = Kind.r; address = address; value = value } in
    let g : Frame = run_calls calls (routed c.frame.read_confirming c.frame) in
    let fits : value < 256 = bus.read_byte-lt address h in
    Wp-tracked Q bus (f value) (record c { frame = g }) h' (log ++ here ∷ [])
      (rw (length-snoc log here)
        (q.1 value fits g (callback-Disturbed c.frame.read_confirming calls c.frame)))
      (All-append _ log (here ∷ []) v (valid_access_lem here (q.0) fits, tt))
Wp-tracked Q bus (write_cycle address value m) c h log q v =
    let (calls, h') = bus.write_byte address value h in
    let here : Access = record { kind = Kind.w; address = address; value = value } in
    let g : Frame = run_calls calls (routed c.frame.write_confirming c.frame) in
    Wp-tracked Q bus m (record c { frame = g }) h' (log ++ here ∷ [])
      (rw (length-snoc log here)
        (q.2 g (callback-Disturbed c.frame.write_confirming calls c.frame)))
      (All-append _ log (here ∷ []) v (valid_access_lem here (q.0) (q.1), tt))

-- A tracked step, from any attributes in range with no extra cycles left, on any host and whatever its callbacks call, keeps
-- the ranges and returns a positive count; its log holds that many accesses, each of them valid
-- for a step record.
pub step_accesses :
    {H : Type 0} (bus : Bus H) (c : Cpu) (h : H)
    → IsReady c
    → let (cycles, c', (h', log)) = run (tracked bus) step c (h, []) in
      IsReady c' × (length log ≡ cycles) × (1 ≤ cycles) × All (λ x. valid_access x ≡ true) log
step_accesses bus c h r =
    let ((ready, count, positive), valid) =
      Wp-tracked (λ k c' n'. IsReady c' × (n' ≡ 0 + k) × (1 ≤ k)) bus step c h [] (step_lem c 0 r)
        tt in
    (ready, omega (arith, count), positive, valid)
