-- ===== src/Cpu/Binds.antt =====
-- A run of two programs in sequence is a run of the first and then of the second.
use python.Prelude.{◌≡◌, refl, Bool, true, false, if◌then◌else◌}
use python.Cpu.{Cpu, Program, ret, get, put, read_cycle, write_cycle, ◌>>=◌, Bus, run}

module _ {H : Type 0} (bus : Bus H) where
  pub run-bind :
      {A B : Type 0} (m : Program A) (k : A → Program B) (c : Cpu) (h : H)
      → run bus (m >>= k) c h ≡ (let (a, c', h') = run bus m c h in run bus (k a) c' h')
  unfolding run
  run-bind (ret a) k c h = refl
  run-bind (get f) k c h = run-bind (f c) k c h
  run-bind (put c' m) k c h = run-bind m k c' h
  run-bind (read_cycle address f) k c h = run-bind (f _) k _ _
  run-bind (write_cycle address value m) k c h = run-bind m k _ _

  pub run-if :
      {A : Type 0} (b : Bool) (m m' : Program A) (c : Cpu) (h : H)
      → run bus (if b then m else m') c h ≡ (if b then run bus m c h else run bus m' c h)
  run-if true m m' c h = refl
  run-if false m m' c h = refl
