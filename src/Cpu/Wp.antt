-- ===== src/Cpu/Wp.antt =====
-- What a program does whatever its host does: `Wp m Q c n` says that from the attributes `c`, after
-- `n` bus cycles, `m` puts 16-bit addresses and 8-bit values on the bus and ends as `Q` says, for
-- every byte that a read may return and everything that a callback may do to the frame.
use python.Prelude.{ℕ, ◌+◌, ◌<◌, ◌≡◌, refl, Bool, true, false, if◌then◌else◌}
use python.Frame.{Frame}
use python.Frame.Disturbed.{Disturbed}
use python.Cpu.{Cpu, Program, ret, get, put, read_cycle, write_cycle, ◌>>=◌}

abbrev pub Wp : {A : Type 0} → Program A → (A → Cpu → ℕ → Type 0) → Cpu → ℕ → Type 0
Wp (ret a) Q c n = Q a c n
Wp (get f) Q c n = Wp (f c) Q c n
Wp (put c' m) Q c n = Wp m Q c' n
Wp (read_cycle address f) Q c n =
    (address < 65536)
    × ((value : ℕ)
        → value < 256
        → (g : Frame) → Disturbed c.frame g
        → Wp (f value) Q (record c { frame = g }) (n + 1))
Wp (write_cycle address value m) Q c n =
    (address < 65536)
    × (value < 256)
    × ((g : Frame) → Disturbed c.frame g → Wp m Q (record c { frame = g }) (n + 1))

pub Wp-mono :
    {A : Type 0} {Q R : A → Cpu → ℕ → Type 0} (m : Program A) (c : Cpu) (n : ℕ)
    → ((a : A) (c' : Cpu) (n' : ℕ) → Q a c' n' → R a c' n')
    → Wp m Q c n
    → Wp m R c n
Wp-mono (ret a) c n k h = k a c n h
Wp-mono (get f) c n k h = Wp-mono (f c) c n k h
Wp-mono (put c' m) c n k h = Wp-mono m c' n k h
Wp-mono (read_cycle address f) c n k h = (
  h.0,
  λ value fits g d. Wp-mono (f value) (record c { frame = g }) (n + 1) k (h.1 value fits g d),
)
Wp-mono (write_cycle address value m) c n k h =
    (h.0, h.1, λ g d. Wp-mono m (record c { frame = g }) (n + 1) k (h.2 g d))

-- A sequence: the second program starts where the first one ends.
pub Wp-bind :
    {A B : Type 0} (Q : B → Cpu → ℕ → Type 0) (m : Program A) (f : A → Program B) (c : Cpu) (n : ℕ)
    → Wp m (λ a c' n'. Wp (f a) Q c' n') c n
    → Wp (m >>= f) Q c n
Wp-bind Q (ret a) f c n h = h
Wp-bind Q (get g) f c n h = Wp-bind Q (g c) f c n h
Wp-bind Q (put c' m) f c n h = Wp-bind Q m f c' n h
Wp-bind Q (read_cycle address g) f c n h = (
  h.0,
  λ value fits fr d. Wp-bind Q (g value) f (record c { frame = fr }) (n + 1) (h.1 value fits fr d),
)
Wp-bind Q (write_cycle address value m) f c n h =
    (h.0, h.1, λ g d. Wp-bind Q m f (record c { frame = g }) (n + 1) (h.2 g d))

-- A test in a program.
pub Wp-if :
    {A : Type 0} (Q : A → Cpu → ℕ → Type 0) (b : Bool) (m m' : Program A) (c : Cpu) (n : ℕ)
    → (b ≡ true → Wp m Q c n)
    → (b ≡ false → Wp m' Q c n)
    → Wp (if b then m else m') Q c n
Wp-if Q true m m' c n h k = h refl
Wp-if Q false m m' c n h k = k refl
