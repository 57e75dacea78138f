-- ===== src/Cpu/Runs.antt =====
-- The effect of a handler on the ranges of the attributes and on the cycle count.
use python.Prelude.{ℕ, ◌+◌, ◌<◌, ◌≡◌, Option, none, some, arith}
use python.Frame.Disturbed.{Held}
use python.Cpu.{Cpu, Program, ◌>>=◌}
use python.Cpu.Wp.{Wp, Wp-mono, Wp-bind}
use python.Cpu.Safe.{IsSafe}

-- From attributes in range the program makes `k` bus cycles, ends with them in range, leaves the
-- extra count alone and returns what `R` says.
abbrev pub Runs : {A : Type 0} → (A → Type 0) → ℕ → Program A → Type 0
Runs R k m =
    (c : Cpu) (n : ℕ)
    → IsSafe c
    → Wp m (λ a c' n'. IsSafe c' × (n' ≡ n + k) × (c'.extra ≡ c.extra) × R a) c n

-- The same of a program that starts with no extra cycles and may charge some, which are then
-- among the cycles that it makes.
abbrev pub Charges : {A : Type 0} → (A → Type 0) → ℕ → Program A → Type 0
Charges R k m =
    (c : Cpu) (n : ℕ)
    → IsSafe c
    → c.extra ≡ 0
    → Wp m (λ a c' n'. IsSafe c' × (n' ≡ n + k + c'.extra) × R a) c n

-- The attributes at the end of a handler: in range, but for a poll that BRK or an interrupt entry
-- has marked as not made.
pub record IsDone (c : Cpu) : Type 0 where
  pub settled : IsSafe (record c { frame = record (c.frame) { deferred = none } })
  pub deferred_done : Held (λ v. v < 5) c.frame.deferred

-- To prove something of a sequence whose first part is known to run.
pub Wp-after :
    {A B : Type 0} (R : A → Type 0) (k : ℕ) (Q : B → Cpu → ℕ → Type 0) (m : Program A)
    (f : A → Program B) (c : Cpu) (n : ℕ)
    → Runs R k m
    → IsSafe c
    → ((a : A) (c' : Cpu) → IsSafe c' → c'.extra ≡ c.extra → R a → Wp (f a) Q c' (n + k))
    → Wp (m >>= f) Q c n
Wp-after R k Q m f c n runs s rest =
    Wp-bind Q m f c n
      (Wp-mono m c n (λ a c' n' h. rw (h.1) (rest a c' (h.0) (h.2) (h.3))) (runs c n s))

-- What charges nothing makes its own cycles only.
pub Runs→Charges :
    {A : Type 0} (R : A → Type 0) (k : ℕ) (m : Program A) → Runs R k m → Charges R k m
Runs→Charges R k m runs c n s e =
    Wp-mono m c n (λ a c' n' h. (h.0, omega (arith, h.1, h.2), h.3)) (runs c n s)

Held-done : (o : Option ℕ) → Held (λ v. v < 4) o → Held (λ v. v < 5) o
Held-done none h = tt
Held-done (some v) h = omega arith

pub IsSafe-IsDone : (c : Cpu) → IsSafe c → IsDone c
IsSafe-IsDone c s = record {
  settled = search (arith, s);
  deferred_done = Held-done c.frame.deferred (s.frame_fits.deferred_fits);
}

-- A handler, from its opcode's fetch to the end.
abbrev pub Finishes : {A : Type 0} → ℕ → Program A → Type 0
Finishes k m =
    (c : Cpu) (n : ℕ)
    → IsSafe c
    → c.extra ≡ 0
    → Wp m (λ _ c' n'. IsDone c' × (n' ≡ n + k + c'.extra)) c n

pub Charges→Finishes :
    {A : Type 0} (R : A → Type 0) (k : ℕ) (m : Program A) → Charges R k m → Finishes k m
Charges→Finishes R k m charges c n s e =
    Wp-mono m c n (λ a c' n' h. (IsSafe-IsDone c' (h.0), h.1)) (charges c n s e)

pub Runs→Finishes :
    {A : Type 0} (R : A → Type 0) (k : ℕ) (m : Program A) → Runs R k m → Finishes k m
Runs→Finishes R k m runs = Charges→Finishes R k m (Runs→Charges R k m runs)
