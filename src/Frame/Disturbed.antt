-- ===== src/Frame/Disturbed.antt =====
-- What the calls of a bus callback may do to the frame (src/sixfiveohtwo/frame.py).
use python.Prelude.{
  ℕ, ◌<◌, ◌≡◌, refl, ◌∙◌, ◌⊎◌, Bool, true, false, Option, none, some, List, [], ◌∷◌, bit_and,
  bit_or, truth-false, maybe, arith,
}
use python.Prelude.Bits.{and_not, bit_or-lt, bit_and_four}
use python.Frame.Boundary.{seen}
use python.Frame.{
  Frame, irq_line, nmi_latch, no_poll, confirm, request, note_stall, also_polled, not_polled,
  request_maskable_interrupt, clear_maskable_interrupt, request_non_maskable_interrupt,
  clear_non_maskable_interrupt, request_reset, clear_reset, Call, call, run_calls,
}

-- A predicate of the number in an optional attribute.
abbrev pub Held : (ℕ → Type 0) → Option ℕ → Type 0
Held P none = Unit
Held P (some v) = P v

-- The requests are the two request bits; what the last poll left is such requests or NO_POLL alone.
pub record IsFrame (f : Frame) : Type 0 where
  pub requests_fit : f.requests < 4
  pub polled_fits : Held (λ v. v < 5) f.polled
  pub deferred_fits : Held (λ v. v < 4) f.deferred
  pub stalled_fits : Held (λ v. v < 4) f.stalled
  pub stalled_before_fits : Held (λ v. v < 4) f.stalled_before
  pub polled_i_fits : Held (λ v. (v ≡ 0) ⊎ (v ≡ 4)) f.polled_i

-- A callback changes neither the halt nor the remembered I flag, and keeps the ranges.
pub record Disturbed (f g : Frame) : Type 0 where
  pub same_halted : g.halted ≡ f.halted
  pub same_polled_i : g.polled_i ≡ f.polled_i
  pub keeps : IsFrame f → IsFrame g

pub Disturbed-trans : {f g h : Frame} → Disturbed f g → Disturbed g h → Disturbed f h
Disturbed-trans d e = record {
  same_halted = e.same_halted ∙ d.same_halted;
  same_polled_i = e.same_polled_i ∙ d.same_polled_i;
  keeps = λ i. e.keeps (d.keeps i);
}

-- A request is added to what was polled unless that is NO_POLL, which stays alone.
also_polled-Held :
    (bit : ℕ) (o : Option ℕ) → bit < 4 → Held (λ v. v < 5) o → Held (λ v. v < 5) (also_polled bit o)
also_polled-Held bit none b h = tt
also_polled-Held bit (some v) b h =
    ground (arith, bit_and_four v, bit_or-lt 2 v bit, truth-false (bit_and v no_poll))

not_polled-Held :
    (bit : ℕ) (o : Option ℕ) → Held (λ v. v < 5) o → Held (λ v. v < 5) (not_polled bit o)
not_polled-Held bit none h = tt
not_polled-Held bit (some v) h = omega arith

-- What a boundary decides on is in range too.
pub seen-lt : (f : Frame) → IsFrame f → seen f < 5
unfolding seen
seen-lt f i = go f.polled (i.polled_fits)
  where
    go : (o : Option ℕ) → Held (λ v. v < 5) o → maybe f.requests (λ v. v) o < 5
    go none h = omega (arith, i.requests_fit)
    go (some v) h = h

confirm-IsFrame : (f : Frame) → IsFrame f → IsFrame (confirm f)
confirm-IsFrame f i = record {
  requests_fit = i.requests_fit;
  polled_fits = i.polled_fits;
  deferred_fits = tt;
  stalled_fits = i.stalled_fits;
  stalled_before_fits = i.stalled_before_fits;
  polled_i_fits = i.polled_i_fits;
}

pub confirm-Disturbed : (f : Frame) → Disturbed f (confirm f)
confirm-Disturbed f = record { same_halted = refl; same_polled_i = refl; keeps = confirm-IsFrame f }

request-requests : (r : ℕ) (f : Frame) → (request r f).requests ≡ r
unfolding request
request-requests r f = ground arith

request-polled : (r : ℕ) (f : Frame) → (request r f).polled ≡ f.polled
unfolding request
request-polled r f = ground arith

request-deferred :
    (r : ℕ) (f : Frame) → (request r f).deferred ≡ some (maybe f.requests (λ v. v) f.deferred)
unfolding request
request-deferred r f = ground arith

request-rest :
    (r : ℕ) (f : Frame)
    → ((request r f).stalled ≡ f.stalled)
      × ((request r f).stalled_before ≡ f.stalled_before)
      × ((request r f).polled_i ≡ f.polled_i)
      × ((request r f).halted ≡ f.halted)
unfolding request
request-rest r f = (ground arith, ground arith, ground arith, ground arith)

pub earlier_fits : (f : Frame) → IsFrame f → maybe f.requests (λ v. v) f.deferred < 4
earlier_fits f i = go f.deferred i.deferred_fits
  where
    go : (o : Option ℕ) → Held (λ v. v < 4) o → maybe f.requests (λ v. v) o < 4
    go none h = omega (arith, i.requests_fit)
    go (some v) h = h

-- A change of the requests with what it does to the poll's memory.
request-Disturbed :
    (r : ℕ) (change : Option ℕ → Option ℕ) (f : Frame)
    → (IsFrame f → r < 4)
    → (IsFrame f → Held (λ v. v < 5) (change f.polled))
    → Disturbed f (let g = request r f in record g { polled = change g.polled })
request-Disturbed r change f h k = record {
  same_halted = rest.3;
  same_polled_i = rest.2;
  keeps = λ i. record {
    requests_fit = rw request-requests (h i);
    polled_fits = rw request-polled (k i);
    deferred_fits = rw request-deferred (earlier_fits f i);
    stalled_fits = rw rest.0 (i.stalled_fits);
    stalled_before_fits = rw rest.1 (i.stalled_before_fits);
    polled_i_fits = rw rest.2 (i.polled_i_fits);
  };
}
  where
    rest :
        ((request r f).stalled ≡ f.stalled)
        × ((request r f).stalled_before ≡ f.stalled_before)
        × ((request r f).polled_i ≡ f.polled_i)
        × ((request r f).halted ≡ f.halted)
    rest = request-rest r f

note_stall-fields :
    (f : Frame)
    → ((note_stall f).requests ≡ f.requests)
      × ((note_stall f).polled ≡ f.polled)
      × ((note_stall f).deferred ≡ none)
      × ((note_stall f).stalled ≡ some f.requests)
      × ((note_stall f).stalled_before ≡ f.stalled)
      × ((note_stall f).polled_i ≡ f.polled_i)
      × ((note_stall f).halted ≡ f.halted)
unfolding note_stall
note_stall-fields f = (
  ground arith,
  ground arith,
  ground arith,
  ground arith,
  ground arith,
  ground arith,
  ground arith,
)

note_stall-Disturbed : (f : Frame) → Disturbed f (note_stall f)
note_stall-Disturbed f =
    let fields = note_stall-fields f in
    record {
      same_halted = fields.6;
      same_polled_i = fields.5;
      keeps = λ i. record {
        requests_fit = rw fields.0 (i.requests_fit);
        polled_fits = rw fields.1 (i.polled_fits);
        deferred_fits = rw fields.2 tt;
        stalled_fits = rw fields.3 (i.requests_fit);
        stalled_before_fits = rw fields.4 (i.stalled_fits);
        polled_i_fits = rw fields.5 (i.polled_i_fits);
      };
    }

-- A change of the other attributes only.
same-Disturbed :
    (f g : Frame)
    → g.halted ≡ f.halted
    → g.polled_i ≡ f.polled_i
    → (IsFrame f → IsFrame g)
    → Disturbed f g
same-Disturbed f g h k keep = record { same_halted = h; same_polled_i = k; keeps = keep }

resetting-Disturbed : (b : Bool) (f : Frame) → Disturbed f (record f { reset_pending = b })
resetting-Disturbed b f = same-Disturbed f _ refl refl λ i. record {
  requests_fit = i.requests_fit;
  polled_fits = i.polled_fits;
  deferred_fits = i.deferred_fits;
  stalled_fits = i.stalled_fits;
  stalled_before_fits = i.stalled_before_fits;
  polled_i_fits = i.polled_i_fits;
}

stalling-Disturbed : (b : Bool) (f : Frame) → Disturbed f (record f { dma_stalled = b })
stalling-Disturbed b f = same-Disturbed f _ refl refl λ i. record {
  requests_fit = i.requests_fit;
  polled_fits = i.polled_fits;
  deferred_fits = i.deferred_fits;
  stalled_fits = i.stalled_fits;
  stalled_before_fits = i.stalled_before_fits;
  polled_i_fits = i.polled_i_fits;
}

call-Disturbed : (k : Call) (f : Frame) → Disturbed f (call k f)
unfolding call request_maskable_interrupt clear_maskable_interrupt request_non_maskable_interrupt
    clear_non_maskable_interrupt request_reset clear_reset
call-Disturbed Call.raise_irq f =
    request-Disturbed (bit_or f.requests irq_line) (also_polled irq_line) f
      (λ i. bit_or-lt 2 f.requests irq_line (i.requests_fit) (omega arith))
      (λ i. also_polled-Held irq_line f.polled (omega arith) (i.polled_fits))
call-Disturbed Call.release_irq f =
    request-Disturbed (and_not f.requests irq_line) (not_polled irq_line) f
      (λ i. omega (arith, i.requests_fit)) (λ i. not_polled-Held irq_line f.polled (i.polled_fits))
call-Disturbed Call.raise_nmi f =
    request-Disturbed (bit_or f.requests nmi_latch) (also_polled nmi_latch) f
      (λ i. bit_or-lt 2 f.requests nmi_latch (i.requests_fit) (omega arith))
      (λ i. also_polled-Held nmi_latch f.polled (omega arith) (i.polled_fits))
call-Disturbed Call.cancel_nmi f =
    request-Disturbed (and_not f.requests nmi_latch) (not_polled nmi_latch) f
      (λ i. omega (arith, i.requests_fit)) (λ i. not_polled-Held nmi_latch f.polled (i.polled_fits))
call-Disturbed Call.raise_reset f = resetting-Disturbed true f
call-Disturbed Call.cancel_reset f = resetting-Disturbed false f
call-Disturbed Call.stall f = note_stall-Disturbed f
call-Disturbed (Call.set_dma_stalled b) f = stalling-Disturbed b f

pub run_calls-Disturbed : (ks : List Call) (f : Frame) → Disturbed f (run_calls ks f)
unfolding run_calls
run_calls-Disturbed [] f = record { same_halted = refl; same_polled_i = refl; keeps = λ i. i }
run_calls-Disturbed (k ∷ ks) f =
    Disturbed-trans (call-Disturbed k f) (run_calls-Disturbed ks (call k f))

-- Whatever calls a host makes, in any order, from a frame in range: the requests stay two bits, what
-- the last poll left stays such bits or NO_POLL alone, and neither the halt nor the I flag kept for
-- the next boundary changes.
pub run_calls-IsFrame :
    (ks : List Call) (f : Frame)
    → IsFrame f
    → let g = run_calls ks f in IsFrame g × (g.halted ≡ f.halted) × (g.polled_i ≡ f.polled_i)
run_calls-IsFrame ks f i =
    let d = run_calls-Disturbed ks f in (d.keeps i, d.same_halted, d.same_polled_i)
