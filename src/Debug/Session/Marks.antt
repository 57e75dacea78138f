-- ===== src/Debug/Session/Marks.antt =====
-- The breakpoints and the watchpoints of a `DebugSession` (src/sixfiveohtwo/debug.py).
use python.Prelude.{
  ℕ, ◌≤◌, ◌<◌, ◌≡◌, ◌⊎◌, inl, inr, refl, sym, ◌∙◌, ap, Bool, Bool-cases, Option-cases, true, false,
  Option, none, some, List, [], ◌∷◌, ◌&&◌, ◌||◌, not, ◌==◌, leb, maybe, if◌then◌else◌, arith,
}
use python.Text.{Text}
use python.Debug.Access.{Access}
use python.Debug.Session.{
  WatchKind, watch_kind, watches, Session, member, discard, watched, set_item, pop_item,
  validate_address, add_breakpoint, remove_breakpoint, add_watchpoint, remove_watchpoint, is_hit,
}

member-discard : (x a : ℕ) (l : List ℕ) → member x (discard a l) ≡ (not (x == a) && member x l)
unfolding member discard
member-discard x a [] = ground arith
member-discard x a (y ∷ l) = ground (arith, member-discard x a l)

-- On a 16-bit address, and on no other, a breakpoint is added or removed: adding makes its address one
-- and keeps the others, removing undoes just that, and an address over $FFFF raises.
pub breakpoint_lem :
    {T : Type 0} (address x : ℕ) (s : Session T)
    → ((0x10000 ≤ address)
        × (add_breakpoint address s ≡ none)
        × (remove_breakpoint address s ≡ none))
      ⊎ ((address < 0x10000)
          × (added : Session T) × (removed : Session T) × (add_breakpoint address s ≡ some added)
          × (member x added.breakpoints ≡ (x == address || member x s.breakpoints))
          × (remove_breakpoint address s ≡ some removed)
          × (member x removed.breakpoints ≡ (not (x == address) && member x s.breakpoints)))
unfolding add_breakpoint remove_breakpoint validate_address member
breakpoint_lem address x s = elim (Bool-cases (leb address 0xffff)) [
  | inr e ↦ inl (over address e, rw e refl, rw e refl)
  | inl e ↦ inr (
    below address e,
    (if member address s.breakpoints
        then s
        else record s { breakpoints = address ∷ s.breakpoints }),
    record s { breakpoints = discard address s.breakpoints },
    rw e refl,
    added_lem (member address s.breakpoints) refl,
    rw e refl,
    member-discard x address s.breakpoints,
  )
]
  where
    over : (a : ℕ) → leb a 0xffff ≡ false → 0x10000 ≤ a
    over a e = ground (arith, e)

    below : (a : ℕ) → leb a 0xffff ≡ true → a < 0x10000
    below a e = ground (arith, e)

    added_lem :
        (b : Bool)
        → member address s.breakpoints ≡ b
        → member x (if b then s else record s { breakpoints = address ∷ s.breakpoints }).breakpoints
          ≡ (x == address || member x s.breakpoints)
    added_lem true e = elim (Bool-cases (x == address)) [
      | inl f ↦
          let same : x ≡ address = ground (arith, f) in
          rw f (ap (λ y. member y s.breakpoints) same ∙ e)
      | inr f ↦ rw f refl
    ]
    added_lem false e = refl

-- A dictionary has each key once.
unfoldable pub HasKeysOnce : List (ℕ × WatchKind) → Type 0
unfolding watched
HasKeysOnce [] = Unit
HasKeysOnce (item ∷ items) = (watched items item.0 ≡ none) × HasKeysOnce items

watched-set_item :
    (items : List (ℕ × WatchKind)) (a x : ℕ) (kind : WatchKind)
    → watched (set_item items a kind) x ≡ (if x == a then some kind else watched items x)
unfolding watched set_item
watched-set_item [] a x kind = ground arith
watched-set_item ((k, v) ∷ items) a x kind =
    let ih = watched-set_item items a x kind in ground (arith, ih, watched)

watched-pop_item :
    (items : List (ℕ × WatchKind)) (a x : ℕ)
    → HasKeysOnce items
    → watched (pop_item items a) x ≡ (if x == a then none else watched items x)
unfolding watched pop_item HasKeysOnce
watched-pop_item [] a x h = ground arith
watched-pop_item ((k, v) ∷ items) a x h =
    let ih = watched-pop_item items a x (h.1) in
    elim (Bool-cases (a == k)) [
      | inl e ↦
          let same : a ≡ k = ground (arith, e) in
          rw e (elim (Bool-cases (x == a)) [
            | inl f ↦
                let here : k ≡ x = ground (arith, e, f) in
                rw f (ap (watched items) (sym here) ∙ h.0)
            | inr f ↦ rw f (rw (trans_ne x a k f same) refl)
          ])
      | inr e ↦ rw e (elim (Bool-cases (x == k)) [
        | inl f ↦ rw f (rw (other x a k f e) refl)
        | inr f ↦ rw f ih
      ])
    ]
  where
    trans_ne : (x a k : ℕ) → (x == a) ≡ false → a ≡ k → (x == k) ≡ false
    trans_ne x a k f e = ground (arith, f, e)

    other : (x a k : ℕ) → (x == k) ≡ true → (a == k) ≡ false → (x == a) ≡ false
    other x a k f e = ground (arith, f, e)

set_item-HasKeysOnce :
    (items : List (ℕ × WatchKind)) (a : ℕ) (kind : WatchKind)
    → HasKeysOnce items
    → HasKeysOnce (set_item items a kind)
unfolding HasKeysOnce set_item watched
set_item-HasKeysOnce [] a kind h = (refl, tt)
set_item-HasKeysOnce ((k, v) ∷ items) a kind h = elim (Bool-cases (a == k)) [
  | inl e ↦ let same : k ≡ a = ground (arith, e) in rw e (ap (watched items) (sym same) ∙ h.0, h.1)
  | inr e ↦ rw e (
    watched-set_item items a k kind ∙ rw (flip a k e) (h.0),
    set_item-HasKeysOnce items a kind (h.1),
  )
]
  where
    flip : (a k : ℕ) → (a == k) ≡ false → (k == a) ≡ false
    flip a k e = ground (arith, e)

pop_item-HasKeysOnce :
    (items : List (ℕ × WatchKind)) (a : ℕ) → HasKeysOnce items → HasKeysOnce (pop_item items a)
unfolding HasKeysOnce pop_item watched
pop_item-HasKeysOnce [] a h = tt
pop_item-HasKeysOnce ((k, v) ∷ items) a h = elim (Bool-cases (a == k)) [
  | inl e ↦ rw e (h.1)
  | inr e ↦
      rw e (
        watched-pop_item items a k (h.1) ∙ rw (flip a k e) (h.0),
        pop_item-HasKeysOnce items a (h.1),
      )
]
  where
    flip : (a k : ℕ) → (a == k) ≡ false → (k == a) ≡ false
    flip a k e = ground (arith, e)

-- A watchpoint is added only in a session that tracks, of a known kind and on a 16-bit address, and raises
-- else; it then stops at the accesses of its kind to its address, and the other addresses stop as
-- before.
pub add_watchpoint_lem :
    {T : Type 0} (address : ℕ) (kind : Text) (access : Access) (s : Session T)
    → HasKeysOnce s.watchpoints
    → (((s.tracking ≡ false) ⊎ (watch_kind kind ≡ none) ⊎ (0x10000 ≤ address))
        × (add_watchpoint address kind s ≡ none))
      ⊎ ((s.tracking ≡ true)
          × (address < 0x10000)
          × (watch : WatchKind) × (added : Session T) × (watch_kind kind ≡ some watch)
          × (add_watchpoint address kind s ≡ some added)
          × HasKeysOnce added.watchpoints
          × (is_hit added.watchpoints access ≡ (
              if access.address == address
              then watches watch access.kind
              else is_hit s.watchpoints access)))
unfolding add_watchpoint validate_address is_hit
add_watchpoint_lem address kind access s once = elim (Bool-cases s.tracking) [
  | inr e ↦ inl (inl e, rw e refl)
  | inl t ↦ elim (Option-cases (watch_kind kind)) [
    | inl e ↦ inl (inr (inl e), rw t (rw e refl))
    | inr (watch, k) ↦ elim (Bool-cases (leb address 0xffff)) [
      | inr e ↦ inl (inr (inr (over address e)), rw t (rw k (rw e refl)))
      | inl e ↦ inr (
        t,
        below address e,
        watch,
        record s { watchpoints = set_item s.watchpoints address watch },
        k,
        rw t (rw k (rw e refl)),
        set_item-HasKeysOnce s.watchpoints address watch once,
        ap (maybe false (λ w. watches w access.kind))
              (watched-set_item s.watchpoints address access.address watch)
            ∙ if_hit watch (watched s.watchpoints access.address) (access.address == address),
      )
    ]
  ]
]
  where
    over : (a : ℕ) → leb a 0xffff ≡ false → 0x10000 ≤ a
    over a e = ground (arith, e)

    below : (a : ℕ) → leb a 0xffff ≡ true → a < 0x10000
    below a e = ground (arith, e)

    if_hit :
        (w : WatchKind) (o : Option WatchKind) (b : Bool)
        → maybe false (λ w. watches w access.kind) (if b then some w else o)
          ≡ (if b then watches w access.kind else maybe false (λ w. watches w access.kind) o)
    if_hit w o true = refl
    if_hit w o false = refl

-- Removing a watchpoint ends the stops at its address, and the other addresses stop as before.
pub remove_watchpoint_lem :
    {T : Type 0} (address : ℕ) (access : Access) (s : Session T)
    → HasKeysOnce s.watchpoints
    → address < 0x10000
    → (removed : Session T) × (remove_watchpoint address s ≡ some removed)
      × HasKeysOnce removed.watchpoints
      × (is_hit removed.watchpoints access
          ≡ (not (access.address == address) && is_hit s.watchpoints access))
unfolding remove_watchpoint validate_address is_hit
remove_watchpoint_lem address access s once h = (
  record s { watchpoints = pop_item s.watchpoints address },
  rw (within address h) refl,
  pop_item-HasKeysOnce s.watchpoints address once,
  ap (maybe false (λ w. watches w access.kind))
        (watched-pop_item s.watchpoints address access.address once)
      ∙ if_hit (watched s.watchpoints access.address) (access.address == address),
)
  where
    within : (a : ℕ) → a < 0x10000 → leb a 0xffff ≡ true
    within a h = ground (arith, h)

    if_hit :
        (o : Option WatchKind) (b : Bool)
        → maybe false (λ w. watches w access.kind) (if b then none else o)
          ≡ (not b && maybe false (λ w. watches w access.kind) o)
    if_hit o true = refl
    if_hit o false = refl
