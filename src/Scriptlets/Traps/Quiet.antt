-- ===== src/Scriptlets/Traps/Quiet.antt =====
-- Where no callback throws, a trapped property is as it was.
use zen_desktop_localcdn.Common.{false, Option, none, some, if◌then◌else◌, ◌≡◌, refl, ap, ◌∙◌}
use zen_desktop_localcdn.Scriptlets.Traps.{
  Descriptor, Slot, passed, aborted, read_slot, write_slot, Accessing, Callbacks, throws, get_trap,
  set_trap,
}

-- What a property of the descriptor holds behind a write.
abbrev pub written : {S V : Type 0} → Option (S → V) → Option (V → S → S) → V → Slot S V → Option V
written none none v s = some v
written none (some set) v s = s.original_value
written (some get) none v s = some (get s.state)
written (some get) (some set) v s = some (get (set v s.state))

read_slot-write_slot :
    {S V : Type 0} (get : Option (S → V)) (set : Option (V → S → S)) (value : Option V) (v : V)
    (s : Slot S V)
    → read_slot
        (record { get = get; set = set; value = value })
        (write_slot (record { get = get; set = set; value = value }) v s)
      ≡ written get set v s
read_slot-write_slot none none value v s = refl
read_slot-write_slot none (some set) value v s = refl
read_slot-write_slot (some get) none value v s = refl
read_slot-write_slot (some get) (some set) value v s = refl

-- If neither callback throws, a write is let through, and a read behind it gives what the property
-- would hold without the trap.
get_trap-set_trap :
    {S V : Type 0} (callbacks : Callbacks) (d : Descriptor S V) (a : Accessing) (v : V)
    (s : Slot S V)
    → throws callbacks.on_get a ≡ false
    → throws callbacks.on_set a ≡ false
    → (t : Slot S V) × (set_trap callbacks d a v s ≡ passed t)
      × (get_trap callbacks d a t ≡ passed (written d.get d.set v s))
unfolding get_trap set_trap
get_trap-set_trap callbacks d a v s g w = (
  write_slot d v s,
  ap (λ b. if b then aborted else passed (write_slot d v s)) w,
  ap (λ b. if b then aborted else passed (read_slot d (write_slot d v s))) g
      ∙ ap passed (read_slot-write_slot d.get d.set d.value v s),
)
