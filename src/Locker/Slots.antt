-- ===== src/Locker/Slots.antt =====
-- What the locker of locker.go promises, without its maps: each device has a slot of its own.
--
-- A device is free, reserved, in use, or both by one owner. An operation looks at the slot of the
-- device that it names, after a reservation that has run out is gone, and at no other.
use dutctl.Base.{
  ℕ, ◌+◌, String, Option, none, some, List, [], ◌∷◌, ◌==◌, string_eq, if◌then◌else◌, ltb, leb,
}
use dutctl.Base.Int.{ℤ, nonpositive, pos_part}
use dutctl.Locker.{Kind, reserved, busy}
use dutctl.Locker.History.{Call, locks, clears, forces, auto_locks, clear_autos, checks, lists}

-- The owner, the start of the use, and the start and the end of the reservation.
pub data Slot : Type 0 where
  free : Slot
  kept : String → ℕ → ℕ → Slot
  used : String → ℕ → Slot
  both : String → ℕ → ℕ → ℕ → Slot

-- A hold as it is replied: its kind, its owner, its start and its end, 0 if it has none.
pub data Entry : Type 0 where
  entry : Kind → String → ℕ → ℕ → Entry

pub data Reply : Type 0 where
  granted_to taken_by : Entry → Reply
  done no_lock bad_duration : Reply
  listed : (String → Option Entry) → Reply

unfoldable pub expire : ℕ → Slot → Slot
expire now (kept owner since until) = if leb until now then free else kept owner since until
expire now (both owner since until start) =
    if leb until now then used owner start else both owner since until start
expire now slot = slot

-- The hold that stands for a slot: a reservation covers the use.
unfoldable pub front : Slot → Option Entry
front free = none
front (kept owner since until) = some (entry reserved owner since until)
front (used owner start) = some (entry busy owner start 0)
front (both owner since until start) = some (entry reserved owner since until)

unless_own : String → Entry → Option Entry
unless_own user (entry kind owner since until) =
    if owner == user then none else some (entry kind owner since until)

-- The hold that stands in the way of a user.
unfoldable pub in_the_way : String → Slot → Option Entry
unfolding front unless_own
in_the_way user slot = elim (front slot) [ none ↦ none | some e ↦ unless_own user e ]

later : ℕ → ℕ → ℕ
later a b = if ltb a b then b else a

unfoldable pub reserve : String → ℕ → ℕ → Slot → Slot
unfolding later
reserve user now until free = kept user now until
reserve user now until (used owner start) = both owner now until start
reserve user now until (kept owner since old) = kept owner since (later old until)
reserve user now until (both owner since old start) = both owner since (later old until) start

unfoldable pub enter : String → ℕ → Slot → Slot
enter user now free = used user now
enter user now (kept owner since until) = both owner since until now
enter user now slot = slot

unfoldable pub leave : Slot → Slot
leave (used owner start) = free
leave (both owner since until start) = kept owner since until
leave slot = slot

unfoldable pub give_up : Slot → Slot
give_up (kept owner since until) = free
give_up (both owner since until start) = used owner start
give_up slot = slot

-- The reservation, and the use.
unfoldable pub keeper : Slot → Option Entry
keeper (kept owner since until) = some (entry reserved owner since until)
keeper (both owner since until start) = some (entry reserved owner since until)
keeper slot = none

unfoldable pub worker : Slot → Option Entry
worker (used owner start) = some (entry busy owner start 0)
worker (both owner since until start) = some (entry busy owner start 0)
worker slot = none

-- The outcome of an operation that only the named owner may do.
unfoldable pub owned_by : String → Option Entry → Reply
owned_by user none = no_lock
owned_by user (some (entry kind owner since until)) =
    if owner == user then done else taken_by (entry kind owner since until)

-- The reply of an operation that gives a hold.
unfoldable pub grants : Option Entry → Reply
grants none = no_lock
grants (some e) = granted_to e

-- A slot after an operation that is refused by `reply`.
unfoldable pub if_done : Reply → Slot → Slot → Slot
if_done done slot other = slot
if_done reply slot other = other

unfoldable pub on_lock : String → ℤ → ℕ → ℕ → ℕ → Slot → Slot × Reply
unfolding in_the_way reserve keeper grants
on_lock user dur checked now again slot =
    if nonpositive dur then (slot, bad_duration) else elim (in_the_way user (expire checked slot)) [
      | some e ↦ (expire checked slot, taken_by e)
      | none ↦
          let next = reserve user now (now + pos_part dur) (expire again (expire checked slot)) in
          (next, grants (keeper next))
    ]

unfoldable pub on_auto_lock : String → ℕ → ℕ → Slot → Slot × Reply
unfolding in_the_way enter worker grants
on_auto_lock user checked now slot = elim (in_the_way user (expire checked slot)) [
  | some e ↦ (expire checked slot, taken_by e)
  | none ↦ let next = enter user now (expire checked slot) in (next, grants (worker next))
]

unfoldable pub on_clear : String → ℕ → Slot → Slot × Reply
unfolding keeper give_up owned_by if_done
on_clear user now slot =
    let reply = owned_by user (keeper (expire now slot)) in
    (if_done reply (give_up (expire now slot)) (expire now slot), reply)

unfoldable pub on_clear_auto : String → Slot → Slot × Reply
unfolding worker leave owned_by if_done
on_clear_auto user slot =
    let reply = owned_by user (worker slot) in (if_done reply (leave slot) slot, reply)

unfoldable pub on_force : ℕ → Slot → Slot × Reply
unfolding front
on_force now slot = elim (front (expire now slot)) [
  | none ↦ (free, no_lock)
  | some e ↦ (free, done)
]

unfoldable pub on_check : String → ℕ → Slot → Slot × Reply
unfolding in_the_way
on_check user now slot = (
  expire now slot,
  elim (in_the_way user (expire now slot)) [ none ↦ done | some e ↦ taken_by e ],
)

abbrev pub Slots : Type 0
Slots = String → Slot

-- A call's effect on its device's slot.
at : String → (Slot → Slot × Reply) → Slots → Slots × Reply
at device op slots =
    (λ other. if other == device then (op (slots device)).0 else slots other, (op (slots device)).1)

unfoldable pub serve : Slots → Call → Slots × Reply
unfolding at front on_lock on_auto_lock on_clear on_clear_auto on_force on_check
serve slots (locks device user dur checked now again) =
    at device (on_lock user dur checked now again) slots
serve slots (clears device user now) = at device (on_clear user now) slots
serve slots (forces device now) = at device (on_force now) slots
serve slots (auto_locks device user checked now) = at device (on_auto_lock user checked now) slots
serve slots (clear_autos device user) = at device (on_clear_auto user) slots
serve slots (checks device user now) = at device (on_check user now) slots
serve slots (lists clock) = (
  λ device. expire (clock device) (slots device),
  listed (λ device. front (expire (clock device) (slots device))),
)

unfoldable pub serve_all : Slots → List Call → Slots
unfolding serve
serve_all slots [] = slots
serve_all slots (c ∷ cs) = serve_all (serve slots c).0 cs
