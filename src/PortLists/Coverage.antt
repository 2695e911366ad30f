-- ===== src/PortLists/Coverage.antt =====
-- Collapsing the list loses no port and invents none.
use sagedockhand.Common.{
  leb, leb→le, Bool-cases, length, length-append, ℕ, suc, ◌+◌, ◌≤◌, ◌≡◌, refl, inl, inr, true, List,
  [], ◌∷◌, ◌++◌, arith,
}
use sagedockhand.PortLists.Format.{
  PortInfo, PortMapping, individual, range_of, flush_range, follows, collapse_from, collapse,
  format_ports,
}
use mathlib.Core.List.{append-nil, append_assoc}

-- Ports that count up together from the given ones.
abbrev pub IsRun : ℕ → ℕ → List PortMapping → Type 0
IsRun public private [] = Unit
IsRun public private (p ∷ ps) =
    (p.public_port ≡ public) × (p.private_port ≡ private) × IsRun (suc public) (suc private) ps

-- The second list shows the first: every entry of it is the next port, or the range of the next three or
-- more, which count up together.
pub data Shows : List PortMapping → List PortMapping → Type 0 where
  done : Shows [] []
  single :
      {p : PortMapping} {items shown : List PortMapping}
      → Shows items shown
      → Shows (p ∷ items) (p ∷ shown)
  ranged :
      (start last : PortMapping) (run : List PortMapping) {items shown : List PortMapping}
      → IsRun start.public_port start.private_port run
      → 3 ≤ length run
      → suc last.public_port ≡ start.public_port + length run
      → suc last.private_port ≡ start.private_port + length run
      → Shows items shown
      → Shows (run ++ items) (range_of start last ∷ shown)

IsRun-append :
    (public private : ℕ) (run : List PortMapping) (p : PortMapping)
    → IsRun public private run
    → p.public_port ≡ public + length run
    → p.private_port ≡ private + length run
    → IsRun public private (run ++ p ∷ [])
IsRun-append public private [] p h e f = (omega arith, omega arith, tt)
IsRun-append public private (q ∷ run) p (a, b, h) e f =
    (a, b, IsRun-append (suc public) (suc private) run p h (omega arith) (omega arith))

-- The run from `start` to `last`.
record IsPending (start last : PortMapping) (run : List PortMapping) : Type 0 where
  counts : IsRun start.public_port start.private_port run
  last_public : suc last.public_port ≡ start.public_port + length run
  last_private : suc last.private_port ≡ start.private_port + length run

Shows-append :
    (run : List PortMapping) {items shown : List PortMapping}
    → Shows items shown
    → Shows (run ++ items) (run ++ shown)
Shows-append [] h = h
Shows-append (p ∷ run) h = single (Shows-append run h)

flush_range-Shows :
    (start last : PortMapping) (run : List PortMapping) {items shown : List PortMapping}
    → IsPending start last run
    → Shows items shown
    → Shows (run ++ items) (flush_range start last run ++ shown)
unfolding flush_range
flush_range-Shows start last run pending h = elim (Bool-cases (leb 3 (length run))) [
  | inl long ↦ rw long (
      ranged start last run pending.counts (leb→le 3 (length run) long) pending.last_public
        pending.last_private h)
  | inr short ↦ rw short (Shows-append run h)
]

alone-IsPending : (p : PortMapping) → IsPending p p (p ∷ [])
alone-IsPending p = record {
  counts = (refl, refl, tt);
  last_public = omega arith;
  last_private = omega arith;
}

longer-IsPending :
    (start prev curr : PortMapping) (run : List PortMapping)
    → IsPending start prev run
    → follows start prev curr ≡ true
    → IsPending start curr (run ++ curr ∷ [])
longer-IsPending start prev curr run pending h =
    let next : curr.public_port ≡ start.public_port + length run =
      ground (arith, h, pending.last_public) in
    let private : curr.private_port ≡ start.private_port + length run = ground (arith, h, next) in
    record {
      counts =
          IsRun-append start.public_port start.private_port run curr pending.counts next private;
      last_public = omega (arith, next, length-append run (curr ∷ []));
      last_private = omega (arith, private, length-append run (curr ∷ []));
    }

collapse_from-Shows :
    (start prev : PortMapping) (run items : List PortMapping)
    → IsPending start prev run
    → Shows (run ++ items) (collapse_from start prev run items)
unfolding collapse_from
collapse_from-Shows start prev run [] pending =
    rw (← append-nil (flush_range start prev run)) (flush_range-Shows start prev run pending done)
collapse_from-Shows start prev run (curr ∷ items) pending =
    elim (Bool-cases (follows start prev curr)) [
      | inl next ↦
          rw (next, ← append_assoc run (curr ∷ []) items)
            (collapse_from-Shows start curr (run ++ curr ∷ []) items
              (longer-IsPending start prev curr run pending next))
      | inr gap ↦ rw gap (
          flush_range-Shows start prev run pending
            (collapse_from-Shows curr curr (curr ∷ []) items (alone-IsPending curr)))
    ]

collapse-Shows : (items : List PortMapping) → Shows items (collapse items)
unfolding collapse
collapse-Shows [] = done
collapse-Shows (p ∷ []) = single done
collapse-Shows (p ∷ q ∷ items) = collapse_from-Shows p p (p ∷ []) (q ∷ items) (alone-IsPending p)

-- The list that is shown covers the list of individual ports in its order, each of them once: every entry
-- is the next port, or the range of the next three or more, whose public and private ports count up
-- together.
pub format_ports-Shows : (ports : List PortInfo) → Shows (individual ports) (format_ports ports)
unfolding format_ports
format_ports-Shows ports = collapse-Shows (individual ports)
