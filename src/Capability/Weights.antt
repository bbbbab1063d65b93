-- ===== src/Capability/Weights.antt =====
-- Sums over the slots of a table and over the registered tables of kernel/capability.c.
use jcos.Prelude.{
  ℕ, zero, suc, ◌+◌, ◌*◌, ◌≤◌, ◌<◌, ◌≡◌, ◌≢◌, refl, false, ◌&&◌, List, [], ◌∷◌, arith, ◌==◌,
  if◌then◌else◌, nonzero, Bool-cases, inl, inr, set, length, get_or, ap,
}
use jcos.ObjectStorage.{occurrences}
use jcos.Kernel.{CapabilitySlot, CapabilityType, type_eq, update}

-- One for a slot that holds a reference to object `o` of type `u`.
abbrev pub pin : CapabilitySlot → CapabilityType → ℕ → ℕ
pin s u o = if s.occupied && (s.object == o) && type_eq s.type u then 1 else 0

pub pins : (ℕ → CapabilitySlot) → CapabilityType → ℕ → ℕ → ℕ
pins slots u o zero = 0
pins slots u o (suc n) = pin (slots n) u o + pins slots u o n

pub pins-le : (slots : ℕ → CapabilitySlot) (u : CapabilityType) (o n : ℕ) → pins slots u o n ≤ n
unfolding pins
pins-le slots u o zero = omega arith
pins-le slots u o (suc n) = ground (arith, pins-le slots u o n)

pins_above :
    (slots : ℕ → CapabilitySlot) (u : CapabilityType) (o n i : ℕ) (s : CapabilitySlot)
    → n ≤ i
    → pins (update slots i s) u o n ≡ pins slots u o n
unfolding pins
pins_above slots u o zero i s h = refl
pins_above slots u o (suc n) i s h = ground (arith, pins_above slots u o n i s)

-- A write of one slot replaces what that slot pins.
pub pins-update :
    (slots : ℕ → CapabilitySlot) (u : CapabilityType) (o n i : ℕ) (s : CapabilitySlot)
    → i < n
    → pins (update slots i s) u o n + pin (slots i) u o ≡ pins slots u o n + pin s u o
unfolding pins
pins-update slots u o zero i s h = absurd (omega arith)
pins-update slots u o (suc n) i s h = elim (Bool-cases (i == n)) [
  | inl last ↦
      let e : i ≡ n = ground arith in
      let at : pin (slots i) u o ≡ pin (slots n) u o = ap (λ (j : ℕ). pin (slots j) u o) e in
      rw last (omega (arith, at, pins_above slots u o n i s (omega arith)))
  | inr inside ↦ rw inside (omega (arith, pins-update slots u o n i s (ground arith)))
]

pub pins_free :
    (slots : ℕ → CapabilitySlot) (u : CapabilityType) (o n : ℕ)
    → ((i : ℕ) → i < n → (slots i).occupied ≡ false)
    → pins slots u o n ≡ 0
unfolding pins
pins_free slots u o zero h = refl
pins_free slots u o (suc n) h =
    let rest = pins_free slots u o n (λ i l. h i (omega arith)) in
    rw (h n (omega arith)) (omega (arith, rest))

pub pins_pos :
    (slots : ℕ → CapabilitySlot) (u : CapabilityType) (o n i : ℕ)
    → i < n
    → pin (slots i) u o ≤ pins slots u o n
unfolding pins
pins_pos slots u o zero i h = absurd (omega arith)
pins_pos slots u o (suc n) i h = elim (Bool-cases (i == n)) [
  | inl last ↦ let e : i ≡ n = ground arith in rw e (omega arith)
  | inr inside ↦ omega (arith, pins_pos slots u o n i (ground arith))
]

-- The sum of a weight over the registered addresses.
unfoldable pub weight : (ℕ → ℕ) → List ℕ → ℕ
weight w [] = 0
weight w (s ∷ ss) = (if nonzero s then w s else 0) + weight w ss

pub weight-le :
    (w : ℕ → ℕ) (b : ℕ) (ss : List ℕ) → ((t : ℕ) → w t ≤ b) → weight w ss ≤ b * length ss
unfolding weight
weight-le w b [] h = omega arith
weight-le w b (s ∷ ss) h = ground (arith, h s, weight-le w b ss h)

pub weight-set :
    (w : ℕ → ℕ) (ss : List ℕ) (i v : ℕ)
    → i < length ss
    → weight w (set ss i v) + (if nonzero (get_or ss i 0) then w (get_or ss i 0) else 0)
      ≡ weight w ss + (if nonzero v then w v else 0)
unfolding weight
weight-set w [] i v h = absurd (omega arith)
weight-set w (s ∷ ss) zero v h = omega arith
weight-set w (s ∷ ss) (suc i) v h = omega (arith, weight-set w ss i v (omega arith))

-- Two weights that agree but at an address that is not registered have one sum.
pub weight_absent :
    (w x : ℕ → ℕ) (t : ℕ) (ss : List ℕ)
    → ((a : ℕ) → a ≢ t → w a ≡ x a)
    → occurrences ss t ≡ 0
    → weight w ss ≡ weight x ss
unfolding weight
weight_absent w x t [] h z = refl
weight_absent w x t (s ∷ ss) h z = ground (arith, h s, weight_absent w x t ss h (ground arith))

-- Where the address is registered once, the sums differ by the weights there.
pub weight_once :
    (w x : ℕ → ℕ) (t : ℕ) (ss : List ℕ)
    → ((a : ℕ) → a ≢ t → w a ≡ x a)
    → t ≢ 0
    → occurrences ss t ≡ 1
    → weight w ss + x t ≡ weight x ss + w t
unfolding weight
weight_once w x t [] h nz z = absurd (omega arith)
weight_once w x t (s ∷ ss) h nz z = elim (Bool-cases (s == t)) [
  | inl here ↦
      let e : s ≡ t = ground arith in
      let rest : occurrences ss t ≡ 0 = ground arith in
      rw e (ground (arith, weight_absent w x t ss h rest))
  | inr there ↦
      let rest : occurrences ss t ≡ 1 = ground arith in
      ground (arith, h s, weight_once w x t ss h nz rest)
]

pub weight_ge : (w : ℕ → ℕ) (t : ℕ) (ss : List ℕ) → t ≢ 0 → 0 < occurrences ss t → w t ≤ weight w ss
unfolding weight
weight_ge w t [] nz h = absurd (omega arith)
weight_ge w t (s ∷ ss) nz h = elim (Bool-cases (s == t)) [
  | inl here ↦ let e : s ≡ t = ground arith in rw e (ground arith)
  | inr there ↦ ground (arith, weight_ge w t ss nz (ground arith))
]
