-- ===== src/Erp/Rounding.antt =====
-- What round2 does to a stock (server/src/repositories/memory.ts).
use hanmir_talk.Prelude.{
  ℕ, ◌+◌, ◌*◌, ◌%◌, ◌≤◌, ◌≡◌, inl, inr, Bool, ◌&&◌, List, [], ◌∷◌, arith, ◌==◌, if◌then◌else◌,
  Bool-cases, Ident,
}
use hanmir_talk.Erp.{
  Quantity, Balance, hundredth, half, round2, plus, available_qty, apply_balance_delta,
  change_balance,
}

-- A whole number of hundredths.
abbrev pub is_whole : Quantity → Bool
is_whole q = (q.up % hundredth) == (q.down % hundredth)

abbrev pub IsWhole : Quantity → Type 0
IsWhole q = q.up % hundredth ≡ q.down % hundredth

-- The numbers differ by at most `k` halves of a hundredth.
abbrev pub Within : ℕ → Quantity → Quantity → Type 0
Within k a b =
    (a.up + b.down ≤ b.up + a.down + k * half) × (b.up + a.down ≤ a.up + b.down + k * half)

pub round2-IsWhole : (q : Quantity) → IsWhole (round2 q)
unfolding round2
round2-IsWhole q = ground arith

round2-near : (q : Quantity) → Within 1 (round2 q) q
unfolding round2
round2-near q = ground arith

round2-exact : (q : Quantity) → IsWhole q → Within 0 (round2 q) q
unfolding round2
round2-exact q h = ground (arith, h)

pub round2-not_negative : (q : Quantity) → q.down ≤ q.up → (round2 q).down ≤ (round2 q).up
unfolding round2
round2-not_negative q h = ground (arith, h)

-- One rounded change of a stock moves it away from the exact sum by half a hundredth at most, and
-- by nothing if the change is a whole number of hundredths.
pub round2-Within :
    (k : ℕ) (a d b : Quantity)
    → IsWhole a
    → Within k a b
    → Within (k + (if is_whole d then 0 else 1)) (round2 (plus a d)) (plus b d)
round2-Within k a d b w h = elim (Bool-cases (is_whole d)) [
  | inl e ↦ rw e (omega (arith, h, round2-exact (plus a d) (ground (arith, w, e))))
  | inr e ↦ rw e (omega (arith, h, round2-near (plus a d)))
]

available_qty-change_balance :
    (v w variant warehouse : Ident) (f : Quantity → Quantity) (now : ℕ) (bs : List Balance)
    → available_qty v w (change_balance variant warehouse f now bs)
      ≡ (if variant == v && warehouse == w then f (available_qty v w bs) else available_qty v w bs)
unfolding available_qty change_balance
available_qty-change_balance v w variant warehouse f now [] = ground arith
available_qty-change_balance v w variant warehouse f now (b ∷ bs) =
    ground (arith, available_qty-change_balance v w variant warehouse f now bs)

pub available_qty-change :
    (v w variant warehouse : Ident) (d : Quantity) (now : ℕ) (bs : List Balance)
    → available_qty v w (apply_balance_delta variant warehouse d now bs) ≡ (
        if variant == v && warehouse == w
        then round2 (plus (available_qty v w bs) d)
        else available_qty v w bs)
unfolding apply_balance_delta
available_qty-change v w variant warehouse d now bs =
    available_qty-change_balance v w variant warehouse (λ q. round2 (plus q d)) now bs
