-- ===== src/Auth/Replay.antt =====
-- `AntiReplay` of include/fountainer/protocol/auth.hpp.
use fountainer_client_framew.Common.{
  ℕ, suc, ◌+◌, ◌<◌, Bool, true, false, List, [], ◌∷◌, leb, leb→gt, Bool-cases, inl, inr,
  if◌then◌else◌,
}
use fountainer_client_framew.Json.{ℤ, pos, negsuc}

abbrev pub pos_part : ℤ → ℕ
pos_part (pos n) = n
pos_part (negsuc n) = 0

abbrev pub neg_part : ℤ → ℕ
neg_part (pos n) = 0
neg_part (negsuc n) = suc n

infix 50 ◌<ℤ◌
abbrev pub ◌<ℤ◌ : ℤ → ℤ → Type 0
a <ℤ b = pos_part a + neg_part b < pos_part b + neg_part a

-- `a <= b` on `std::int64_t`.
abbrev pub leb_ℤ : ℤ → ℤ → Bool
leb_ℤ a b = leb (pos_part a + neg_part b) (pos_part b + neg_part a)

pub record AntiReplay : Type 0 where
  pub last : ℤ

-- A new instance, one for each connection.
abbrev pub fresh_replay : AntiReplay
fresh_replay = record { last = pos 0 }

unfoldable pub check : AntiReplay → ℤ → AntiReplay × Bool
check r seq = if leb_ℤ seq r.last then (r, false) else (record { last = seq }, true)

-- The sequence numbers of a connection that `check` lets through, in order.
unfoldable pub let_through : AntiReplay → List ℤ → List ℤ
let_through r [] = []
let_through r (seq ∷ seqs) =
    let (r', passed) = check r seq in
    let rest = let_through r' seqs in if passed then seq ∷ rest else rest

-- Each number is greater than the one before it, the first greater than the bound.
abbrev pub Ascending : ℤ → List ℤ → Type 0
Ascending b [] = Unit {0}
Ascending b (n ∷ ns) = (b <ℤ n) × Ascending n ns

-- Whatever numbers a connection brings, those that `check` lets through rise strictly above its
-- last number: a frame that was accepted is never accepted again, nor is any older one.
pub let_through-Ascending : (r : AntiReplay) (seqs : List ℤ) → Ascending r.last (let_through r seqs)
unfolding let_through check
let_through-Ascending r [] = tt
let_through-Ascending r (seq ∷ seqs) = elim (Bool-cases (leb_ℤ seq r.last)) [
  | inl old ↦ rw (old, let_through) (let_through-Ascending r seqs)
  | inr new ↦
      rw (new, let_through) (leb→gt _ _ new, let_through-Ascending (record { last = seq }) seqs)
]
