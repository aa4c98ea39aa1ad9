-- ===== src/Dispatcher/Order.antt =====
-- Which waiting request `drain` sends: the most urgent, and the oldest of those.
use mathlib.Core.List.{Perm}
use mathlib.Core.List.Perm
use fountainer_client_framew.Common.{
  ◌≤◌, ◌<◌, ◌≡◌, ◌⊎◌, inl, inr, refl, subst, true, false, String, List, [], ◌∷◌, arith, All,
  Bool-cases,
}
use fountainer_client_framew.Error.{Result, ok, err}
use fountainer_client_framew.Dispatcher.{after_send, send_next}
use fountainer_client_framew.Dispatcher.Types.{rank, RequestSpec, Waiting, Dispatcher}
use fountainer_client_framew.Dispatcher.Queue.{before, take_next}
use fountainer_client_framew.Dispatcher.Flight.{send_next-queue}

-- `x` is no more urgent than `w`, and no older where it is as urgent.
abbrev pub NotBefore : Waiting → Waiting → Type 0
NotBefore w x =
    (rank w.spec.priority < rank x.spec.priority)
    ⊎ ((rank w.spec.priority ≡ rank x.spec.priority) × (w.sequence ≤ x.sequence))

NotBefore-trans : (a b c : Waiting) → NotBefore a b → NotBefore b c → NotBefore a c
NotBefore-trans a b c (inl p) (inl q) = inl (omega arith)
NotBefore-trans a b c (inl p) (inr q) = inl (omega arith)
NotBefore-trans a b c (inr p) (inl q) = inl (omega arith)
NotBefore-trans a b c (inr p) (inr q) = inr (omega arith, omega arith)

before→NotBefore : (a b : Waiting) → before a b ≡ true → NotBefore a b
before→NotBefore a b e = ground arith

not-before→NotBefore : (a b : Waiting) → before a b ≡ false → NotBefore b a
not-before→NotBefore a b e = ground arith

All-NotBefore :
    (a b : Waiting) (xs : List Waiting)
    → NotBefore a b
    → All (NotBefore b) xs
    → All (NotBefore a) xs
All-NotBefore a b [] h k = tt
All-NotBefore a b (x ∷ xs) h k = (NotBefore-trans a b x h k.0, All-NotBefore a b xs h k.1)

NotBefore-refl : (a : Waiting) → NotBefore a a
NotBefore-refl a = inr (refl, omega arith)

least_of :
    (w : Waiting) (ws : List Waiting) (m : Waiting)
    → (take_next w ws).0 ≡ m
    → All (NotBefore m) (w ∷ ws)
unfolding take_next
least_of w [] m e = subst (λ k. All (NotBefore k) (w ∷ [])) e (NotBefore-refl w, tt)
least_of w (x ∷ xs) m e = elim (Bool-cases (before (take_next x xs).0 w)) [
  | inl b ↦
      let e' = rw b at e in
      (subst (λ k. NotBefore k w) e' (before→NotBefore (take_next x xs).0 w b), least_of x xs m e')
  | inr b ↦
      let e' = rw b at e in
      subst (λ k. All (NotBefore k) (w ∷ x ∷ xs)) e'
        (
          NotBefore-refl w,
          All-NotBefore w (take_next x xs).0 (x ∷ xs) (not-before→NotBefore (take_next x xs).0 w b)
              (least_of x xs _ refl),
        )
]

take_next-perm :
    (w : Waiting) (ws : List Waiting) → Perm (w ∷ ws) ((take_next w ws).0 ∷ (take_next w ws).1)
unfolding take_next
take_next-perm w [] = Perm.refl (w ∷ [])
take_next-perm w (x ∷ xs) = elim (Bool-cases (before (take_next x xs).0 w)) [
  | inl e ↦ rw e (Perm.trans (Perm.cons w (take_next-perm x xs)) (Perm.swap (take_next x xs).0 w _))
  | inr e ↦ rw e (Perm.refl (w ∷ x ∷ xs))
]

module _ {S : Type 0} (send_ : S → RequestSpec → Result String × S) where
  after_send-sender :
      (w : Waiting) (r : Result String) (d : Dispatcher S) → (after_send w r d).sender ≡ d.sender
  unfolding after_send
  after_send-sender w (err e) d = refl
  after_send-sender w (ok id) d = refl

  send_next-sender :
      (w : Waiting) (ws : List Waiting) (d : Dispatcher S)
      → (send_next send_ w ws d).sender ≡ (send_ d.sender (take_next w ws).0.spec).1
  unfolding send_next
  send_next-sender w ws d =
      let sent = send_ d.sender (take_next w ws).0.spec in
      after_send-sender (take_next w ws).0 sent.0
        (record d { queue = (take_next w ws).1; sender = sent.1 })

  -- A round of `drain` hands `send_` the request of an entry that is as urgent as every waiting entry,
  -- and as old as each that is as urgent; the entries left behind are the others, each once.
  pub send_next-least :
      (w : Waiting) (ws : List Waiting) (d : Dispatcher S)
      → let next = (take_next w ws).0 in
        let d' = send_next send_ w ws d in
        (d'.sender ≡ (send_ d.sender next.spec).1)
        × All (NotBefore next) (w ∷ ws)
        × Perm (w ∷ ws) (next ∷ d'.queue)
  send_next-least w ws d =
      (send_next-sender w ws d, least_of w ws _ refl, rw send_next-queue (take_next-perm w ws))
