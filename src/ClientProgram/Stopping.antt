-- ===== src/ClientProgram/Stopping.antt =====
-- What Stop gives back, and where it panics.
use gocs.Prelude.{
  ℕ, ◌∙◌, sym, ap, ◌≡◌, ◌↔◌, ◌⊎◌, inl, inr, eqb, Bool, true, false, ◌||◌, Option, none, some, List,
  [], ◌∷◌, ◌++◌, if◌then◌else◌, arith, Option-cases, Bool-cases,
}
use gocs.Prelude.Keys.{elem, elem-append}
use gocs.Errors.{Error}
use gocs.ClientProgram.{Client, returned, panicked, stop, held, listeners}

abbrev pub one : Option ℕ → List ℕ
one none = []
one (some r) = r ∷ []

-- The listener counts where Stop looks for it.
abbrev pub managed : Client → List ℕ
managed c = if c.manager then one c.listener else []

abbrev pub servers : Client → List ℕ
servers c = held c.server ++ (held c.auto_server ++ listeners c.forward_all)

-- The resources that the client's fields hold.
abbrev pub resources : Client → List ℕ
resources c = one c.pool ++ (managed c ++ servers c)

-- No resource is lost: what was acquired was given back, or a field holds it.
abbrev pub IsHeld : Client → Type 0
IsHeld c = (r : ℕ) → elem r c.opened ≡ true → (elem r c.closed || elem r (resources c)) ≡ true

-- Everything that was acquired was given back.
abbrev pub IsReleased : Client → Type 0
IsReleased c = (r : ℕ) → elem r c.opened ≡ true → elem r c.closed ≡ true

-- Stop panics exactly on a client without a pool, and on one whose manager has no listener.
pub stop-panics_iff :
    (c : Client)
    → ((stop c).0 ≡ panicked) ↔ ((c.pool ≡ none) ⊎ ((c.manager ≡ true) × (c.listener ≡ none)))
unfolding stop
stop-panics_iff c = (λ h. why h, λ h. ground arith)
  where
    why : (stop c).0 ≡ panicked → (c.pool ≡ none) ⊎ ((c.manager ≡ true) × (c.listener ≡ none))
    why h = elim (Option-cases c.pool) [
      | inl e ↦ inl e
      | inr (p, e) ↦ elim (Option-cases c.listener) [
        | inl l ↦ elim (Bool-cases c.manager) [ inl m ↦ inr (m, l) | inr m ↦ absurd (ground arith) ]
        | inr (l, k) ↦ absurd (ground arith)
      ]
    ]

elem-shuffle :
    (r : ℕ) (ls xs ss cs : List ℕ)
    → elem r (ls ++ (xs ++ (ss ++ cs))) ≡ (elem r (ss ++ (xs ++ ls)) || elem r cs)
elem-shuffle r ls xs ss cs = ground (
  arith,
  elem-append r ls (xs ++ (ss ++ cs)),
  elem-append r xs (ss ++ cs),
  elem-append r ss cs,
  elem-append r ss (xs ++ ls),
  elem-append r xs ls,
)

regroup : (x y z w : Bool) → (x || (y || (z || w))) ≡ ((z || (y || x)) || w)
regroup x y z w = ground arith

-- What Stop gives back where it does not panic.
stop-closed :
    (r : ℕ) (c : Client)
    → (stop c).0 ≡ returned none
    → elem r (stop c).1.closed ≡ (elem r (resources c) || elem r c.closed)
unfolding stop elem
stop-closed r c e = elim (Option-cases c.pool) [
  | inl none' ↦ absurd (ground arith)
  | inr (p, q) ↦ elim (Bool-cases c.manager) [
    | inr m ↦
        rw (q, m, stop)
          (elem-shuffle r (listeners c.forward_all) (held c.auto_server) (held c.server)
              (p ∷ c.closed)
            ∙ regroup (elem r (servers c)) false (eqb p r) (elem r c.closed))
    | inl m ↦ elim (Option-cases c.listener) [
      | inl none' ↦ absurd (ground arith)
      | inr (l, k) ↦
          rw (q, m, k, stop)
            (elem-shuffle r (listeners c.forward_all) (held c.auto_server) (held c.server)
                (l ∷ p ∷ c.closed)
              ∙ regroup (elem r (servers c)) (eqb l r) (eqb p r) (elem r c.closed))
    ]
  ]
]

stop-opened : (c : Client) → (stop c).1.opened ≡ c.opened
unfolding stop
stop-opened c = ground arith

pub stop-returned : (c : Client) (x : Option Error) → (stop c).0 ≡ returned x → x ≡ none
unfolding stop
stop-returned c x h = ground arith

-- A Stop that does not panic gives back everything that the client has acquired, if no resource
-- was lost before, and leaves no forward.
pub stop-releases :
    (c : Client)
    → IsHeld c
    → (stop c).0 ≡ returned none
    → IsReleased (stop c).1 × ((stop c).1.forward_all ≡ [])
unfolding stop elem
stop-releases c h e = (
  λ r o. stop-closed r c e ∙ ground (arith, h r (ap (elem r) (sym (stop-opened c)) ∙ o)),
  ground arith,
)
