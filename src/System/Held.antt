-- ===== src/System/Held.antt =====
-- The events in flight that will be counted down on a case, and the invariant of their number.
use fms.Base.{
  ℕ, ◌+◌, ◌^◌, ◌≤◌, ◌<◌, ◌≡◌, refl, ◌≢◌, ◌⊎◌, Bool, false, not, ◌&&◌, Option, none, some, List, [],
  ◌∷◌, ◌++◌, arith, ◌==◌, if◌then◌else◌, All,
}
use fms.Text.{Text}
use fms.Event.{Event, agent_todo}
use fms.Case.{Case}
use fms.Queue.{put_to_agents}
use fms.System.{deliver, System}
use fms.System.Cells.{Apart, Lives}

-- The event is one that its agent will count down on the case at the address.
abbrev pub is_held : ℕ → Event → Bool
is_held a e = not (e.ev_flag == agent_todo) && elim e.p_case [ none ↦ false | some b ↦ b == a ]

-- How many events of a list will be counted down on the case at the address.
abbrev pub holds : ℕ → List Event → ℕ
holds a [] = 0
holds a (e ∷ es) = (if is_held a e then 1 else 0) + holds a es

pub holds-append : (a : ℕ) (xs ys : List Event) → holds a (xs ++ ys) ≡ holds a xs + holds a ys
holds-append a [] ys = omega arith
holds-append a (x ∷ xs) ys = omega (arith, holds-append a xs ys)

-- An event that is not to be acted on names its case.
abbrev pub IsBound : Event → Type 0
IsBound e = (e.ev_flag ≡ agent_todo) ⊎ ((a : ℕ) × (e.p_case ≡ some a))

-- The use counter of a case covers the events in flight that name it.
abbrev pub Covered : List Event → ℕ → Case → Type 0
Covered flying reports c = (holds c.addr flying ≤ c.m_event_using) × (c.m_event_using ≤ reports)

pub record IsSystem (s : System) : Type 0 where
  pub apart : Apart s.cases
  pub covered : All (Covered s.flying s.reports) s.cases
  pub lives : (a : ℕ) → 0 < holds a s.flying → Lives a s.cases
  pub bound : All IsBound s.flying
  pub few : s.reports < 2 ^ 31

pub holds-deliver :
    (a : ℕ) (agents : List (List Text)) (es : List Event) → holds a (deliver agents es) ≤ holds a es
unfolding deliver
holds-deliver a agents [] = omega arith
holds-deliver a agents (e ∷ es) = step (put_to_agents e.ev_class agents) (holds-deliver a agents es)
  where
    step :
        (r : Option (Option ℕ))
        → holds a (deliver agents es) ≤ holds a es
        → holds a (elim r [
          | none ↦ deliver agents es
          | some none ↦ deliver agents es
          | some (some i) ↦ e ∷ deliver agents es
        ])
          ≤ holds a (e ∷ es)
    step none h = omega (arith, h)
    step (some none) h = omega (arith, h)
    step (some (some i)) h = omega (arith, h)

pub IsBound-deliver :
    (agents : List (List Text)) (es : List Event) → All IsBound es → All IsBound (deliver agents es)
unfolding deliver
IsBound-deliver agents [] h = tt
IsBound-deliver agents (e ∷ es) h =
    step (put_to_agents e.ev_class agents) (IsBound-deliver agents es h.1)
  where
    step :
        (r : Option (Option ℕ))
        → All IsBound (deliver agents es)
        → All IsBound (elim r [
          | none ↦ deliver agents es
          | some none ↦ deliver agents es
          | some (some i) ↦ e ∷ deliver agents es
        ])
    step none k = k
    step (some none) k = k
    step (some (some i)) k = (h.0, k)

pub holds_todo : (a : ℕ) (es : List Event) → All (λ x. x.ev_flag ≡ agent_todo) es → holds a es ≡ 0
holds_todo a [] h = refl
holds_todo a (e ∷ es) h = ground (arith, h.0, holds_todo a es h.1)

-- The events that one report sends hold its case once at most, and no other case.
pub holds_sent :
    (a b : ℕ) (out : List Event) (sent : Event)
    → All (λ x. x.ev_flag ≡ agent_todo) out
    → sent.p_case ≡ some b
    → (holds a (out ++ sent ∷ []) ≤ 1) × (a ≢ b → holds a (out ++ sent ∷ []) ≡ 0)
holds_sent a b out sent t p = (
  ground (arith, holds-append a out (sent ∷ []), holds_todo a out t),
  λ n. ground (arith, holds-append a out (sent ∷ []), holds_todo a out t, p),
)
