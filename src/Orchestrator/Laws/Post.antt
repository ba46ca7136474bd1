-- ===== src/Orchestrator/Laws/Post.antt =====
-- Postconditions of the handlers of core/orchestrator.ts: no exception, and a predicate of what is returned.
use ninthwave.Prelude.{
  Bool, true, false, ◌||◌, List, ◌≡◌, refl, subst, sym, Option, some, none, arith, if◌then◌else◌,
}
use ninthwave.Orchestrator.Types.{State, is, allows}
use ninthwave.Orchestrator.Actions.{Stamp, Action}
use ninthwave.Orchestrator.Item.{Item}
use ninthwave.Orchestrator.Feedback.{Handoff, acted}
use ninthwave.Orchestrator.Merge.{or_next}
use ninthwave.Orchestrator.Transition.{
  Clock, Result, ok, illegal_transition, Outcome, transition, ◌>>=◌, prepend, moved,
}

abbrev pub Post {ℓ} : {A : Type ℓ} → (A → Type 0) → Result A → Type 0
Post P (ok a) = P a
Post P (illegal_transition s t) = ⊥

pub Post-bind {ℓ κ} :
    {A : Type ℓ} {B : Type κ} (P : A → Type 0) (Q : B → Type 0) (m : Result A) (f : A → Result B)
    → Post P m
    → ((a : A) → P a → Post Q (f a))
    → Post Q (m >>= f)
Post-bind P Q (ok a) f p h = h a p
Post-bind P Q (illegal_transition s t) f p h = absurd p

-- A handoff that returns `null` leaves the item alone.
abbrev pub Handed : (Item × List Action → Type 0) → Item → Item × Option (List Action) → Type 0
Handed Q item (i, none) = i ≡ item
Handed Q item (i, some actions) = Q (i, actions)

abbrev pub Hands : (Item × List Action → Type 0) → Item → Handoff → Type 0
Hands Q item = Post (Handed Q item)

pub acted-Hands :
    (Q : Item × List Action → Type 0) (item : Item) (o : Outcome)
    → Post Q o
    → Hands Q item (acted o)
acted-Hands Q item (ok (i, actions)) q = q
acted-Hands Q item (illegal_transition s t) q = absurd q

pub or_next-Post :
    (Q : Item × List Action → Type 0) (item : Item) (h : Handoff) (rest : Item → Outcome)
    → Hands Q item h
    → Post Q (rest item)
    → Post Q (or_next h rest)
or_next-Post Q item (ok (i, none)) rest e p = subst (λ j. Post Q (rest j)) (sym e) p
or_next-Post Q item (ok (i, some actions)) rest q p = q
or_next-Post Q item (illegal_transition s t) rest q p = absurd q

-- Actions put in front do not matter to a predicate of the item alone.
pub prepend-Post :
    (P : Item → Type 0) (actions : List Action) (o : Outcome)
    → Post (λ r. P r.0) o
    → Post (λ r. P r.0) (prepend actions o)
prepend-Post P actions (ok (item, rest)) p = p
prepend-Post P actions (illegal_transition s t) p = absurd p

-- Both branches of a test.
pub if-Post {ℓ} :
    {A : Type ℓ} (P : A → Type 0) (b : Bool) (x y : Result A)
    → (b ≡ true → Post P x)
    → (b ≡ false → Post P y)
    → Post P (if b then x else y)
if-Post P true x y p q = p refl
if-Post P false x y p q = q refl

pub if-holds {ℓ} :
    {A : Type ℓ} (P : A → Type 0) (b : Bool) (x y : A) → P x → P y → P (if b then x else y)
if-holds P true x y p q = p
if-holds P false x y p q = q

-- A transition to the same state, or to one that the table allows.
abbrev pub may_move : State → State → Bool
may_move s t = is s t || allows s t

-- The test `is` is equality.
pub is_sound : (s t : State) → is s t ≡ true → s ≡ t
is_sound s t h = ground arith

pub transition-Post :
    (P : Item → Type 0) (clock : Clock) (s : State) (e : Option Stamp) (item : Item)
    → may_move item.state s ≡ true
    → (item.state ≡ s → P item)
    → P (moved clock.wall s e item)
    → Post P (transition clock s e item)
unfolding transition
transition-Post P clock s e item legal stay go =
    if-Post P (is item.state s) _ _ (λ same. stay (is_sound item.state s same))
      λ other.
        if-Post P (allows item.state s) _ _ (λ _. go) (λ barred. absurd (excluded other barred))
  where
    excluded : is item.state s ≡ false → allows item.state s ≡ false → ⊥
    excluded other barred = ground arith
