-- ===== src/Election/Safety.antt =====
-- Election safety for the Raft nodes of
-- internal/control_plane/leader_election/consensus_module.go.
use dirigent.Prelude.{
  ℕ, ◌+◌, ◌*◌, ◌<◌, ◌≤◌, ◌≡◌, ◌≢◌, ◌⊎◌, inl, inr, Bool, true, false, ◌&&◌, ◌||◌, List, [], ◌∷◌,
  Option, none, some, All, arith, length, if◌then◌else◌, Option-cases, Bool-cases, ◌∙◌, sym,
}
use mathlib.Core.Bool.{false≢true}
use dirigent.Prelude.Int.{ℤ, ◌==ℤ◌, ==ℤ_iff}
use dirigent.Election.{ConsensusModule}
use dirigent.Election.Votes.{
  Event, Vote, step, cast, Timely, Settled, step-Settled, cast-Settled, cast_agrees,
}

abbrev pub prepend : Option Vote → List Vote → List Vote
prepend none vs = vs
prepend (some v) vs = v ∷ vs

-- The votes that a node casts while it handles a list of events.
unfoldable pub history : ConsensusModule → List Event → List Vote
history cm [] = []
history cm (e ∷ es) = prepend (cast e cm) (history (step e cm) es)

-- Every event of the list satisfies `Timely` in the state that it meets.
abbrev pub AllTimely : ConsensusModule → List Event → Type 0
AllTimely cm [] = Unit
AllTimely cm (e ∷ es) = Timely e cm × AllTimely (step e cm) es

abbrev Agrees : Vote → Vote → Type 0
Agrees v w = w.term ≡ v.term → w.candidate ≡ v.candidate

-- Did the node vote for the candidate in the term?
unfoldable pub voted : ℤ → ℤ → List Vote → Bool
voted t c [] = false
voted t c (v ∷ vs) = (v.term ==ℤ t && v.candidate ==ℤ c) || voted t c vs

history-Agrees :
    (cm : ConsensusModule) (es : List Event) (v : Vote)
    → AllTimely cm es
    → Settled cm v
    → All (Agrees v) (history cm es)
unfolding history
history-Agrees cm [] v t s = tt
history-Agrees cm (e ∷ es) v t s = elim (Option-cases (cast e cm)) [
  | inl no_cast ↦ rw no_cast (history-Agrees (step e cm) es v t.1 (step-Settled e cm v t.0 s))
  | inr (w, c) ↦ rw c (
    cast_agrees e cm v w t.0 s c,
    history-Agrees (step e cm) es v t.1 (step-Settled e cm v t.0 s),
  )
]

-- No two votes of the list are for different candidates in one term.
abbrev pub IsConsistent : List Vote → Type 0
IsConsistent [] = Unit
IsConsistent (v ∷ vs) = All (Agrees v) vs × IsConsistent vs

history-IsConsistent :
    (cm : ConsensusModule) (es : List Event) → AllTimely cm es → IsConsistent (history cm es)
unfolding history
history-IsConsistent cm [] t = tt
history-IsConsistent cm (e ∷ es) t = elim (Option-cases (cast e cm)) [
  | inl no_cast ↦ rw no_cast (history-IsConsistent (step e cm) es t.1)
  | inr (w, c) ↦ rw c (
    history-Agrees (step e cm) es w t.1 (cast-Settled e cm w t.0 c),
    history-IsConsistent (step e cm) es t.1,
  )
]

voted-cons :
    (t c : ℤ) (w : Vote) (vs : List Vote)
    → voted t c (w ∷ vs) ≡ true
    → ((w.term ≡ t) × (w.candidate ≡ c)) ⊎ (voted t c vs ≡ true)
unfolding voted
voted-cons t c w vs h = ground (arith, ==ℤ_iff w.term t, ==ℤ_iff w.candidate c)

voted-Agrees :
    (t c : ℤ) (v : Vote) (vs : List Vote)
    → All (Agrees v) vs
    → voted t c vs ≡ true
    → v.term ≡ t
    → c ≡ v.candidate
voted-Agrees t c v [] a h e = unfold voted in cc
voted-Agrees t c v (w ∷ vs) a h e = elim (voted-cons t c w vs h) [
  | inl (same, here) ↦ sym here ∙ a.0 (same ∙ sym e)
  | inr later ↦ voted-Agrees t c v vs a.1 later e
]

voted_consistent :
    (t c d : ℤ) (vs : List Vote)
    → IsConsistent vs
    → voted t c vs ≡ true
    → voted t d vs ≡ true
    → c ≡ d
voted_consistent t c d [] s h k = unfold voted in cc
voted_consistent t c d (w ∷ vs) s h k = elim (voted-cons t c w vs h) [
  | inl (now, here) ↦ elim (voted-cons t d w vs k) [
    | inl (_, there) ↦ sym here ∙ there
    | inr later ↦ sym here ∙ sym (voted-Agrees t d w vs s.0 later now)
  ]
  | inr later ↦ elim (voted-cons t d w vs k) [
    | inl (now, there) ↦ voted-Agrees t c w vs s.0 later now ∙ there
    | inr last ↦ voted_consistent t c d vs s.1 later last
  ]
]

-- Whatever it is sent, a node votes for at most one candidate in a term, provided that each event
-- of its history is timely.
pub voted_once :
    (t c d : ℤ) (cm : ConsensusModule) (es : List Event)
    → AllTimely cm es
    → voted t c (history cm es) ≡ true
    → voted t d (history cm es) ≡ true
    → c ≡ d
voted_once t c d cm es a = voted_consistent t c d (history cm es) (history-IsConsistent cm es a)

-- A node of a cluster with the events that it handles.
pub record Node : Type 0 where
  pub start : ConsensusModule
  pub events : List Event

abbrev pub IsTimely : Node → Type 0
IsTimely n = AllTimely n.start n.events

-- The number of the nodes that vote for the candidate in the term.
unfoldable pub supporters : ℤ → ℤ → List Node → ℕ
supporters t c [] = 0
supporters t c (n ∷ ns) =
    (if voted t c (history n.start n.events) then 1 else 0) + supporters t c ns

supporters-add-le :
    (t c d : ℤ) (ns : List Node)
    → All IsTimely ns
    → c ≢ d
    → supporters t c ns + supporters t d ns ≤ length ns
unfolding supporters
supporters-add-le t c d [] a h = omega arith
supporters-add-le t c d (n ∷ ns) a h =
    ground (arith, supporters-add-le t c d ns a.1, voted_once t c d n.start n.events a.0)

-- Election safety: two candidates that both have the votes of more than half of the nodes in one
-- term are the same candidate, in a cluster in which every node handles its own replies in the term
-- it asked in, has an id, does not overflow its term, and as a candidate or a leader receives no
-- heartbeat of its own term, which would clear its vote.
pub election_safety :
    (t c d : ℤ) (ns : List Node)
    → All IsTimely ns
    → length ns < supporters t c ns * 2
    → length ns < supporters t d ns * 2
    → c ≡ d
election_safety t c d ns a h k = elim (Bool-cases (c ==ℤ d)) [
  | inl same ↦ (==ℤ_iff c d).0 same
  | inr differ ↦ absurd (
      omega
        (arith, supporters-add-le t c d ns a (λ e. false≢true (sym differ ∙ (==ℤ_iff c d).1 e))))
]
