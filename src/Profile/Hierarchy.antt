-- ===== src/Profile/Hierarchy.antt =====
-- Chains of delegation under `CanDelegateTo` of resource/profile.go.
use ergo_agent.Prelude.{
  ℕ, ◌≤◌, ◌<◌, String, ◌≡◌, refl, true, List, [], ◌∷◌, ◌↔◌, arith, eq_iff, length,
}
use ergo_agent.Profile.{
  AgentRole, main, sub, meta, Agent, can_delegate_agent, allows, can_delegate_to,
}

-- How far a role may still delegate.
unfoldable pub rank : AgentRole → ℕ
rank main = 2
rank sub = 1
rank _ = 0

-- Delegation goes strictly down the hierarchy, and only to one of the three roles.
pub can_delegate_agent-rank :
    (caller target : AgentRole)
    → can_delegate_agent caller target ≡ true
    → rank target < rank caller
unfolding can_delegate_agent rank
can_delegate_agent-rank caller target h = ground arith

-- A target stands in an allowlist by its name or by the wildcard.
pub data IsListed (target : String) : List String → Type 0 where
  wildcard : {rest : List String} {w : String} → w ≡ "*" → IsListed target (w ∷ rest)
  named : {rest : List String} {w : String} → w ≡ target → IsListed target (w ∷ rest)
  further : {rest : List String} {w : String} → IsListed target rest → IsListed target (w ∷ rest)

allows-IsListed : (l : List String) (target : String) → allows l target ≡ true → IsListed target l
unfolding allows
allows-IsListed [] target h = cc
allows-IsListed (w ∷ rest) target h =
    grind
      (arith, eq_iff w "*", eq_iff w target, allows-IsListed rest target, wildcard, named, further)

IsListed-allows : {target : String} {l : List String} → IsListed target l → allows l target ≡ true
unfolding allows
IsListed-allows {target} (wildcard {w = w} e) = ground (arith, eq_iff w "*")
IsListed-allows {target} (named {w = w} e) = ground (arith, eq_iff w target)
IsListed-allows (further d) = ground (arith, IsListed-allows d)

-- Delegation is allowed exactly when the roles permit it and the caller lists the target, by name
-- or by the wildcard.
pub can_delegate_to_iff :
    (caller target : Agent)
    → (can_delegate_to caller target ≡ true) ↔ (
        (can_delegate_agent caller.role target.role ≡ true) × IsListed target.name caller.delegates)
unfolding can_delegate_to
can_delegate_to_iff caller target = (
  λ h. (ground arith, allows-IsListed caller.delegates target.name (ground arith)),
  λ (r, l). ground (arith, IsListed-allows l),
)

-- The agents of a run: each one was delegated to by the one before.
pub data Delegation : Agent → List Agent → Type 0 where
  entry : (a : Agent) → Delegation a []
  delegate :
      {a b : Agent} {rest : List Agent}
      → can_delegate_to a b ≡ true
      → Delegation b rest
      → Delegation a (b ∷ rest)

Delegation-rank : {a : Agent} {rest : List Agent} → Delegation a rest → length rest ≤ rank a.role
unfolding can_delegate_to
Delegation-rank (entry a) = omega arith
Delegation-rank (delegate {a = a} {b = b} h d) =
    ground (arith, can_delegate_agent-rank a.role b.role, Delegation-rank d)

rank_bound : (r : AgentRole) → rank r ≤ 2
unfolding rank
rank_bound r = ground arith

nil_of_length : {l : List Agent} → length l ≤ 0 → l ≡ []
nil_of_length {l = []} h = refl
nil_of_length {l = a ∷ l} h = absurd (omega arith)

-- A chain of delegations, of any agents with any allowlists, has at most two steps, and a meta
-- agent delegates to nobody.
pub Delegation-bound :
    {a : Agent} {rest : List Agent}
    → Delegation a rest
    → (length rest ≤ 2) × (a.role ≡ meta → rest ≡ [])
unfolding rank
Delegation-bound {a} d = (
  omega (arith, Delegation-rank d, rank_bound a.role),
  λ e. nil_of_length (ground (arith, Delegation-rank d)),
)
