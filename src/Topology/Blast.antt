-- ===== src/Topology/Blast.antt =====
-- What the search of `blast_radius` has found so far: a log of the services it has seen, each with
-- the depth at which it was seen.
pub mod Visit
mod Weight
pub mod Radius
use becertain.Prelude.{
  ℕ, zero, suc, ◌+◌, ◌≤◌, ◌<◌, String, Bool, true, false, not, ◌&&◌, List, [], ◌∷◌, ◌++◌, Option,
  none, some, if◌then◌else◌, str_eq, contains, All, ◌≡◌, refl, arith, eq_iff, ◌⊎◌,
}
use becertain.Topology.Graph.{Adjacency, neighbors, BlastState}

-- A walk along the calls, with its length.
pub data Walk (g : Adjacency) (root : String) : ℕ → String → Type 0 where
  here : Walk g root 0 root
  step :
      (n : ℕ) (b c : String)
      → Walk g root n b
      → contains c (neighbors b g) ≡ true
      → Walk g root (n + 1) c

abbrev pub Log : Type 0
Log = List (String × ℕ)

abbrev pub depth_of : String → Log → Option ℕ
depth_of n [] = none
depth_of n ((m, d) ∷ log) = if str_eq m n then some d else depth_of n log

abbrev pub is_some : Option ℕ → Bool
is_some none = false
is_some (some d) = true

-- The depths do not fall along a queue.
abbrev pub IsOrdered : ℕ → List (String × ℕ) → Type 0
IsOrdered d [] = Unit
IsOrdered d ((n, e) ∷ queue) = (d ≤ e) × IsOrdered e queue

abbrev pub waits : String → List (String × ℕ) → Bool
waits n [] = false
waits n ((m, d) ∷ queue) = if str_eq m n then true else waits n queue

module _ (g : Adjacency) (max_depth : ℕ) where
  -- The calls of a service that was seen at depth `d` have been followed.
  unfoldable pub IsFollowed : Log → String → ℕ → Type 0
  IsFollowed log u d =
      d < max_depth
      → (w : String) → contains w (neighbors u g) ≡ true
      → (e : ℕ) × (depth_of w log ≡ some e) × (e ≤ d + 1)

  pub record IsSearch (root : String) (d : ℕ) (s : BlastState) (log : Log) : Type 0 where
    pub agrees : (n : String) → contains n s.seen ≡ is_some (depth_of n log)
    pub listed : (n : String) → contains n s.affected ≡ (contains n s.seen && not (str_eq n root))
    pub rooted : depth_of root log ≡ some 0
    pub reached : (n : String) (e : ℕ) → depth_of n log ≡ some e → (e ≤ max_depth) × Walk g root e n
    pub near : (n : String) (e : ℕ) → depth_of n log ≡ some e → e ≤ d + 1
    pub ordered : IsOrdered d s.queue
    pub logged : All (λ entry. depth_of entry.0 log ≡ some entry.1) s.queue
