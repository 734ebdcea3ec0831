-- ===== src/Raft/History/Earlier.antt =====
-- What a node's earlier votes say of its view and its vote, and how the two move on.
use neoha.Raft.State.{Raft}
use neoha.Raft.Wire.{Request}
use neoha.Raft.Passive.Heartbeat.{VoteStands}
use neoha.Raft.Follower.Vote.Laws.{IsGrant}
use neoha.Common.{List, [], ◌∷◌, ℕ, String, ◌≡◌, ◌≢◌, ◌≤◌, ◌<◌, ◌+◌, ◌⊎◌, inl, inr, arith}

-- The past votes: none is ahead of the view, and one of this view is the recorded one.
abbrev pub Past : ℕ → String → List (ℕ × String) → Type 0
Past v x [] = Unit
Past v x ((w, y) ∷ vs) = (w ≤ v) × (w ≡ v → x ≡ y) × (y ≢ "") × Past v x vs

abbrev pub Below : ℕ → List (ℕ × String) → Type 0
Below v [] = Unit
Below v ((w, y) ∷ vs) = (w < v) × Below v vs

abbrev pub Agrees : ℕ → String → List (ℕ × String) → Type 0
Agrees v x [] = Unit
Agrees v x ((w, y) ∷ vs) = (w ≡ v → y ≡ x) × Agrees v x vs

abbrev pub Consistent : List (ℕ × String) → Type 0
Consistent [] = Unit
Consistent ((v, x) ∷ vs) = Agrees v x vs × Consistent vs

pub Past-newer :
    (v w : ℕ) (x y : String) (vs : List (ℕ × String)) → v < w → Past v x vs → Past w y vs
Past-newer v w x y [] h p = tt
Past-newer v w x y ((u, z) ∷ vs) h p =
    (omega arith, λ e. absurd (omega arith), p.2, Past-newer v w x y vs h p.3)

pub Past-Below : (v : ℕ) (x : String) (vs : List (ℕ × String)) → Past v x vs → Below (v + 1) vs
Past-Below v x [] p = tt
Past-Below v x ((u, z) ∷ vs) p = (omega arith, Past-Below v x vs p.3)

pub Below-Past :
    (v w u : ℕ) (x y : String) (vs : List (ℕ × String))
    → v ≤ w
    → Below v vs
    → Past u x vs
    → Past w y vs
Below-Past v w u x y [] h b p = tt
Below-Past v w u x y ((t, z) ∷ vs) h b p =
    (omega arith, λ e. absurd (omega arith), p.2, Below-Past v w u x y vs h b.1 p.3)

-- A vote in a newer view, or in this one if it has none or the same.
Past-Agrees :
    (v w : ℕ) (x y : String) (vs : List (ℕ × String))
    → (v < w) ⊎ (x ≡ "") ⊎ (x ≡ y)
    → v ≤ w
    → Past v x vs
    → Agrees w y vs
Past-Agrees v w x y [] c h p = tt
Past-Agrees v w x y ((u, z) ∷ vs) c h p = (λ e. ground arith, Past-Agrees v w x y vs c h p.3)

Past-vote :
    (v w : ℕ) (x y : String) (vs : List (ℕ × String))
    → (v < w) ⊎ (x ≡ "") ⊎ (x ≡ y)
    → v ≤ w
    → Past v x vs
    → Past w y vs
Past-vote v w x y [] c h p = tt
Past-vote v w x y ((u, z) ∷ vs) c h p =
    (omega arith, λ e. ground arith, p.2, Past-vote v w x y vs c h p.3)

Past-same :
    (v w : ℕ) (x y : String) (vs : List (ℕ × String)) → v ≡ w → x ≡ y → Past w y vs → Past v x vs
Past-same v w x y vs e f p = rw (e, f) p

-- The vote stands, or a newer view opens with none.
pub stands-Past :
    (r s : Raft) (vs : List (ℕ × String))
    → VoteStands r s
    → Past r.meta.view_id r.voted_for vs
    → Past s.meta.view_id s.voted_for vs
stands-Past r s vs (inl (e, f)) p =
    Past-same s.meta.view_id r.meta.view_id s.voted_for r.voted_for vs e f p
stands-Past r s vs (inr (h, e)) p =
    Past-newer r.meta.view_id s.meta.view_id r.voted_for s.voted_for vs h p

pub stands_view : (r s : Raft) → VoteStands r s → r.meta.view_id ≤ s.meta.view_id
stands_view r s v = ground arith

pub grant-Past :
    (q : Request) (r s : Raft) (vs : List (ℕ × String))
    → IsGrant q r s
    → q.from ≢ ""
    → Past r.meta.view_id r.voted_for vs
    → Past s.meta.view_id s.voted_for ((q.view_id, q.from) ∷ vs) × Agrees q.view_id q.from vs
grant-Past q r s vs (e, f, h, c) x p = (
  (
    omega arith,
    λ u. e,
    x,
    Past-same s.meta.view_id q.view_id s.voted_for q.from vs f e
        (Past-vote r.meta.view_id q.view_id r.voted_for q.from vs c h p),
  ),
  Past-Agrees r.meta.view_id q.view_id r.voted_for q.from vs c h p,
)
