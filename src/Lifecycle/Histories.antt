-- ===== src/Lifecycle/Histories.antt =====
-- The rows of a table that evolves: where an old one is found again, what a new one comes from, and
-- what holds of all.
use vasuli.Prelude.{
  String, ◌≡◌, subst, false, inl, inr, Bool-cases, none, some, List, [], ◌∷◌, All, arith, str_eq,
}
use vasuli.Store.Tables.{RecoverySession}
use vasuli.Store.Rows.{find}
use vasuli.Lifecycle.Moves.{RowMoves, RowMoves-id, IsWithinBudget, RowMoves-IsWithinBudget, IsFresh}
use vasuli.Lifecycle.Tables.{Evolves, Grown}

pub Evolves-find :
    (id : String) (rs rs' : List RecoverySession) (r : RecoverySession)
    → Evolves rs rs'
    → find id rs ≡ some r
    → (r' : RecoverySession) × (find id rs' ≡ some r') × RowMoves r r'
unfolding find
Evolves-find id [] rs' r e f = absurd (cc)
Evolves-find id (x ∷ rs) [] r e f = absurd e
Evolves-find id (x ∷ rs) (x' ∷ rs') r e f = elim (Bool-cases (str_eq x.id id)) [
  | inl hit ↦ let same : x ≡ r = cc (rw hit at f) in (x', rw (RowMoves-id e.0, hit), rw same at e.0)
  | inr miss ↦
      let (r', found, moves) = Evolves-find id rs rs' r e.1 (rw miss at f) in
      (r', rw (RowMoves-id e.0, miss) found, moves)
]

Grown-find :
    (id : String) (rs : List RecoverySession) (r : RecoverySession)
    → All Grown rs
    → find id rs ≡ some r
    → Grown r
unfolding find
Grown-find id [] r g f = absurd (cc)
Grown-find id (x ∷ rs) r g f = elim (Bool-cases (str_eq x.id id)) [
  | inl hit ↦ let same : x ≡ r = cc (rw hit at f) in subst Grown same g.0
  | inr miss ↦ Grown-find id rs r g.1 (rw miss at f)
]

-- A row whose id the table did not hold before was inserted on the way.
pub Evolves-new :
    (id : String) (rs rs' : List RecoverySession) (r : RecoverySession)
    → Evolves rs rs'
    → find id rs ≡ none
    → find id rs' ≡ some r
    → Grown r
unfolding find
Evolves-new id [] rs' r e n f = Grown-find id rs' r e f
Evolves-new id (x ∷ rs) [] r e n f = absurd e
Evolves-new id (x ∷ rs) (x' ∷ rs') r e n f = elim (Bool-cases (str_eq x.id id)) [
  | inl hit ↦ absurd (cc (rw hit at n))
  | inr miss ↦
      let moved : str_eq x'.id id ≡ false = rw (RowMoves-id e.0) miss in
      Evolves-new id rs rs' r e.1 (rw miss at n) (rw moved at f)
]

pub All-find :
    (P : RecoverySession → Type 0) (id : String) (rs : List RecoverySession) (r : RecoverySession)
    → All P rs
    → find id rs ≡ some r
    → P r
unfolding find
All-find P id [] r a f = absurd (cc)
All-find P id (x ∷ rs) r a f = elim (Bool-cases (str_eq x.id id)) [
  | inl hit ↦ let same : x ≡ r = cc (rw hit at f) in subst P same a.0
  | inr miss ↦ All-find P id rs r a.1 (rw miss at f)
]

fresh-IsWithinBudget : (r : RecoverySession) → IsFresh r → IsWithinBudget r
fresh-IsWithinBudget r f = ground arith

All-Grown-IsWithinBudget : (rs : List RecoverySession) → All Grown rs → All IsWithinBudget rs
All-Grown-IsWithinBudget [] g = tt
All-Grown-IsWithinBudget (r ∷ rs) g = (
  RowMoves-IsWithinBudget g.0.moves (fresh-IsWithinBudget g.0.origin g.0.fresh),
  All-Grown-IsWithinBudget rs g.1,
)

pub Evolves-IsWithinBudget :
    (rs rs' : List RecoverySession)
    → Evolves rs rs'
    → All IsWithinBudget rs
    → All IsWithinBudget rs'
Evolves-IsWithinBudget [] rs' e b = All-Grown-IsWithinBudget rs' e
Evolves-IsWithinBudget (r ∷ rs) [] e b = absurd e
Evolves-IsWithinBudget (r ∷ rs) (r' ∷ rs') e b =
    (RowMoves-IsWithinBudget e.0 b.0, Evolves-IsWithinBudget rs rs' e.1 b.1)
