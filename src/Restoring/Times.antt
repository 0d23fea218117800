-- ===== src/Restoring/Times.antt =====
-- The order of prices and times that `Restore` checks.
use tradedrift.Base.{
  ℕ, ◌≤◌, ◌≡◌, refl, inl, inr, List, [], ◌∷◌, Option, some, true, false, arith, ltb, leb, ◌==◌,
  Bool-cases,
}
use tradedrift.OrderBook.{SideType, buy, sell, OrderNode}
use tradedrift.Snapshot.Restore.{restored, check_after}
use tradedrift.Matching.Levels.{is_buy}
use tradedrift.Matching.Uncrossed.{InOrder, NotWorse}
use tradedrift.Restoring.Run.{Follows, LastOn}

-- At one price the times do not go back.
abbrev pub InTime : List OrderNode → Type 0
InTime [] = Unit
InTime (n ∷ []) = Unit
InTime (n ∷ m ∷ ns) = ((n.price ≡ m.price) → n.timestamp ≤ m.timestamp) × InTime (m ∷ ns)

after_same_side :
    (st : SideType) (p q t u : ℕ)
    → NotWorse (is_buy st) p q
    → ((p ≡ q) → t ≤ u)
    → check_after (some (st, p, t)) st q u ≡ restored tt
after_same_side buy p q t u h k = elim (Bool-cases (q == p)) [
  | inl e ↦
      (let le : leb q p ≡ true = ground arith in
        let same : p ≡ q = ground arith in
        let tu = k same in let later : ltb u t ≡ false = ground arith in rw (le, e, later) refl)
  | inr e ↦ (let le : leb q p ≡ true = ground arith in rw (le, e) refl)
]
after_same_side sell p q t u h k = elim (Bool-cases (q == p)) [
  | inl e ↦
      (let le : leb p q ≡ true = ground arith in
        let same : p ≡ q = ground arith in
        let tu = k same in let later : ltb u t ≡ false = ground arith in rw (le, e, later) refl)
  | inr e ↦ (let le : leb p q ≡ true = ground arith in rw (le, e) refl)
]

Follows-tail :
    (st : SideType) (n : OrderNode) (ns : List OrderNode)
    → InOrder (is_buy st) (n ∷ ns)
    → InTime (n ∷ ns)
    → Follows (some (st, n.price, n.timestamp)) st ns
Follows-tail st n [] o t = tt
Follows-tail st n (m ∷ ms) o t = (
  after_same_side st n.price m.price n.timestamp m.timestamp o.0.0 t.0,
  Follows-tail st m ms o.1 t.1,
)

-- A queue follows whatever its first order may follow.
pub Follows-queue :
    (st : SideType) (last : Option (SideType × ℕ × ℕ)) (ns : List OrderNode)
    → ((q : ℕ) (u : ℕ) → check_after last st q u ≡ restored tt)
    → InOrder (is_buy st) ns
    → InTime ns
    → Follows last st ns
Follows-queue st last [] f o t = tt
Follows-queue st last (n ∷ ns) f o t = (f n.price n.timestamp, Follows-tail st n ns o t)

pub asks_after_bids :
    (last : Option (SideType × ℕ × ℕ))
    → LastOn buy last
    → (q u : ℕ) → check_after last sell q u ≡ restored tt
asks_after_bids last (inl e) q u = rw e refl
asks_after_bids last (inr (p, t, e)) q u = rw e refl
