-- ===== src/Matching/Orders.antt =====
-- Lists of resting orders: look-up by id, distinct ids, total quantity, and the queue order.
use tradedrift.Base.{
  ℕ, ◌+◌, ◌≡◌, refl, ap, inl, inr, List, [], ◌∷◌, ◌++◌, Option, none, some, Bool, true, false, ◌==◌,
  if◌then◌else◌, arith, All, Bool-cases,
}
use tradedrift.OrderBook.{OrderNode}
use tradedrift.Matcher.Search.{is_worse}
use tradedrift.Matcher.Ops.{remove_order}

abbrev pub find : ℕ → List OrderNode → Option OrderNode
find k [] = none
find k (n ∷ ns) = if n.order_id == k then some n else find k ns

-- No two orders share an id.
abbrev pub IsDistinct : List OrderNode → Type 0
IsDistinct [] = Unit
IsDistinct (n ∷ ns) = (find n.order_id ns ≡ none) × IsDistinct ns

abbrev pub total_remaining : List OrderNode → ℕ
total_remaining [] = 0
total_remaining (n ∷ ns) = n.remaining_qty + total_remaining ns

-- Price-time priority: behind every order whose price is as good or better.
abbrev pub enqueue : Bool → OrderNode → List OrderNode → List OrderNode
enqueue b node [] = node ∷ []
enqueue b node (n ∷ ns) =
    if is_worse b n.price node.price then node ∷ n ∷ ns else n ∷ enqueue b node ns

abbrev pub or_else {ℓ} : {A : Type ℓ} → Option A → Option A → Option A
or_else none o = o
or_else (some a) o = some a

pub find-append :
    (k : ℕ) (xs ys : List OrderNode) → find k (xs ++ ys) ≡ or_else (find k xs) (find k ys)
find-append k [] ys = refl
find-append k (x ∷ xs) ys = elim (Bool-cases (x.order_id == k)) [
  | inl e ↦ rw e
  | inr e ↦ rw e (find-append k xs ys)
]

pub find-order_id :
    (k : ℕ) (ns : List OrderNode) {n : OrderNode} → find k ns ≡ some n → n.order_id ≡ k
find-order_id k [] h = cc
find-order_id k (x ∷ xs) h = elim (Bool-cases (x.order_id == k)) [
  | inl e ↦ ground arith
  | inr e ↦ find-order_id k xs (rw e at h)
]

pub find-All :
    (P : OrderNode → Type 0) (k : ℕ) (ns : List OrderNode) {n : OrderNode}
    → All P ns
    → find k ns ≡ some n
    → P n
find-All P k [] a h = absurd (no h)
  where
    no : {n : OrderNode} → none ≡ some n → ⊥
    no e = cc
find-All P k (x ∷ xs) {n} a h = elim (Bool-cases (x.order_id == k)) [
  | inl e ↦ let same : x ≡ n = ground arith in rw (← same) a.0
  | inr e ↦ find-All P k xs a.1 (rw e at h)
]

pub find-remove :
    (k j : ℕ) (ns : List OrderNode)
    → IsDistinct ns
    → find j (remove_order k ns) ≡ (if j == k then none else find j ns)
find-remove k j [] d = ground arith
find-remove k j (n ∷ ns) d = elim (Bool-cases (n.order_id == k)) [
  | inl e ↦
      let e' : n.order_id ≡ k = ground arith in
      let gone : find k ns ≡ none = rw e' at d.0 in
      elim (Bool-cases (j == k)) [
        | inl s ↦ let s' : j ≡ k = ground arith in rw (e, s, s') gone
        | inr s ↦ rw (e, s) (ground arith)
      ]
  | inr e ↦ rw e (elim (Bool-cases (j == k)) [
    | inl s ↦ let s' : j ≡ k = ground arith in ground (arith, find-remove k j ns d.1)
    | inr s ↦ ground (arith, find-remove k j ns d.1)
  ])
]

pub remove-IsDistinct :
    (k : ℕ) (ns : List OrderNode) → IsDistinct ns → IsDistinct (remove_order k ns)
remove-IsDistinct k [] d = d
remove-IsDistinct k (n ∷ ns) d = elim (Bool-cases (n.order_id == k)) [
  | inl e ↦ rw e d.1
  | inr e ↦
      rw e (rw (find-remove k n.order_id ns d.1) (rw (e, d.0) refl), remove-IsDistinct k ns d.1)
]

pub remove-All :
    (P : OrderNode → Type 0) (k : ℕ) (ns : List OrderNode) → All P ns → All P (remove_order k ns)
remove-All P k [] a = a
remove-All P k (n ∷ ns) a = elim (Bool-cases (n.order_id == k)) [
  | inl e ↦ rw e a.1
  | inr e ↦ rw e (a.0, remove-All P k ns a.1)
]

pub total-remove :
    (k : ℕ) (ns : List OrderNode) {n : OrderNode}
    → find k ns ≡ some n
    → total_remaining (remove_order k ns) + n.remaining_qty ≡ total_remaining ns
total-remove k [] h = cc
total-remove k (x ∷ xs) h = elim (Bool-cases (x.order_id == k)) [
  | inl e ↦ ground arith
  | inr e ↦ let ih = total-remove k xs (rw e at h) in rw e (omega (arith, ih))
]

pub total-append :
    (xs ys : List OrderNode) → total_remaining (xs ++ ys) ≡ total_remaining xs + total_remaining ys
total-append [] ys = omega arith
total-append (x ∷ xs) ys = omega (arith, total-append xs ys)

pub find-enqueue :
    (b : Bool) (node : OrderNode) (j : ℕ) (ns : List OrderNode)
    → find node.order_id ns ≡ none
    → find j (enqueue b node ns) ≡ (if node.order_id == j then some node else find j ns)
find-enqueue b node j [] new = refl
find-enqueue b node j (n ∷ ns) new = elim (Bool-cases (is_worse b n.price node.price)) [
  | inl e ↦ rw e
  | inr e ↦ rw e (ground (arith, find-enqueue b node j ns))
]

pub enqueue-IsDistinct :
    (b : Bool) (node : OrderNode) (ns : List OrderNode)
    → find node.order_id ns ≡ none
    → IsDistinct ns
    → IsDistinct (enqueue b node ns)
enqueue-IsDistinct b node [] new d = (refl, tt)
enqueue-IsDistinct b node (n ∷ ns) new d = elim (Bool-cases (is_worse b n.price node.price)) [
  | inl e ↦ rw e (new, d)
  | inr e ↦ elim (Bool-cases (n.order_id == node.order_id)) [
    | inl s ↦ absurd (clash (rw s at new))
    | inr s ↦
        let rest : find node.order_id ns ≡ none = rw s at new in
        rw e (
          rw (find-enqueue b node n.order_id ns rest) (ground arith),
          enqueue-IsDistinct b node ns rest d.1,
        )
  ]
]
  where
    clash : some n ≡ none → ⊥
    clash e = cc

pub enqueue-append :
    (b : Bool) (node : OrderNode) (xs ys : List OrderNode)
    → All (λ n. is_worse b n.price node.price ≡ false) xs
    → enqueue b node (xs ++ ys) ≡ xs ++ enqueue b node ys
enqueue-append b node [] ys h = refl
enqueue-append b node (x ∷ xs) ys h = rw h.0 (ap (λ l. x ∷ l) (enqueue-append b node xs ys h.1))

pub enqueue_front :
    (b : Bool) (node : OrderNode) (ys : List OrderNode)
    → All (λ n. is_worse b n.price node.price ≡ true) ys
    → enqueue b node ys ≡ node ∷ ys
enqueue_front b node [] h = refl
enqueue_front b node (y ∷ ys) h = rw h.0

-- An edit that works at the order with the id `k` and nowhere else.
pub record IsEdit (k : ℕ) (g : List OrderNode → List OrderNode) : Type 0 where
  pub skips : (xs ys : List OrderNode) → find k xs ≡ none → g (xs ++ ys) ≡ xs ++ g ys
  pub stays :
      (xs ys : List OrderNode) (n : OrderNode) → find k xs ≡ some n → g (xs ++ ys) ≡ g xs ++ ys

remove_skips :
    (k : ℕ) (xs ys : List OrderNode)
    → find k xs ≡ none
    → remove_order k (xs ++ ys) ≡ xs ++ remove_order k ys
remove_skips k [] ys h = refl
remove_skips k (x ∷ xs) ys h = elim (Bool-cases (x.order_id == k)) [
  | inl e ↦ absurd (clash (rw e at h))
  | inr e ↦ rw e (ap (λ l. x ∷ l) (remove_skips k xs ys (rw e at h)))
]
  where
    clash : some x ≡ none → ⊥
    clash e = cc

remove_stays :
    (k : ℕ) (xs ys : List OrderNode) (n : OrderNode)
    → find k xs ≡ some n
    → remove_order k (xs ++ ys) ≡ remove_order k xs ++ ys
remove_stays k [] ys n h = cc
remove_stays k (x ∷ xs) ys n h = elim (Bool-cases (x.order_id == k)) [
  | inl e ↦ rw e
  | inr e ↦ rw e (ap (λ l. x ∷ l) (remove_stays k xs ys n (rw e at h)))
]

pub remove-IsEdit : (k : ℕ) → IsEdit k (remove_order k)
remove-IsEdit k = record { skips = remove_skips k; stays = remove_stays k }
