-- ===== src/Safety/Ring.antt =====
-- The ring of event ids is a queue of bounded length, in every state that `add` reaches.
use tradedrift.Base.{
  ℕ, zero, suc, ◌+◌, ◌-◌, ◌%◌, ◌≤◌, ◌<◌, ◌≡◌, refl, ◌≢◌, sym, ap, inl, inr, ◌∙◌, ◌⊎◌, List, [], ◌∷◌,
  ◌++◌, false, arith, Bool-cases, subst, ◌==◌, ==_self, if◌then◌else◌, length, drop, ltb, ltb→lt,
}
use native.Mathlib.Nat.{
  mod-lt, mod-eq_of_lt, mod-eq-sub-mod, mod-add-mod, mod-mod, add-zero, add-mod_right,
}
use tradedrift.Engine.Ring.{EventRingBuffer, add, put}

-- The capacity is positive, the head is a slot, and no more ids are counted than there are slots.
pub record IsRing (capacity : ℕ) (r : EventRingBuffer) : Type 0 where
  pub positive : 0 < capacity
  pub head_in : r.head < capacity
  pub count_le : r.count ≤ capacity

put_ne : (slots : ℕ → ℕ) (i id j : ℕ) → j ≢ i → put slots i id j ≡ slots j
put_ne slots i id j n = ground arith

-- The ids in the slots from `start` on, around the end of the array.
abbrev pub window : ℕ → (ℕ → ℕ) → ℕ → ℕ → List ℕ
window capacity slots start zero = []
window capacity slots start (suc n) = slots (start % capacity) ∷ window capacity slots (start + 1) n

-- The ids of the ring, oldest first.
abbrev pub contents : ℕ → EventRingBuffer → List ℕ
contents capacity r = window capacity r.slots r.head r.count

-- A queue that holds at most `capacity` ids: when it is full the oldest makes room.
abbrev pub enqueue : ℕ → List ℕ → ℕ → List ℕ × ℕ
enqueue capacity q id =
    if length q == capacity then (drop 1 q ++ id ∷ [], head q) else (q ++ id ∷ [], 0)
  where
    head : List ℕ → ℕ
    head [] = 0
    head (x ∷ xs) = x

length-window :
    (capacity : ℕ) (slots : ℕ → ℕ) (start n : ℕ) → length (window capacity slots start n) ≡ n
length-window capacity slots start zero = refl
length-window capacity slots start (suc n) = ap suc (length-window capacity slots (start + 1) n)

mod_round : (c x : ℕ) → 0 < c → x < c + c → ((x < c) × (x % c ≡ x)) ⊎ ((c ≤ x) × (x % c + c ≡ x))
mod_round c x p q = elim (Bool-cases (ltb x c)) [
  | inl e ↦ let h = ltb→lt x c e in inl (h, mod-eq_of_lt h)
  | inr e ↦
      let h : c ≤ x = ground arith in
      let m : x % c ≡ x - c = mod-eq-sub-mod h ∙ mod-eq_of_lt (omega (arith, q, h)) in
      inr (h, omega (arith, m, h))
]

-- Two indices less than a round apart are different slots.
mod-apart : (c a d e : ℕ) → a < c → d < e → e < c → (a + d) % c ≢ (a + e) % c
mod-apart c a d e p q r same = elim (mod_round c (a + d) (omega arith) (omega arith)) [
  | inl x ↦ elim (mod_round c (a + e) (omega arith) (omega arith)) [
    | inl y ↦ omega (arith, x.1, y.1, same)
    | inr y ↦ omega (arith, x.0, x.1, y.1, same)
  ]
  | inr x ↦ elim (mod_round c (a + e) (omega arith) (omega arith)) [
    | inl y ↦ omega (arith, x.0, y.0, y.1, same)
    | inr y ↦ omega (arith, x.1, y.1, same)
  ]
]

step_index : (c a d : ℕ) → (a + 1 + d) % c ≡ (a + suc d) % c
step_index c a d = ap (λ t. t % c) (omega arith)

window-put :
    (capacity : ℕ) (slots : ℕ → ℕ) (i id start n : ℕ)
    → ((d : ℕ) → d < n → (start + d) % capacity ≢ i)
    → window capacity (put slots i id) start n ≡ window capacity slots start n
window-put capacity slots i id start zero h = refl
window-put capacity slots i id start (suc n) h =
    let first : put slots i id (start % capacity) ≡ slots (start % capacity) =
      put_ne slots i id (start % capacity) (λ e. h 0 (omega arith) (rw add-zero e)) in
    rw first (
      ap (λ t. slots (start % capacity) ∷ t)
        (window-put capacity slots i id (start + 1) n
          (λ d p e. h (suc d) (omega arith) (sym (step_index capacity start d) ∙ e))))

window-snoc :
    (capacity : ℕ) (slots : ℕ → ℕ) (start n : ℕ)
    → window capacity slots start (suc n)
      ≡ window capacity slots start n ++ slots ((start + n) % capacity) ∷ []
window-snoc capacity slots start zero = rw add-zero refl
window-snoc capacity slots start (suc n) =
    ap (λ t. slots (start % capacity) ∷ t)
      (window-snoc capacity slots (start + 1) n
        ∙ ap (λ i. window capacity slots (start + 1) n ++ slots i ∷ [])
            (step_index capacity start n))

window_wraps :
    (capacity : ℕ) (slots : ℕ → ℕ) (start n : ℕ)
    → window capacity slots (start % capacity) n ≡ window capacity slots start n
window_wraps capacity slots start zero = refl
window_wraps capacity slots start (suc n) = rw (mod-mod) (
    ap (λ t. slots (start % capacity) ∷ t)
      (sym (window_wraps capacity slots (start % capacity + 1) n)
        ∙ ap (λ i. window capacity slots i n) (mod-add-mod start capacity 1)
        ∙ window_wraps capacity slots (start + 1) n))

put_same : (slots : ℕ → ℕ) (i id : ℕ) → put slots i id i ≡ id
put_same slots i id = ground arith

full_contents :
    (n : ℕ) (slots : ℕ → ℕ) (first id : ℕ)
    → first < suc n
    → window (suc n) (put slots first id) ((first + 1) % suc n) (suc n)
      ≡ window (suc n) slots (first + 1) n ++ id ∷ []
full_contents n slots first id h =
    let around : (first + 1 + n) % suc n ≡ first =
      step_index (suc n) first n ∙ add-mod_right first (suc n) ∙ mod-eq_of_lt h in
    let others : (d : ℕ) → d < n → (first + 1 + d) % suc n ≢ first = λ d p e.
      mod-apart (suc n) first 0 (suc d) h (omega arith) (omega (arith, p))
        (rw add-zero (mod-eq_of_lt h ∙ sym e ∙ step_index (suc n) first d)) in
    window_wraps (suc n) (put slots first id) (first + 1) (suc n)
    ∙ window-snoc (suc n) (put slots first id) (first + 1) n
    ∙ rw (window-put (suc n) slots first id (first + 1) n others, around, put_same slots first id)
        refl

space_contents :
    (c : ℕ) (slots : ℕ → ℕ) (first n id : ℕ)
    → first < c
    → n < c
    → window c (put slots ((first + n) % c) id) first (n + 1) ≡ window c slots first n ++ id ∷ []
space_contents c slots first n id h q =
    let i = (first + n) % c in
    let next : n + 1 ≡ suc n = omega arith in
    ap (λ t. window c (put slots i id) first t) next
    ∙ window-snoc c (put slots i id) first n
    ∙ rw
        (
          window-put c slots i id first n (λ d p e. mod-apart c first d n h p q e),
          put_same slots i id,
        )
        refl

abbrev Added : ℕ → EventRingBuffer → ℕ → Type 0
Added capacity r id =
    let (r', evicted) = add capacity r id in
    let (q, oldest) = enqueue capacity (contents capacity r) id in
    IsRing capacity r' × (contents capacity r' ≡ q) × (evicted ≡ oldest)

add_to_full :
    (n : ℕ) (slots : ℕ → ℕ) (first id : ℕ)
    → first < suc n
    → Added (suc n) (record { slots = slots; head = first; count = suc n }) id
unfolding add
add_to_full n slots first id h =
    let p : 0 < suc n = omega arith in
    let here : first % suc n ≡ first = mod-eq_of_lt h in
    rw (==_self (suc n), length-window (suc n) slots first (suc n), ==_self (suc n))
      (
        record { positive = p; head_in = mod-lt (first + 1) p; count_le = omega arith },
        full_contents n slots first id h,
        ap slots (sym here),
      )

add_to_space :
    (c : ℕ) (slots : ℕ → ℕ) (first count id : ℕ)
    → first < c
    → count < c
    → Added c (record { slots = slots; head = first; count = count }) id
unfolding add
add_to_space c slots first count id h n =
    let e : (count == c) ≡ false = ground arith in
    rw (e, length-window c slots first count, e)
      (
        record { positive = omega (arith, n); head_in = h; count_le = omega (arith, n) },
        space_contents c slots first count id h n,
        refl,
      )

-- Adding an id to a well-formed ring adds it to the bounded FIFO queue of its contents: the same
-- id falls out, and the ring is well formed again.
pub add_is_enqueue :
    (capacity : ℕ) (r : EventRingBuffer) (id : ℕ)
    → IsRing capacity r
    → let (r', evicted) = add capacity r id in
      let (q, oldest) = enqueue capacity (contents capacity r) id in
      IsRing capacity r' × (contents capacity r' ≡ q) × (evicted ≡ oldest)
add_is_enqueue capacity r id h = elim (Bool-cases (ltb r.count capacity)) [
  | inl e ↦ add_to_space capacity r.slots r.head r.count id h.head_in (ltb→lt r.count capacity e)
  | inr e ↦
      let p = h.positive in
      let l = h.count_le in
      let full : r.count ≡ capacity = ground arith in
      let some_n : suc (capacity - 1) ≡ capacity = omega (arith, p) in
      let at_n : Added (suc (capacity - 1))
          (record { slots = r.slots; head = r.head; count = suc (capacity - 1) }) id =
        add_to_full (capacity - 1) r.slots r.head id (omega (arith, h.head_in)) in
      subst (λ k. Added capacity (record { slots = r.slots; head = r.head; count = k }) id)
        (sym full)
        (subst (λ c. Added c (record { slots = r.slots; head = r.head; count = c }) id) some_n at_n)
]
