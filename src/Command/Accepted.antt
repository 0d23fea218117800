-- ===== src/Command/Accepted.antt =====
-- What holds of every event that the consumer puts on an engine's queue.
use Prim.Native.String.{String}
use text.Mathlib.Text.{◌==◌ as same_text}
use tradedrift.Base.{
  ap, ◌∙◌, ℕ, zero, suc, ◌+◌, ◌<◌, ◌≤◌, ◌≡◌, refl, subst, inl, inr, Option, none, some, Bool, true,
  ltb, ◌&&◌, not, arith, Bool-cases, Option-cases, ℤ, pos, negsuc, positive,
}
use tradedrift.OrderBook.{OrderType, limit, market}
use tradedrift.Snapshot.Serialize.{Codec}
use tradedrift.Engine.State.{
  OrderCreatedPayload, OrderCancelPayload, EventBody, order_created, order_cancel, recovery_barrier,
  unknown, InputEvent,
}
use tradedrift.Engine.Apply.{node_timestamp, five_minutes}
use tradedrift.Command.Handle.{
  context_done, Decoder, Message, CommandEnvelope, CreatedFields, CancelFields, Checked, accepted,
  rejected, check, parse_positive, parse_side, parse_order_type, parse_price, same_key, is_one,
  is_limit, created_payload, cancel_payload, command_body, handle_order_command, ◌>>=◌, ◌>>◌,
}

-- A result that, if it was accepted, satisfies `P`.
abbrev pub IfAccepted {ℓ} : {A : Type ℓ} → (A → Type 0) → Checked A → Type 0
IfAccepted P (accepted a) = P a
IfAccepted P (rejected e) = Unit

after_step {ℓ κ} :
    {A : Type ℓ} {B : Type κ} (Q : A → Type 0) (P : B → Type 0) (m : Checked A) (f : A → Checked B)
    → IfAccepted Q m
    → ((a : A) → Q a → IfAccepted P (f a))
    → IfAccepted P (m >>= f)
after_step Q P (accepted a) f q h = h a q
after_step Q P (rejected e) f q h = tt

-- An order that the matcher may take: of a positive quantity, at a positive price if it is a LIMIT
-- order, for the market it was sent to, and with a time that is set and not far ahead of the clock.
pub record IsValidOrder (now market_id : ℕ) (p : OrderCreatedPayload) : Type 0 where
  pub for_market : p.market_id ≡ market_id
  pub positive_quantity : 0 < p.quantity
  pub positive_price : p.order_type ≡ limit → 0 < p.price
  pub not_future : p.occurred_at ≤ now + five_minutes

positive_is : (c : Codec) (text : String) (n : ℕ) → parse_positive c text ≡ some n → 0 < n
unfolding parse_positive
positive_is c text n e = go (c.decimal_parse text) e
  where
    value : (d : ℤ) → positive d ≡ some n → 0 < n
    value (pos zero) h = cc
    value (pos (suc k)) h = (let s : suc k ≡ n = ground arith in omega (arith, s))
    value (negsuc k) h = cc

    go :
        (o : Option ℤ)
        → (elim o as (λ x. Option ℕ) [ none ↦ none | some d ↦ positive d ]) ≡ some n
        → 0 < n
    go none h = cc
    go (some d) h = value d h

node_timestamp-le : (now t : ℕ) → node_timestamp now t ≤ now + five_minutes
node_timestamp-le now t = ground arith

limit_price :
    (t : OrderType) (price : ℕ)
    → not (is_limit t && not (ltb 0 price)) ≡ true
    → t ≡ limit
    → 0 < price
limit_price limit price h e = ground arith
limit_price market price h e = cc

created-IsValidOrder :
    (c : Codec) (now : ℕ) (env : CommandEnvelope) (p : CreatedFields)
    → IfAccepted (IsValidOrder now env.market_id) (created_payload c now env p)
unfolding created_payload
created-IsValidOrder c now env p = elim (Option-cases (c.uuid_parse p.order_id)) [
  | inl e ↦ rw e tt
  | inr (order_id, e) ↦ rw e (elim (Option-cases (c.uuid_parse p.user_id)) [
    | inl e2 ↦ rw e2 tt
    | inr (user_id, e2) ↦ rw e2 (elim (Option-cases (parse_positive c p.quantity)) [
      | inl e3 ↦ rw e3 tt
      | inr (quantity, e3) ↦ rw e3 (elim (Option-cases (parse_side p.side)) [
        | inl e4 ↦ rw e4 tt
        | inr (side, e4) ↦ rw e4 (elim (Option-cases (parse_order_type p.order_type)) [
          | inl e5 ↦ rw e5 tt
          | inr (order_type, e5) ↦ rw e5 (elim (Option-cases (parse_price c p.price)) [
            | inl e6 ↦ rw e6 tt
            | inr (price, e6) ↦
                rw e6 (elim (Bool-cases (not (is_limit order_type && not (ltb 0 price)))) [
                  | inr e7 ↦ rw e7 tt
                  | inl e7 ↦ rw e7 (record {
                    for_market = refl;
                    positive_quantity = positive_is c p.quantity quantity e3;
                    positive_price = limit_price order_type price e7;
                    not_future = node_timestamp-le now env.occurred_at;
                  })
                ])
          ])
        ])
      ])
    ])
  ])
]

-- The body of an event that is on its way to the market.
abbrev pub IsCommandFor : ℕ → ℕ → EventBody → Type 0
IsCommandFor now market_id (order_created p) = IsValidOrder now market_id p
IsCommandFor now market_id (order_cancel p) = p.market_id ≡ market_id
IsCommandFor now market_id recovery_barrier = ⊥
IsCommandFor now market_id unknown = ⊥

cancel-for_market :
    (c : Codec) (env : CommandEnvelope) (p : CancelFields)
    → IfAccepted (λ (q : OrderCancelPayload). q.market_id ≡ env.market_id) (cancel_payload c env p)
unfolding cancel_payload
cancel-for_market c env p = elim (Option-cases (c.uuid_parse p.order_id)) [
  | inl e ↦ rw e tt
  | inr (order_id, e) ↦ rw e (elim (Option-cases (c.uuid_parse p.user_id)) [
    | inl e2 ↦ rw e2 tt
    | inr (user_id, e2) ↦ rw e2 refl
  ])
]

body-IsCommandFor :
    (d : Decoder) (c : Codec) (now : ℕ) (env : CommandEnvelope)
    → IfAccepted (IsCommandFor now env.market_id) (command_body d c now env)
unfolding command_body
body-IsCommandFor d c now env = elim (Bool-cases (same_text env.event_type "OrderCreated")) [
  | inl e ↦ rw e (elim (Option-cases (d.created env.payload)) [
    | inl none_given ↦ rw none_given tt
    | inr (p, given) ↦ rw given (
        after_step (IsValidOrder now env.market_id) P (created_payload c now env p)
          (λ q. accepted (order_created q)) (created-IsValidOrder c now env p) (λ q v. v))
  ])
  | inr e ↦ rw e (elim (Bool-cases (same_text env.event_type "OrderCancelRequested")) [
    | inl f ↦ rw f (elim (Option-cases (d.cancel env.payload)) [
      | inl none_given ↦ rw none_given tt
      | inr (p, given) ↦ rw given (
          after_step (λ (q : OrderCancelPayload). q.market_id ≡ env.market_id) P
            (cancel_payload c env p) (λ q. accepted (order_cancel q)) (cancel-for_market c env p)
            (λ q v. v))
    ])
    | inr f ↦ rw f tt
  ])
]
  where
    P : EventBody → Type 0
    P = IsCommandFor now env.market_id

-- What an accepted event has of its message.
pub record IsAdmitted (routed : ℕ → Bool) (now : ℕ) (msg : Message) (event : InputEvent)
    : Type 0 where
  pub market_id : ℕ
  pub keyed : msg.key ≡ some market_id
  pub has_queue : routed market_id ≡ true
  pub command : IsCommandFor now market_id event.body
  pub same_topic : event.topic ≡ msg.topic
  pub same_partition : event.partition ≡ msg.partition
  pub same_offset : event.offset ≡ msg.offset

handle-IsAdmitted :
    (d : Decoder) (c : Codec) (routed : ℕ → Bool) (now : ℕ) (done : Bool) (msg : Message)
    → IfAccepted (IsAdmitted routed now msg) (handle_order_command d c routed now done msg)
unfolding handle_order_command
handle-IsAdmitted d c routed now done msg = elim (Option-cases (d.envelope msg.value)) [
  | inl e ↦ rw e tt
  | inr (env, e) ↦ rw e (elim (Option-cases msg.key) [
    | inl e2 ↦ rw e2 tt
    | inr (key, e2) ↦ simp e2 (elim (Bool-cases (same_key key env.market_id)) [
      | inr e3 ↦ rw e3 tt
      | inl e3 ↦ rw e3 (elim (Option-cases (c.uuid_parse env.event_id)) [
        | inl e4 ↦ rw e4 tt
        | inr (event_id, e4) ↦ rw e4 (elim (Bool-cases (not (same_text env.event_id ""))) [
          | inr e5 ↦ rw e5 tt
          | inl e5 ↦ rw e5 (elim (Bool-cases (is_one env.event_version)) [
            | inr e6 ↦ rw e6 tt
            | inl e6 ↦ rw e6 (elim (Bool-cases (routed env.market_id)) [
              | inr e7 ↦ rw e7 tt
              | inl e7 ↦ rw e7 (
                  after_step (IsCommandFor now env.market_id) (IsAdmitted routed now msg)
                    (command_body d c now env) _ (body-IsCommandFor d c now env)
                    (last env key event_id e2 e3 e7))
            ])
          ])
        ])
      ])
    ])
  ])
]
  where
    last :
        (env : CommandEnvelope) (key event_id : ℕ)
        → msg.key ≡ some key
        → same_key key env.market_id ≡ true
        → routed env.market_id ≡ true
        → (body : EventBody) → IsCommandFor now env.market_id body
        → IfAccepted (IsAdmitted routed now msg) (
            check (not done) context_done
            >> accepted (record {
              event_id = event_id;
              body = body;
              topic = msg.topic;
              partition = msg.partition;
              offset = msg.offset;
            }))
    last env key event_id e2 e3 e7 body valid = elim (Bool-cases (not done)) [
      | inr e8 ↦ rw e8 tt
      | inl e8 ↦
          let same : key ≡ env.market_id = ground arith in
          let keyed : msg.key ≡ some env.market_id = e2 ∙ ap some same in
          rw e8 (record {
            market_id = env.market_id;
            keyed = keyed;
            has_queue = e7;
            command = valid;
            same_topic = refl;
            same_partition = refl;
            same_offset = refl;
          })
    ]

-- An event that the consumer accepts from a message is a command for the market that is the
-- message's key and that has a queue; an order in it has a positive quantity, a positive price if
-- it is a LIMIT order, and a time at most five minutes ahead of the clock; and it has the
-- message's position.
pub accepted-IsAdmitted :
    (d : Decoder) (c : Codec) (routed : ℕ → Bool) (now : ℕ) (done : Bool) (msg : Message)
    (event : InputEvent)
    → handle_order_command d c routed now done msg ≡ accepted event
    → IsAdmitted routed now msg event
accepted-IsAdmitted d c routed now done msg event e =
    subst (IfAccepted (IsAdmitted routed now msg)) e (handle-IsAdmitted d c routed now done msg)
