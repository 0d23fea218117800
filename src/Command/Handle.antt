-- ===== src/Command/Handle.antt =====
-- command.go: `HandleOrderCommandWithContext`, `parseSide` and `parseOrderType`.
use Prim.Native.String.{String}
use text.Mathlib.Text.{◌==◌ as same_text}
use tradedrift.Base.{
  ℕ, Option, none, some, Bool, true, false, ltb, ◌==◌, if◌then◌else◌, ◌&&◌, not, ℤ, pos, negsuc,
  positive, non_negative,
}
use tradedrift.OrderBook.{SideType, buy, sell, OrderType, limit, market}
use tradedrift.Snapshot.Serialize.{Codec}
use tradedrift.Engine.State.{
  OrderCreatedPayload, OrderCancelPayload, EventBody, order_created, order_cancel, InputEvent,
}
use tradedrift.Engine.Apply.{node_timestamp}

-- What JSON decoding gives for an envelope; the payload is still a text.
pub record CommandEnvelope : Type 0 where
  pub event_id : String
  pub event_type : String
  pub event_version : ℤ
  pub market_id : ℕ
  pub occurred_at : ℕ
  pub payload : String

pub record CreatedFields : Type 0 where
  pub order_id : String
  pub user_id : String
  pub side : String
  pub order_type : String
  pub price : String
  pub quantity : String
  pub client_order_id : ℕ

pub record CancelFields : Type 0 where
  pub order_id : String
  pub user_id : String

-- A message; an empty key is `none`, and a key is otherwise a market's name.
pub record Message : Type 0 where
  pub key : Option ℕ
  pub value : String
  pub topic : ℕ
  pub partition : ℕ
  pub offset : ℕ

-- `json.Unmarshal` at the three types.
pub record Decoder : Type 0 where
  pub envelope : String → Option CommandEnvelope
  pub created : String → Option CreatedFields
  pub cancel : String → Option CancelFields

pub data CommandError : Type 0 where
  bad_envelope missing_key key_mismatch bad_event_id bad_version unknown_market unknown_event_type :
      CommandError
  bad_payload bad_order_id bad_user_id bad_quantity bad_side bad_order_type bad_price
        no_limit_price :
      CommandError
  context_done : CommandError

pub data Checked {ℓ} (A : Type ℓ) : Type ℓ where
  accepted : A → Checked A
  rejected : CommandError → Checked A

infixl 5 ◌>>=◌ ◌>>◌
abbrev pub ◌>>=◌ {ℓ κ} : {A : Type ℓ} {B : Type κ} → Checked A → (A → Checked B) → Checked B
accepted a >>= f = f a
rejected e >>= f = rejected e

abbrev pub ◌>>◌ {ℓ} : {B : Type ℓ} → Checked (Unit {0}) → Checked B → Checked B
m >> k = m >>= λ _. k

abbrev pub require {ℓ} : {A : Type ℓ} → Option A → CommandError → Checked A
require none e = rejected e
require (some a) e = accepted a

abbrev pub check : Bool → CommandError → Checked (Unit {0})
check true e = accepted tt
check false e = rejected e

unfoldable pub parse_side : String → Option SideType
parse_side s =
    if same_text s "BUY" then some buy else if same_text s "SELL" then some sell else none

unfoldable pub parse_order_type : String → Option OrderType
parse_order_type s =
    if same_text s "LIMIT" then some limit else if same_text s "MARKET" then some market else none

-- A text that is a decimal above zero.
unfoldable pub parse_positive : Codec → String → Option ℕ
parse_positive c text = elim (c.decimal_parse text) [ none ↦ none | some d ↦ positive d ]

-- No text is the price zero.
unfoldable pub parse_price : Codec → String → Option ℕ
parse_price c text =
    let given = elim (c.decimal_parse text) as (λ x. Option ℕ) [
      | none ↦ none
      | some d ↦ non_negative d
    ] in
    if same_text text "" then some 0 else given

abbrev pub is_limit : OrderType → Bool
is_limit limit = true
is_limit market = false

unfoldable pub created_payload :
    Codec → ℕ → CommandEnvelope → CreatedFields → Checked OrderCreatedPayload
created_payload c now env p = do
  order_id ← require (c.uuid_parse p.order_id) bad_order_id
  user_id ← require (c.uuid_parse p.user_id) bad_user_id
  quantity ← require (parse_positive c p.quantity) bad_quantity
  side ← require (parse_side p.side) bad_side
  order_type ← require (parse_order_type p.order_type) bad_order_type
  price ← require (parse_price c p.price) bad_price
  check (not (is_limit order_type && not (ltb 0 price))) no_limit_price
  accepted (record {
    order_id = order_id;
    user_id = user_id;
    market_id = env.market_id;
    side = side;
    order_type = order_type;
    price = price;
    quantity = quantity;
    client_order_id = p.client_order_id;
    occurred_at = node_timestamp now env.occurred_at;
  })

unfoldable pub cancel_payload : Codec → CommandEnvelope → CancelFields → Checked OrderCancelPayload
cancel_payload c env p = do
  order_id ← require (c.uuid_parse p.order_id) bad_order_id
  user_id ← require (c.uuid_parse p.user_id) bad_user_id
  accepted (record { order_id = order_id; user_id = user_id; market_id = env.market_id })

abbrev pub is_one : ℤ → Bool
is_one (pos n) = n == 1
is_one (negsuc n) = false

-- The `switch` on the event type.
unfoldable pub command_body : Decoder → Codec → ℕ → CommandEnvelope → Checked EventBody
unfolding created_payload cancel_payload
command_body d c now env =
    let create =
      (require (d.created env.payload) bad_payload >>= λ p.
      created_payload c now env p >>= λ q. accepted (order_created q)) in
    let cancel =
      (require (d.cancel env.payload) bad_payload >>= λ p.
      cancel_payload c env p >>= λ q. accepted (order_cancel q)) in
    if same_text env.event_type "OrderCreated"
    then create
    else if same_text env.event_type "OrderCancelRequested"
    then cancel
    else rejected unknown_event_type

abbrev pub same_key : ℕ → ℕ → Bool
same_key k m = k == m

-- `routed` is whether a market has a queue; `done` is whether the `select` takes the end of the
-- context. The event that is accepted goes to the queue of its market.
unfoldable pub handle_order_command :
    Decoder → Codec → (ℕ → Bool) → ℕ → Bool → Message → Checked InputEvent
unfolding command_body
handle_order_command d c routed now done msg = do
  env ← require (d.envelope msg.value) bad_envelope
  key ← require msg.key missing_key
  check (same_key key env.market_id) key_mismatch
  event_id ← require (c.uuid_parse env.event_id) bad_event_id
  check (not (same_text env.event_id "")) bad_event_id
  check (is_one env.event_version) bad_version
  check (routed env.market_id) unknown_market
  body ← command_body d c now env
  check (not done) context_done
  accepted (record {
    event_id = event_id;
    body = body;
    topic = msg.topic;
    partition = msg.partition;
    offset = msg.offset;
  })
