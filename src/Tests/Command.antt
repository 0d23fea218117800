-- ===== src/Tests/Command.antt =====
-- A message of the topic `orders.commands` that the consumer takes.
use tradedrift.Base.{ℕ, ◌≡◌, refl, none, some, false, pos, ◌==◌, Bool}
use tradedrift.OrderBook.{buy, limit}
use tradedrift.Snapshot.Serialize.{Codec}
use tradedrift.Engine.State.{InputEvent, order_created}
use tradedrift.Command.Handle.{
  Decoder, Message, accepted, handle_order_command, command_body, created_payload, parse_side,
  parse_order_type, parse_positive, parse_price,
}
use tradedrift.Command.Accepted.{IsAdmitted, accepted-IsAdmitted}

-- Any text stands for the one number 6.
abbrev codec : Codec
codec = record {
  uuid_string = λ id. "id";
  uuid_parse = λ text. some 6;
  decimal_string = λ d. "6";
  decimal_parse = λ text. some (pos 6);
  time_format = λ t. "now";
  time_parse = λ text. some 6;
  checksum = λ snapshot. some "sum";
}

-- Any value stands for a LIMIT order to buy, in market 7.
abbrev decoder : Decoder
decoder = record {
  envelope = λ text. some (record {
    event_id = "6";
    event_type = "OrderCreated";
    event_version = pos 1;
    market_id = 7;
    occurred_at = 950;
    payload = "{}";
  });
  created = λ text. some (record {
    order_id = "6";
    user_id = "6";
    side = "BUY";
    order_type = "LIMIT";
    price = "6";
    quantity = "6";
    client_order_id = 0;
  });
  cancel = λ text. none;
}

abbrev message : Message
message = record { key = some 7; value = "{}"; topic = 0; partition = 3; offset = 20 }

abbrev event : InputEvent
event = record {
  event_id = 6;
  body = order_created (record {
    order_id = 6;
    user_id = 6;
    market_id = 7;
    side = buy;
    order_type = limit;
    price = 6;
    quantity = 6;
    client_order_id = 0;
    occurred_at = 950;
  });
  topic = 0;
  partition = 3;
  offset = 20;
}

abbrev routed : ℕ → Bool
routed market_id = market_id == 7

message_is_accepted : handle_order_command decoder codec routed 1000 false message ≡ accepted event
unfolding handle_order_command command_body created_payload parse_side parse_order_type
    parse_positive parse_price
message_is_accepted = refl

accepted-IsAdmitted_example : IsAdmitted routed 1000 message event
accepted-IsAdmitted_example =
    accepted-IsAdmitted decoder codec routed 1000 false message event message_is_accepted
