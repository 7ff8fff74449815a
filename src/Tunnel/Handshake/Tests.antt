-- ===== src/Tunnel/Handshake/Tests.antt =====
-- Runs of the handshake.
use tuzy.Shared.{◌≡◌, refl, true, none, some, List, [], ◌∷◌}
use tuzy.Protocol.{object, ready}
use tuzy.Protocol.Decode.{encode, decode, decode_frame}
use tuzy.Tunnel.Session.{Goaway}
use tuzy.Tunnel.Handshake.{
  Hello, Ready, HelloJson, Inbound, text_in, binary_in, welcome, failed, read_failed, handshake,
}

abbrev shop : Ready
shop = record { name = "shop"; url = "https://shop.tuzy.dev"; epoch = 4 }

abbrev toy : HelloJson
toy = record {
  codecs = record { utf8_valid = λ b. true; unmarshal_map = λ b. object };
  hello_text = λ h. some (123 ∷ 125 ∷ []);
  ready_of = λ b. some shop;
  goaway_of = λ b. none;
}

abbrev agent : Hello
agent = record { proto = 1; client = "tuzy"; instance_id = "i" }

abbrev arriving : List Inbound
arriving = text_in (111 ∷ []) ∷ binary_in (encode ready 0 (123 ∷ 125 ∷ [])) ∷ []

abbrev farewell : Goaway
farewell = record { reason = "gone"; new_name = ""; text = "" }

welcomed : (handshake toy agent true arriving).1 ≡ welcome shop
unfolding handshake decode encode decode_frame
welcomed = refl

silence : (handshake toy agent true (text_in [] ∷ [])).1 ≡ failed read_failed
unfolding handshake
silence = refl
