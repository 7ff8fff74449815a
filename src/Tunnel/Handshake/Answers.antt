-- ===== src/Tunnel/Handshake/Answers.antt =====
-- `handshake`: the messages that open a session.
use tuzy.Shared.{◌≡◌, ◌++◌, map, Bool, true, false, ◌||◌, none, some, List, [], ◌∷◌}
use text.Mathlib.Text.{◌==◌ as str_eq}
use tuzy.Protocol.{Bytes, FrameType, Frame, Result, ok, err, ready, goaway}
use tuzy.Protocol.Decode.{decode}
use tuzy.Tunnel.Session.{Goaway}
use tuzy.Tunnel.Handshake.{
  Hello, Ready, HelloJson, Inbound, text_in, binary_in, no_read, read_failed, bad_frame, bad_ready,
  ready_incomplete, bad_goaway, goaway_without_reason, before_ready, Welcome, welcome, sent_away,
  failed,
}

-- READY and GOAWAY.
abbrev opens : FrameType → Bool
opens ready = true
opens goaway = true
opens _ = false

abbrev IsComplete : Ready → Type 0
IsComplete r = (str_eq r.name "" || str_eq r.url "") ≡ false

-- What a result says of the type and the payload of the first frame.
abbrev Told : HelloJson → Welcome → FrameType → Bytes → Type 0
Told js (welcome r) t b = (t ≡ ready) × (js.ready_of b ≡ some r) × IsComplete r
Told js (sent_away g) t b = (t ≡ goaway) × (js.goaway_of b ≡ some g) × (str_eq g.reason "" ≡ false)
Told js (failed bad_ready) t b = (t ≡ ready) × (js.ready_of b ≡ none)
Told js (failed ready_incomplete) t b =
    (t ≡ ready)
    × (r : Ready) × (js.ready_of b ≡ some r)
    × ((str_eq r.name "" || str_eq r.url "") ≡ true)
Told js (failed bad_goaway) t b = (t ≡ goaway) × (js.goaway_of b ≡ none)
Told js (failed goaway_without_reason) t b =
    (t ≡ goaway) × (g : Goaway) × (js.goaway_of b ≡ some g) × (str_eq g.reason "" ≡ true)
Told js (failed (before_ready u)) t b = (t ≡ u) × (opens u ≡ false)
Told js (failed _) t b = ⊥

-- What a result says of the first binary message, decoded.
abbrev FirstTold : HelloJson → Welcome → Result Frame → Type 0
FirstTold js w (err e) = w ≡ failed (bad_frame e)
FirstTold js w (ok f) = Told js w f.type f.payload

-- What a result says of the messages that came: text is passed over, and the first other one decides.
abbrev IsAnswered : HelloJson → List Inbound → Welcome → Type 0
IsAnswered js [] w = w ≡ failed read_failed
IsAnswered js (no_read ∷ ms) w = w ≡ failed read_failed
IsAnswered js (text_in b ∷ ms) w = IsAnswered js ms w
IsAnswered js (binary_in b ∷ ms) w = FirstTold js w (decode js.codecs b)

-- The messages that came: texts, of whatever content, then a binary message that decodes to this frame, then others.
abbrev pub OpensWith : HelloJson → List Inbound → Frame → Type 0
OpensWith js ms f =
    (texts : List Bytes) × (msg : Bytes) × (later : List Inbound) × (ms
      ≡ map text_in texts ++ binary_in msg ∷ later)
    × (decode js.codecs msg ≡ ok f)

-- HELLO is encoded and written, and a frame opens the session that has this to say.
abbrev pub IsOpened : HelloJson → Hello → Bool → List Inbound → (Frame → Type 0) → Type 0
IsOpened js h written ms Says =
    (b : Bytes) × (js.hello_text h ≡ some b)
    × (written ≡ true)
    × (f : Frame) × OpensWith js ms f
    × Says f

-- The frame is a READY for `r`, which has a name and a URL.
abbrev pub SaysReady : HelloJson → Ready → Frame → Type 0
SaysReady js r f =
    (f.type ≡ ready)
    × (js.ready_of f.payload ≡ some r)
    × ((str_eq r.name "" || str_eq r.url "") ≡ false)

-- The frame is a GOAWAY that says `g`, with a reason.
abbrev pub SaysGoaway : HelloJson → Goaway → Frame → Type 0
SaysGoaway js g f =
    (f.type ≡ goaway) × (js.goaway_of f.payload ≡ some g) × (str_eq g.reason "" ≡ false)
