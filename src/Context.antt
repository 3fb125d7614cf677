-- ===== src/Context.antt =====
-- internal/context/builder.go. The builder is its number of messages.
pub mod Shown
use auxitalk.Base.{
  ℤ, pos, pos_part, ltb_ℤ, String, List, [], ◌∷◌, Option, none, some, ◌==◌, string_eq,
  if◌then◌else◌, concat, last_of,
}
use auxitalk.Types.Session.{Session, Message, inbound}

abbrev pub Builder : Type 0
Builder = ℤ

pub new_builder : ℤ → Builder
new_builder n = if ltb_ℤ n (pos 1) then pos 20 else n

-- the text that the loop writes for one message
unfoldable pub message_line : Message → String
message_line m =
    concat ((if m.direction == inbound then "User: " else "Assistant: ") ∷ m.text ∷ "\n" ∷ [])

-- the loop over the messages
unfoldable pub message_lines : List Message → String
unfolding message_line
message_lines [] = ""
message_lines (m ∷ ms) = concat (message_line m ∷ message_lines ms ∷ [])

unfoldable pub heading : Session → String
heading s = concat ("Session: " ∷ s.id ∷ " (" ∷ s.channel ∷ ")\n" ∷ [])

-- `none` is the panic of a slice that begins behind the end of the messages.
unfoldable pub build : Builder → Session → Option String
unfolding message_lines heading
build b s =
    if ltb_ℤ b (pos 0)
    then none
    else some (concat (heading s ∷ message_lines (last_of (pos_part b) s.messages) ∷ []))
