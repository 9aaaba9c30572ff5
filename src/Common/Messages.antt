-- ===== src/Common/Messages.antt =====
-- src/common/message.go: what a message prints, and the colour of the terminal after it. Printing that
-- fails is left out.
use botcoin.Base.{Text, Bool, true, false, Option, none, some, ◌≡◌, refl}

pub data Colour : Type 0 where
  green hi_magenta hi_red hi_yellow yellow cyan : Colour

pub data MsgType : Type 0 where
  msg_information msg_warning msg_error msg_prompt msg_debug msg_other : MsgType

-- The line that is printed, if one is, and the colour that the terminal is left in; `none` is its own.
pub record Printed : Type 0 where
  pub line : Option Text
  pub in_colour : Colour
  pub left_in : Option Colour

abbrev printed : Text → Colour → Printed
printed line colour = record { line = some line; in_colour = colour; left_in = none }

-- A debug message that is suppressed returns before the colour is taken back.
unfoldable pub message_with_type : Bool → MsgType → Text → Printed
message_with_type verbose msg_information line = printed line green
message_with_type verbose msg_warning line = printed line hi_magenta
message_with_type verbose msg_error line = printed line hi_red
message_with_type verbose msg_prompt line = printed line hi_yellow
message_with_type false msg_debug line = record {
  line = none;
  in_colour = yellow;
  left_in = some yellow;
}
message_with_type true msg_debug line = printed line cyan
message_with_type verbose msg_other line = printed line yellow

unfoldable pub info_message : Bool → Text → Printed
info_message verbose = message_with_type verbose msg_information

unfoldable pub error_message : Bool → Text → Printed
error_message verbose = message_with_type verbose msg_error

-- The colour of the terminal is not touched by a debug message that is suppressed here.
unfoldable pub debug_message : Bool → Text → Option Printed
debug_message false line = none
debug_message true line = some (message_with_type true msg_debug line)

unfoldable pub prompt_message : Bool → Text → Printed
prompt_message verbose = message_with_type verbose msg_prompt

suppressed : (line : Text) → (message_with_type false msg_debug line).left_in ≡ some yellow
unfolding message_with_type
suppressed line = refl
