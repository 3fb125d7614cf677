-- ===== src/Types/Session.antt =====
-- pkg/types/session.go
use auxitalk.Base.{
  String, List, ◌&&◌, Option, none, some, Error, ◌==◌, string_eq, if◌then◌else◌, is_blank, not,
}
use auxitalk.Types.Value.{Fields}
use auxitalk.Types.Event.{Time, is_zero}

abbrev pub inbound : String
inbound = "inbound"

abbrev pub outbound : String
outbound = "outbound"

pub record Participant : Type 0 where
  pub id : String
  pub display_name : String
  pub role : String
  pub metadata : Fields

pub record Message : Type 0 where
  pub id : String
  pub session_id : String
  pub author_id : String
  pub text : String
  pub direction : String
  pub source : String
  pub metadata : Fields
  pub created_at : Time

unfoldable pub validate_message : Message → Option Error
validate_message m =
    if is_blank m.id
    then some "message id is required"
    else if is_blank m.session_id
    then some "message sessionId is required"
    else if is_blank m.author_id
    then some "message authorId is required"
    else if is_blank m.source
    then some "message source is required"
    else if not (m.direction == inbound) && not (m.direction == outbound)
    then some "message direction is invalid"
    else if is_zero m.created_at
    then some "message createdAt is required"
    else none

pub record Session : Type 0 where
  pub id : String
  pub channel : String
  pub participants : List Participant
  pub messages : List Message
  pub state : String
  pub metadata : Fields
  pub created_at : Time
  pub updated_at : Time

unfoldable pub validate : Session → Option Error
validate s =
    if is_blank s.id
    then some "session id is required"
    else if is_blank s.channel
    then some "session channel is required"
    else if is_zero s.created_at
    then some "session createdAt is required"
    else if is_zero s.updated_at
    then some "session updatedAt is required"
    else none
