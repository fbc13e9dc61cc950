-- ===== src/WsBridge/Frames.antt =====
-- packages/orchestrator/src/ws-bridge.ts: the frames that the senders of `WsBridge` write to a
-- runner's socket. A text, a number or a nested object is a number, and 0 is the empty or zero one,
-- which the tests by truth leave out (an array or object is never 0); a field that is undefined is left out by `JSON.stringify`.
use claude_agent_runner.Common.{ℕ, Option, none, some, List, [], ◌∷◌, ◌++◌, if◌then◌else◌, ◌==◌}

pub data FrameType : Type 0 where
  message shutdown compact steer fork_and_steer context rewind set_options : FrameType
  permission_response get_commands mcp rename adopt utility_query pty_input pty_resize : FrameType

pub data Field : Type 0 where
  message content model max_turns max_thinking_tokens custom_instructions compact_flag : Field
  compact_instructions operations operation user_message_uuid permission_mode effort : Field
  tool_use_id behavior updated_input action server_name enabled title session_id : Field
  oauth_token config prompt system_prompt max_tokens data_text cols rows request_id trace_id : Field

pub record Frame : Type 0 where
  pub type_name : FrameType
  pub fields : List (Field × ℕ)

-- `...(x ? { field: x } : {})`.
abbrev pub when_truthy : Field → Option ℕ → List (Field × ℕ)
when_truthy f none = []
when_truthy f (some v) = if v == 0 then [] else (f, v) ∷ []

-- `...(x !== undefined ? { field: x } : {})`, and a field that is given as it is.
abbrev pub when_defined : Field → Option ℕ → List (Field × ℕ)
when_defined f none = []
when_defined f (some v) = (f, v) ∷ []

pub record TurnOptions : Type 0 where
  pub content : Option ℕ
  pub model : Option ℕ
  pub max_turns : Option ℕ
  pub max_thinking_tokens : Option ℕ
  pub request_id : Option ℕ
  pub trace_id : Option ℕ

pub record SteerOptions : Type 0 where
  pub turn : TurnOptions
  pub compact : Option ℕ
  pub compact_instructions : Option ℕ
  pub operations : Option ℕ

pub record SetOptions : Type 0 where
  pub model : Option ℕ
  pub max_thinking_tokens : Option ℕ
  pub compact_instructions : Option ℕ
  pub permission_mode : Option ℕ
  pub effort : Option ℕ
  pub request_id : Option ℕ
  pub trace_id : Option ℕ

pub record QueryOptions : Type 0 where
  pub model : Option ℕ
  pub system_prompt : Option ℕ
  pub max_tokens : Option ℕ

-- One constructor for each sender, with its arguments.
pub data Command : Type 0 where
  send_message : ℕ → TurnOptions → Command
  send_shutdown : Command
  send_compact : Option ℕ → Option ℕ → Command
  send_steer : ℕ → SteerOptions → Command
  send_fork_and_steer : ℕ → TurnOptions → Command
  send_context_command : ℕ → ℕ → Option ℕ → Command
  send_rewind : ℕ → Option ℕ → Option ℕ → Command
  send_set_options : SetOptions → Command
  send_permission_response : ℕ → ℕ → Option ℕ → Option ℕ → Command
  send_get_commands : Option ℕ → Option ℕ → Command
  send_mcp_command : ℕ → ℕ → Option ℕ → Option ℕ → Command
  send_rename : ℕ → Option ℕ → Command
  send_adopt : ℕ → ℕ → ℕ → Command
  send_utility_query : ℕ → QueryOptions → Option ℕ → Option ℕ → Command
  send_pty_input : ℕ → Command
  send_pty_resize : ℕ → ℕ → Command

abbrev pub traced : Option ℕ → Option ℕ → List (Field × ℕ)
traced request trace = when_defined request_id request ++ when_defined trace_id trace

abbrev pub turn_fields : ℕ → TurnOptions → List (Field × ℕ)
turn_fields text o =
    ((Field.message, text) ∷ [])
    ++ when_truthy content o.content
    ++ when_truthy model o.model
    ++ when_truthy max_turns o.max_turns
    ++ when_defined max_thinking_tokens o.max_thinking_tokens

abbrev pub message_frame : ℕ → TurnOptions → Frame
message_frame text o = record {
  type_name = FrameType.message;
  fields = turn_fields text o ++ traced o.request_id o.trace_id;
}

abbrev pub steer_frame : ℕ → SteerOptions → Frame
steer_frame text o = record {
  type_name = steer;
  fields =
      turn_fields text o.turn
      ++ when_truthy compact_flag o.compact
      ++ when_truthy compact_instructions o.compact_instructions
      ++ when_truthy operations o.operations
      ++ traced (o.turn).request_id (o.turn).trace_id;
}

abbrev pub set_options_frame : SetOptions → Frame
set_options_frame o = record {
  type_name = set_options;
  fields =
      when_truthy model o.model
      ++ when_defined max_thinking_tokens o.max_thinking_tokens
      ++ when_truthy compact_instructions o.compact_instructions
      ++ when_truthy permission_mode o.permission_mode
      ++ when_truthy effort o.effort
      ++ traced o.request_id o.trace_id;
}

abbrev pub permission_response_frame : ℕ → ℕ → Option ℕ → Option ℕ → Frame
permission_response_frame tool answer text input = record {
  type_name = permission_response;
  fields =
      ((tool_use_id, tool) ∷ (behavior, answer) ∷ [])
      ++ when_truthy Field.message text
      ++ when_defined updated_input input;
}

abbrev pub mcp_frame : ℕ → ℕ → Option ℕ → Option ℕ → Frame
mcp_frame what server on request = record {
  type_name = mcp;
  fields =
      ((action, what) ∷ (server_name, server) ∷ [])
      ++ when_defined enabled on
      ++ when_defined request_id request;
}

abbrev pub adopt_frame : ℕ → ℕ → ℕ → Frame
adopt_frame real token settings = record {
  type_name = adopt;
  fields = (session_id, real) ∷ (oauth_token, token) ∷ (config, settings) ∷ [];
}

abbrev pub utility_query_frame : ℕ → QueryOptions → Option ℕ → Option ℕ → Frame
utility_query_frame text o request trace = record {
  type_name = utility_query;
  fields =
      ((prompt, text) ∷ [])
      ++ when_defined model o.model
      ++ when_defined system_prompt o.system_prompt
      ++ when_defined max_tokens o.max_tokens
      ++ traced request trace;
}

pub frame_of : Command → Frame
frame_of (send_message text o) = message_frame text o
frame_of send_shutdown = record { type_name = shutdown; fields = [] }
frame_of (send_compact instructions request) = record {
  type_name = compact;
  fields = when_truthy custom_instructions instructions ++ when_defined request_id request;
}
frame_of (send_steer text o) = steer_frame text o
frame_of (send_fork_and_steer text o) = record {
  type_name = fork_and_steer;
  fields = turn_fields text o ++ traced o.request_id o.trace_id;
}
frame_of (send_context_command op request trace) = record {
  type_name = context;
  fields = (operation, op) ∷ traced (some request) trace;
}
frame_of (send_rewind uuid request trace) = record {
  type_name = rewind;
  fields = (user_message_uuid, uuid) ∷ traced request trace;
}
frame_of (send_set_options o) = set_options_frame o
frame_of (send_permission_response tool answer text input) =
    permission_response_frame tool answer text input
frame_of (send_get_commands request trace) = record {
  type_name = get_commands;
  fields = traced request trace;
}
frame_of (send_mcp_command what server on request) = mcp_frame what server on request
frame_of (send_rename text request) = record {
  type_name = rename;
  fields = (title, text) ∷ when_defined request_id request;
}
frame_of (send_adopt real token settings) = adopt_frame real token settings
frame_of (send_utility_query text o request trace) = utility_query_frame text o request trace
frame_of (send_pty_input text) = record { type_name = pty_input; fields = (data_text, text) ∷ [] }
frame_of (send_pty_resize width height) = record {
  type_name = pty_resize;
  fields = (cols, width) ∷ (rows, height) ∷ [];
}
