-- ===== src/ClientWs/Terminal.antt =====
-- packages/orchestrator/src/client-ws.ts: `handlePtyAttach`, a socket that is attached to the terminal
-- of a session. `attached` lists the sockets with their sessions, each for its two subscriptions on
-- the bridge; `base64` is the encoding of raw bytes. The tenant is not looked at.
use claude_agent_runner.Common.{
  ℕ, Option, none, some, Bool, ◌&&◌, List, [], ◌∷◌, ◌++◌, if◌then◌else◌, ◌==◌,
}
use claude_agent_runner.Common.Dict.{lookup, insert, remove}
use claude_agent_runner.WsBridge.{WsBridge, Event, pty_texts, pty_exits, deliver}
use claude_agent_runner.WsBridge.Frames.{Command, send_pty_input, send_pty_resize}

pub data TerminalFrame : Type 0 where
  pty_data : ℕ → Option ℕ → TerminalFrame
  pty_exit : Option ℕ → Option ℕ → TerminalFrame

-- What a client's message is: raw bytes, a resize, an input, another object, or no JSON.
pub data TerminalMessage : Type 0 where
  raw_bytes no_json typed : ℕ → TerminalMessage
  resize : ℕ → ℕ → TerminalMessage
  other_object : TerminalMessage

pub record Terminals : Type 0 where
  pub bridge : WsBridge
  pub attached : List (ℕ × ℕ)
  pub outbox : List (ℕ × TerminalFrame)
  pub closing : List ℕ

unfoldable pub attach_terminal : ℕ → ℕ → Terminals → Terminals
attach_terminal client session t = record t { attached = insert client session t.attached }

unfoldable pub detach_terminal : ℕ → Terminals → Terminals
detach_terminal client t = record t { attached = remove client t.attached }

module _ (is_open : ℕ → Bool) (base64 : ℕ → ℕ) where
  abbrev pub terminal_command : TerminalMessage → Option Command
  terminal_command (raw_bytes data_bytes) = some (send_pty_input (base64 data_bytes))
  terminal_command (no_json data_bytes) = some (send_pty_input (base64 data_bytes))
  terminal_command (typed text) = some (send_pty_input text)
  terminal_command (resize cols rows) = some (send_pty_resize cols rows)
  terminal_command other_object = none

  abbrev pub to_runner : Option ℕ → Option Command → Terminals → Terminals
  to_runner (some s) (some c) t =
      let (_, b) = deliver is_open s c t.bridge in record t { bridge = b }
  to_runner _ _ t = t

  unfoldable pub on_terminal_message : ℕ → TerminalMessage → Terminals → Terminals
  unfolding deliver
  on_terminal_message client m t = to_runner (lookup client t.attached) (terminal_command m) t

  -- The open sockets of a session, in the order in which they were attached.
  unfoldable pub watchers : ℕ → List (ℕ × ℕ) → List ℕ
  watchers s [] = []
  watchers s ((client, session) ∷ rest) =
      let others = watchers s rest in
      if session == s && is_open client then client ∷ others else others

  unfoldable pub shown : TerminalFrame → List ℕ → List (ℕ × TerminalFrame)
  shown f [] = []
  shown f (c ∷ cs) = (c, f) ∷ shown f cs

  -- An exit also closes the sockets.
  unfoldable pub on_terminal_event : Event → Terminals → Terminals
  unfolding watchers shown
  on_terminal_event (pty_texts s text stderr) t = record t {
    outbox = t.outbox ++ shown (pty_data text stderr) (watchers s t.attached);
  }
  on_terminal_event (pty_exits s code signal) t = record t {
    outbox = t.outbox ++ shown (pty_exit code signal) (watchers s t.attached);
    closing = t.closing ++ watchers s t.attached;
  }
  on_terminal_event _ t = t
