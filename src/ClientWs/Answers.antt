-- ===== src/ClientWs/Answers.antt =====
-- packages/orchestrator/src/client-ws.ts: the answers of a runner that a client's request waits for.
use claude_agent_runner.Common.{
  ℕ, Option, none, some, Bool, true, false, ◌++◌, if◌then◌else◌, take, drop, get_elem?, ◌+◌,
}
use mathlib.Core.Option
use claude_agent_runner.WsBridge.{Event, commands_results, mcp_results}
use claude_agent_runner.ClientWs.Commands.{
  Hub, ServerFrame, commands_result, ack, timed_out, reported, Wait, WaitKind, for_commands,
  for_mcp, send_frame, is_answered, settle_waits,
}

module _ (is_open : ℕ → Bool) where
  -- The answers that are waited for; `result.commands || []`, `result.success` and `result.error`
  -- are read from the whole message.
  module _ (commands_of : ℕ → Option ℕ) (success_of : ℕ → Bool) (error_of : ℕ → Option ℕ) where
    abbrev pub mcp_ack : ℕ → ℕ → ℕ → ServerFrame
    mcp_ack s req whole =
        if success_of whole
        then ack s true none req
        else ack s false (Option.map reported (error_of whole)) req

    abbrev pub on_answer : Event → Hub → Hub
    on_answer (commands_results s req whole) h =
        settle_waits is_open (is_answered is_open for_commands s req)
          (λ w. commands_result s (commands_of whole) req) h
    on_answer (mcp_results s req whole) h =
        settle_waits is_open (is_answered is_open for_mcp s req) (λ w. mcp_ack s req whole) h
    on_answer _ h = h

  -- The reply where the answer does not come in time.
  abbrev pub too_late : Wait → WaitKind → ServerFrame
  too_late w for_commands = commands_result w.session none w.request
  too_late w for_mcp = ack w.session false (some timed_out) w.request

  abbrev pub timed_out_at : ℕ → Option Wait → Hub → Hub
  timed_out_at i none h = h
  timed_out_at i (some w) h =
      send_frame is_open w.client (too_late w w.kind)
        (record h { waits = take i h.waits ++ drop (i + 1) h.waits })

  -- The timer of the i-th of those that wait.
  abbrev pub on_timeout : ℕ → Hub → Hub
  on_timeout i h = timed_out_at i (get_elem? h.waits i) h
