-- ===== src/LiveContext/Tests.antt =====
-- packages/runner/src/context-ops.ts and merge-back.ts: a short conversation on which the definitions
-- are run and the theorems are applied.
use claude_agent_runner.Common.{
  ℕ, ◌+◌, ◌≡◌, refl, none, some, Bool, true, false, not, if◌then◌else◌, map, List, [], ◌∷◌, ◌==◌,
}
use claude_agent_runner.LiveContext.{
  Message, text_content, blocks, DrainResult, Notice, completed_notice, failed_notice, removed,
  failed, message_not_found, remove_message, truncate, execute, spliced, splice_lost, ipc_failed,
  rewind, merge_back_result, find_index, find_placeholder_index,
}
use claude_agent_runner.LiveContext.Merge.{Merges, is_written, merge_back_result-IsMerged}

program : Unit {0}
unfolding execute rewind merge_back_result find_index find_placeholder_index
program = tt

abbrev says : ℕ → ℕ → Message
says uuid text = record {
  uuid = some uuid;
  role = 1;
  content = some (text_content text);
  message = none;
  timestamp = none;
}

abbrev talk : List Message
talk = says 1 10 ∷ says 2 77 ∷ says 3 30 ∷ []

rewinds : rewind false true none spliced 2 talk ≡ (removed 1, says 1 10 ∷ says 2 77 ∷ [])
unfolding program
rewinds = refl

-- The client is told of a failure, but the messages are cut.
rewinds_unanswered :
    rewind false true none (splice_lost 5) 2 talk
    ≡ (failed (ipc_failed 5), says 1 10 ∷ says 2 77 ∷ [])
unfolding program
rewinds_unanswered = refl

keeps_one : (execute (truncate 1) 9 0 talk).1 ≡ says 3 30 ∷ []
unfolding program
keeps_one = refl

misses : execute (remove_message 8) 9 0 talk ≡ (failed (message_not_found 8), talk)
unfolding program
misses = refl

abbrev includes : ℕ → ℕ → Bool
includes text task = text == task

abbrev text_of : Notice → ℕ
text_of (completed_notice t) = t + 1000
text_of (failed_notice t e) = t + 2000

abbrev drained : DrainResult
drained = record { success = true; result = some 99; error = none }

merges :
    merge_back_result includes text_of 1 true true spliced drained 77 talk
    ≡ says 1 10 ∷ says 2 99 ∷ says 3 30 ∷ []
unfolding program
merges = refl

abbrev holds : ℕ → Bool → ℕ → Message
holds uuid is_result text = record {
  uuid = some uuid;
  role = 1;
  content = none;
  message = some (
      some (
        blocks (
          record {
            is_tool_result = is_result;
            is_text = not is_result;
            text = if is_result then none else some text;
            content = if is_result then some text else none;
          }
          ∷ [])));
  timestamp = none;
}

-- A text that mentions the task behind the placeholder: the placeholder keeps its content.
abbrev mentioned_twice : List Message
mentioned_twice = holds 4 true 77 ∷ holds 5 false 77 ∷ []

loses_result :
    map
      (λ m. m.message)
      (merge_back_result includes text_of 1 true true spliced drained 77 mentioned_twice)
    ≡ map (λ m. m.message) mentioned_twice
unfolding program
loses_result = refl

fills :
    map
      (λ m. m.message)
      (merge_back_result includes text_of 1 true true spliced drained 77
        (holds 4 true 77 ∷ says 5 10 ∷ []))
    ≡ (holds 4 true 99).message ∷ none ∷ []
unfolding program
fills = refl

merge_back_result-IsMerged_example :
    Merges includes text_of 1
      (is_written includes text_of 1 true spliced drained)
      drained
      77
      mentioned_twice
      (merge_back_result includes text_of 1 true true spliced drained 77 mentioned_twice)
    × (merge_back_result includes text_of 1 false true spliced drained 77 mentioned_twice
        ≡ mentioned_twice)
merge_back_result-IsMerged_example =
    merge_back_result-IsMerged includes text_of 1 true spliced drained 77 mentioned_twice
