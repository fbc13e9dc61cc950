-- ===== src/LiveContext.antt =====
-- packages/runner/src/context-ops.ts, merge-back.ts and the handlers of `context` and `rewind` in
-- command-handler.ts: the messages of the running process, edited over the IPC client. The array is
-- the list of the messages; the commands of one operation follow each other with nothing in between.
-- How the commands of a rewind and of a merge end is an argument; those of the others do not fail. A
-- text is a number, and `includes` is `String.includes`.
mod Tests
pub mod Rewind
pub mod Placeholder
pub mod Merge
use claude_agent_runner.Common.{
  ℕ, zero, suc, ◌+◌, ◌-◌, ◌*◌, ◌/◌, Option, none, some, Bool, true, false, not, ◌&&◌, ◌||◌, List,
  [], ◌∷◌, ◌++◌, map, if◌then◌else◌, same, ltb, get_or, is_some, any, length, take, drop, get_elem?,
}
use claude_agent_runner.Common.Dict.{lookup, insert}
use claude_agent_runner.Context.{Role, Place, at_tail, at_start, after}
use claude_agent_runner.WarmPool.{truthy}

pub record Block : Type 0 where
  pub is_tool_result : Bool
  pub is_text : Bool
  pub text : Option ℕ
  pub content : Option ℕ

pub data Content : Type 0 where
  text_content : ℕ → Content
  blocks : List Block → Content

-- `message` is the inner message, with the content that it has.
pub record Message : Type 0 where
  pub uuid : Option ℕ
  pub role : ℕ
  pub content : Option Content
  pub message : Option (Option Content)
  pub timestamp : Option ℕ

pub data ContextOperation : Type 0 where
  get_context get_stats : ContextOperation
  remove_message truncate : ℕ → ContextOperation
  inject_message : ℕ → ℕ → Place → ContextOperation

pub record LiveStats : Type 0 where
  pub message_count : ℕ
  pub turn_count : ℕ
  pub type_breakdown : List (ℕ × ℕ)
  pub estimated_tokens : ℕ

pub data Failure : Type 0 where
  not_connected is_busy : Failure
  message_not_found ipc_failed : ℕ → Failure

pub data OpResult : Type 0 where
  messages_are : List Message → OpResult
  stats_are : LiveStats → OpResult
  nothing injected : OpResult
  removed : ℕ → OpResult
  failed : Failure → OpResult

-- `Array.prototype.splice` with a start in the array.
abbrev pub splice : ℕ → ℕ → List Message → List Message → List Message
splice start count items ms = take start ms ++ items ++ drop (start + count) ms

abbrev pub has_uuid : ℕ → Message → Bool
has_uuid u m = same m.uuid (some u)

abbrev pub later : Option ℕ → Option ℕ
later none = none
later (some i) = some (suc i)

-- `findIndex`.
unfoldable pub find_index : (Message → Bool) → List Message → Option ℕ
find_index test [] = none
find_index test (m ∷ ms) =
    let rest = later (find_index test ms) in if test m then some zero else rest

unfoldable pub tally_roles : List Message → List (ℕ × ℕ) → List (ℕ × ℕ)
tally_roles [] counts = counts
tally_roles (m ∷ ms) counts =
    tally_roles ms (insert m.role (get_or (lookup m.role counts) 0 + 1) counts)

abbrev pub stats_of : List Message → LiveStats
stats_of ms = record {
  message_count = length ms;
  turn_count = length ms / 2;
  type_breakdown = tally_roles ms [];
  estimated_tokens = length ms * 500;
}

abbrev pub new_message : ℕ → ℕ → ℕ → ℕ → Message
new_message text role uuid now = record {
  uuid = some uuid;
  role = role;
  content = none;
  message = some (
      some (
        blocks (
          record { is_tool_result = false; is_text = true; text = some text; content = none }
          ∷ [])));
  timestamp = some now;
}

abbrev pub removed_at : ℕ → Option ℕ → List Message → OpResult × List Message
removed_at u none ms = (failed (message_not_found u), ms)
removed_at u (some i) ms = (nothing, splice i 1 [] ms)

abbrev pub injected_after : ℕ → Message → Option ℕ → List Message → OpResult × List Message
injected_after u m none ms = (failed (message_not_found u), ms)
injected_after u m (some i) ms = (injected, splice (i + 1) 0 (m ∷ []) ms)

-- `executeContextOpViaIpc` with the client connected; `uuid` and `now` are drawn at the call.
unfoldable pub execute : ContextOperation → ℕ → ℕ → List Message → OpResult × List Message
unfolding find_index tally_roles
execute get_context uuid now ms = (messages_are ms, ms)
execute get_stats uuid now ms = (stats_are (stats_of ms), ms)
execute (remove_message u) uuid now ms = removed_at u (find_index (has_uuid u) ms) ms
execute (truncate keep) uuid now ms =
    (nothing, if ltb keep (length ms) then splice 0 (length ms - keep) [] ms else ms)
execute (inject_message text role at_start) uuid now ms =
    (injected, splice 0 0 (new_message text role uuid now ∷ []) ms)
execute (inject_message text role at_tail) uuid now ms =
    (injected, ms ++ new_message text role uuid now ∷ [])
execute (inject_message text role (after u)) uuid now ms =
    injected_after u (new_message text role uuid now) (find_index (has_uuid u) ms) ms

-- How a `splice` or a `push` ends: it is answered, it fails and nothing changes, or the messages are
-- changed and the answer is lost.
pub data SpliceEnd : Type 0 where
  spliced : SpliceEnd
  not_spliced splice_lost : ℕ → SpliceEnd

abbrev pub cut_messages :
    SpliceEnd → OpResult → List Message → List Message → OpResult × List Message
cut_messages spliced told cut ms = (told, cut)
cut_messages (not_spliced e) told cut ms = (failed (ipc_failed e), ms)
cut_messages (splice_lost e) told cut ms = (failed (ipc_failed e), cut)

abbrev pub rewound_at : SpliceEnd → ℕ → Option ℕ → List Message → OpResult × List Message
rewound_at end u none ms = (failed (message_not_found u), ms)
rewound_at end u (some i) ms =
    let count = length ms - (i + 1) in
    if ltb 0 count
    then cut_messages end (removed count) (splice (i + 1) count [] ms) ms
    else (removed count, ms)

-- The handler of `rewind`, with what the client is told; `fetched` is the error of `getMessages`, if
-- it fails.
unfoldable pub rewind :
    Bool → Bool → Option ℕ → SpliceEnd → ℕ → List Message → OpResult × List Message
unfolding find_index
rewind true connected fetched end u ms = (failed is_busy, ms)
rewind false false fetched end u ms = (failed not_connected, ms)
rewind false true (some e) end u ms = (failed (ipc_failed e), ms)
rewind false true none end u ms = rewound_at end u (find_index (has_uuid u) ms) ms

-- The result of a background session: whether it succeeded, its result's text and its error.
pub record DrainResult : Type 0 where
  pub success : Bool
  pub result : Option ℕ
  pub error : Option ℕ

-- What `mergeBackResult` says where there is no placeholder, or no result.
pub data Notice : Type 0 where
  completed_notice : ℕ → Notice
  failed_notice : ℕ → Option ℕ → Notice

module _ (includes : ℕ → ℕ → Bool) (text_of_notice : Notice → ℕ) (user_role : ℕ) where
  abbrev pub content_or : Option Content → Option (Option Content) → Option Content
  content_or none none = none
  content_or none (some c) = c
  content_or (some c) inner = some c

  -- `msg?.content || msg?.message?.content`; a content is never the empty text.
  abbrev pub content_of : Message → Option Content
  content_of m = content_or m.content m.message

  abbrev pub block_text : Block → Option ℕ
  block_text b = if truthy b.text then b.text else b.content

  abbrev pub text_mentions : ℕ → Option ℕ → Bool
  text_mentions task none = false
  text_mentions task (some t) = includes t task

  unfoldable pub any_block_mentions : ℕ → List Block → Bool
  any_block_mentions task [] = false
  any_block_mentions task (b ∷ bs) = text_mentions task (block_text b) || any_block_mentions task bs

  abbrev pub content_mentions : ℕ → Option Content → Bool
  content_mentions task none = false
  content_mentions task (some (text_content t)) = includes t task
  content_mentions task (some (blocks bs)) = any_block_mentions task bs

  abbrev pub mentions : ℕ → Message → Bool
  mentions task m = content_mentions task (content_of m)

  abbrev pub zero_if : Bool → Option ℕ
  zero_if true = some zero
  zero_if false = none

  abbrev pub later_or : Option ℕ → Bool → Option ℕ
  later_or none here = zero_if here
  later_or (some i) here = some (suc i)

  -- The loop of `findPlaceholderIndex`, which goes from the end.
  unfoldable pub find_placeholder_index : ℕ → List Message → Option ℕ
  unfolding any_block_mentions
  find_placeholder_index task [] = none
  find_placeholder_index task (m ∷ ms) = later_or (find_placeholder_index task ms) (mentions task m)

  abbrev pub real_block : ℕ → ℕ → Block → Block
  real_block task real b =
      if b.is_tool_result && text_mentions task b.content
      then record b { content = some real }
      else b

  -- With an inner message, both hold the new blocks.
  abbrev pub with_blocks : List Block → Message → Message
  with_blocks bs m = record m {
    content = some (blocks bs);
    message = elim m.message [ none ↦ none | some c ↦ some (some (blocks bs)) ];
  }

  abbrev pub real_content : ℕ → ℕ → Option Content → Message → Message
  real_content task real (some (blocks bs)) m = with_blocks (map (real_block task real) bs) m
  real_content task real _ m = record m { content = some (text_content real) }

  abbrev pub build_real_result : ℕ → ℕ → Message → Message
  build_real_result task real m = real_content task real (content_of m) m

  abbrev pub notice_message : Notice → Message
  notice_message n = record {
    uuid = none;
    role = user_role;
    content = some (
        blocks (
          record {
            is_tool_result = false;
            is_text = true;
            text = some (text_of_notice n);
            content = none;
          }
          ∷ []));
    message = none;
    timestamp = none;
  }

  abbrev pub replaced_at : ℕ → ℕ → ℕ → Option Message → List Message → List Message
  replaced_at task real i none ms = ms
  replaced_at task real i (some m) ms = splice i 1 (build_real_result task real m ∷ []) ms

  abbrev pub merged_at : ℕ → ℕ → Option ℕ → List Message → List Message
  merged_at task real none ms = ms ++ notice_message (completed_notice task) ∷ []
  merged_at task real (some i) ms = replaced_at task real i (get_elem? ms i) ms

  -- An error of the command is only logged.
  abbrev pub written : SpliceEnd → List Message → List Message → List Message
  written spliced new ms = new
  written (not_spliced e) new ms = ms
  written (splice_lost e) new ms = new

  abbrev pub fetched_or : Bool → List Message → List Message → List Message
  fetched_or true new ms = new
  fetched_or false new ms = ms

  abbrev pub merged :
      Bool → SpliceEnd → ℕ → Bool → Option ℕ → Option ℕ → List Message → List Message
  merged fetched end task true (some real) error ms =
      fetched_or fetched (written end (merged_at task real (find_placeholder_index task ms) ms) ms)
        ms
  merged fetched end task _ _ error ms =
      written end (ms ++ notice_message (failed_notice task error) ∷ []) ms

  -- `mergeBackResult`; without a connection it does nothing. `fetched` tells whether `getMessages`
  -- succeeds.
  unfoldable pub merge_back_result :
      Bool → Bool → SpliceEnd → DrainResult → ℕ → List Message → List Message
  unfolding find_placeholder_index
  merge_back_result false fetched end r task ms = ms
  merge_back_result true fetched end r task ms =
      merged fetched end task r.success r.result r.error ms
