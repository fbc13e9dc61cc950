-- ===== src/Context/Lines/Tests.antt =====
-- packages/runner/src/context.ts: a small JSON of records, a character for each part, with which the
-- lines are written and read.
use claude_agent_runner.Common.{
  ℕ, ◌+◌, ◌-◌, ◌≡◌, refl, ap, Option, none, some, Bool, true, false, List, [], ◌∷◌, ◌++◌, arith,
  ◌==◌, if◌then◌else◌, count,
}
use claude_agent_runner.TokenPool.{trim_start, trim_end}
use claude_agent_runner.Context.{
  JsonlRecord, Kind, user, assistant, system, other, Payload, raw, user_message,
}
use claude_agent_runner.Context.Lines.{
  newline, split_lines, read_lines, read_jsonl, join_lines, write_jsonl, Codec, ReadBack,
  read_jsonl-write_jsonl,
}

abbrev is_blank : ℕ → Bool
is_blank c = c == 32

abbrev put : Option ℕ → ℕ
put none = 200
put (some n) = n + 1000

abbrev got : ℕ → Option ℕ
got c = if c == 200 then none else some (c - 1000)

abbrev put_kind : Kind → ℕ
put_kind user = 201
put_kind assistant = 202
put_kind system = 203
put_kind (other n) = n + 1000

abbrev got_kind : ℕ → Kind
got_kind c =
    if c == 201
    then user
    else if c == 202
    then assistant
    else if c == 203
    then system
    else other (c - 1000)

abbrev put_flag : Bool → ℕ
put_flag true = 201
put_flag false = 202

-- The kind of a payload, and its text.
abbrev put_tag : Option Payload → ℕ
put_tag none = 200
put_tag (some (raw n)) = 201
put_tag (some (user_message n)) = 202

abbrev put_text : Option Payload → ℕ
put_text none = 200
put_text (some (raw n)) = n + 1000
put_text (some (user_message n)) = n + 1000

abbrev got_payload : ℕ → ℕ → Option Payload
got_payload tag c =
    if tag == 200
    then none
    else if tag == 201
    then some (raw (c - 1000))
    else some (user_message (c - 1000))

abbrev stringify : JsonlRecord → List ℕ
stringify r =
    123
    ∷ put r.uuid
    ∷ put r.parent_uuid
    ∷ put_kind r.kind
    ∷ put_flag r.is_sidechain
    ∷ put_tag r.message
    ∷ put_text r.message
    ∷ put_tag r.content
    ∷ put_text r.content
    ∷ put r.timestamp
    ∷ 125
    ∷ []

abbrev parse : List ℕ → Option JsonlRecord
parse (o ∷ u ∷ p ∷ k ∷ f ∷ mt ∷ mx ∷ ct ∷ cx ∷ t ∷ c ∷ []) = some (record {
  uuid = got u;
  parent_uuid = got p;
  kind = got_kind k;
  is_sidechain = f == 201;
  message = got_payload mt mx;
  content = got_payload ct cx;
  timestamp = got t;
})
parse _ = none

got-put : (x : Option ℕ) → got (put x) ≡ x
got-put none = refl
got-put (some n) = ground arith

got_put_kind : (k : Kind) → got_kind (put_kind k) ≡ k
got_put_kind user = refl
got_put_kind assistant = refl
got_put_kind system = refl
got_put_kind (other n) = ground arith

got_put_flag : (b : Bool) → (put_flag b == 201) ≡ b
got_put_flag true = refl
got_put_flag false = refl

got_put_payload : (x : Option Payload) → got_payload (put_tag x) (put_text x) ≡ x
got_put_payload none = refl
got_put_payload (some (raw n)) = ap (λ k. some (raw k)) (omega arith)
got_put_payload (some (user_message n)) = ap (λ k. some (user_message k)) (omega arith)

put_line : (x : Option ℕ) → (put x == newline) ≡ false
put_line none = refl
put_line (some n) = ground arith

put_kind_line : (k : Kind) → (put_kind k == newline) ≡ false
put_kind_line user = refl
put_kind_line assistant = refl
put_kind_line system = refl
put_kind_line (other n) = ground arith

put_flag_line : (b : Bool) → (put_flag b == newline) ≡ false
put_flag_line true = refl
put_flag_line false = refl

put_tag_line : (x : Option Payload) → (put_tag x == newline) ≡ false
put_tag_line none = refl
put_tag_line (some (raw n)) = refl
put_tag_line (some (user_message n)) = refl

put_text_line : (x : Option Payload) → (put_text x == newline) ≡ false
put_text_line none = refl
put_text_line (some (raw n)) = ground arith
put_text_line (some (user_message n)) = ground arith

parses : (r : JsonlRecord) → parse (stringify r) ≡ some r
parses r =
    rw
      (
        got-put r.uuid,
        got-put r.parent_uuid,
        got_put_kind r.kind,
        got_put_flag r.is_sidechain,
        got_put_payload r.message,
        got_put_payload r.content,
        got-put r.timestamp,
      )
      refl

one_line : (r : JsonlRecord) → count (λ c. c == newline) (stringify r) ≡ 0
one_line r =
    rw
      (
        put_line r.uuid,
        put_line r.parent_uuid,
        put_kind_line r.kind,
        put_flag_line r.is_sidechain,
        put_tag_line r.message,
        put_text_line r.message,
        put_tag_line r.content,
        put_text_line r.content,
        put_line r.timestamp,
      )
      refl

codec : Codec is_blank parse stringify
codec = record {
  parses = parses;
  one_line = one_line;
  opens = λ r. refl;
  shuts = λ r. refl;
  opens_printed = refl;
  shuts_printed = refl;
}

abbrev entry : JsonlRecord
entry = record {
  uuid = some 1;
  parent_uuid = none;
  kind = user;
  is_sidechain = false;
  message = some (raw 5);
  content = none;
  timestamp = none;
}

-- Two records, a blank line and a line that is torn.
reads_torn :
    read_jsonl is_blank parse
      (some (write_jsonl stringify (entry ∷ entry ∷ []) ++ 32 ∷ 10 ∷ 123 ∷ []))
    ≡ entry ∷ entry ∷ []
unfolding read_jsonl write_jsonl read_lines split_lines join_lines trim_start trim_end
reads_torn = refl

read_jsonl-write_jsonl_example :
    ReadBack is_blank parse (entry ∷ entry ∷ []) (write_jsonl stringify (entry ∷ entry ∷ []))
read_jsonl-write_jsonl_example =
    read_jsonl-write_jsonl is_blank parse stringify codec (entry ∷ entry ∷ [])
