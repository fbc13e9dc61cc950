-- ===== src/MemIpc/Order.antt =====
-- packages/runner/src/mem-ipc.ts: every request is settled once, in the order of writing.
use claude_agent_runner.Common.{
  ℕ, ◌≡◌, refl, sym, ap, ◌∙◌, inl, inr, Option, Bool, true, false, ◌&&◌, List, [], ◌∷◌, ◌++◌, map,
  if◌then◌else◌, Bool-cases,
}
use mathlib.Core.List.{append-nil, append_assoc, map-append}
use claude_agent_runner.MemIpc.{
  Outcome, Requests, MemIpcClient, cut, is_blank, outcome, answer, take_lines, on_data, rejected,
  on_connect, on_error, on_close, send, disconnect, socket_error, socket_closed, disconnected,
}

abbrev pub all_ids : Requests → List ℕ
all_ids q = map (λ p. p.0) q.settled ++ q.pending

-- The requests written are those settled, in the order of their outcomes, then those pending.
abbrev pub InOrder : MemIpcClient → Type 0
InOrder s = s.written ≡ all_ids s.requests

ids_of_rejected :
    (o : Outcome) (ids : List ℕ) → map (λ (p : ℕ × Outcome). p.0) (map (λ id. (id, o)) ids) ≡ ids
ids_of_rejected o [] = refl
ids_of_rejected o (id ∷ ids) = ap (λ l. id ∷ l) (ids_of_rejected o ids)

all_ids-rejected : (o : Outcome) (q : Requests) → all_ids (rejected o q) ≡ all_ids q
all_ids-rejected o q =
    append-nil (map (λ p. p.0) (rejected o q).settled)
    ∙ map-append (λ p. p.0) q.settled (map (λ id. (id, o)) q.pending)
    ∙ ap (λ l. map (λ p. p.0) q.settled ++ l) (ids_of_rejected o q.pending)

pub data Op : Type 0 where
  connects fails closes disconnects : Op
  sends : ℕ → Op
  receives : List ℕ → Op

module _ (decode : List ℕ → List ℕ) (is_space : ℕ → Bool) (parse : List ℕ → Option ℕ) where
  all_ids-answer :
      (line : List ℕ) (settled : List (ℕ × Outcome)) (pending : List ℕ)
      → let q : Requests = record { pending = pending; settled = settled } in
        all_ids (answer decode is_space parse line q) ≡ all_ids q
  all_ids-answer line settled [] = refl
  all_ids-answer line settled (id ∷ ids) =
      ap (λ l. l ++ ids)
        (map-append (λ p. p.0) settled ((id, outcome decode is_space parse (parse line)) ∷ []))
      ∙ append_assoc (map (λ p. p.0) settled) (id ∷ []) ids

  all_ids-take_lines :
      (lines : List (List ℕ)) (q : Requests)
      → all_ids (take_lines decode is_space parse lines q) ≡ all_ids q
  unfolding take_lines
  all_ids-take_lines [] q = refl
  all_ids-take_lines (line ∷ lines) q =
      all_ids-take_lines lines
        (if is_blank decode is_space parse line then q else answer decode is_space parse line q)
      ∙ elim (Bool-cases (is_blank decode is_space parse line)) [
        | inl t ↦ rw t refl
        | inr t ↦ rw t (all_ids-answer line q.settled q.pending)
      ]

  unfoldable pub step : Op → MemIpcClient → MemIpcClient
  step connects s = on_connect s
  step fails s = on_error s
  step closes s = on_close s
  step disconnects s = disconnect s
  step (sends id) s = (send id s).1
  step (receives chunk) s = on_data decode is_space parse chunk s

  unfoldable pub run : List Op → MemIpcClient → MemIpcClient
  run [] s = s
  run (o ∷ os) s = run os (step o s)

  if-InOrder :
      (t : Bool) (s u : MemIpcClient) → InOrder s → InOrder u → InOrder (if t then s else u)
  if-InOrder true s u h k = h
  if-InOrder false s u h k = k

  sent-InOrder :
      (t : Bool) (s u : MemIpcClient)
      → InOrder s
      → InOrder u
      → let r : Bool × MemIpcClient = if t then (true, u) else (false, s) in InOrder r.1
  sent-InOrder true s u h k = k
  sent-InOrder false s u h k = h

  step-InOrder : (o : Op) (s : MemIpcClient) → InOrder s → InOrder (step o s)
  unfolding step on_connect on_error on_close disconnect send on_data
  step-InOrder connects s h = h
  step-InOrder fails s h =
      if-InOrder s.connected
        (record s { connected = false; requests = rejected socket_error s.requests }) s
        (h ∙ sym (all_ids-rejected socket_error s.requests)) h
  step-InOrder closes s h = h ∙ sym (all_ids-rejected socket_closed s.requests)
  step-InOrder disconnects s h =
      if-InOrder s.has_socket
        (record s {
          has_socket = false;
          connected = false;
          requests = rejected disconnected s.requests;
        })
        s (h ∙ sym (all_ids-rejected disconnected s.requests)) h
  step-InOrder (sends id) s h =
      let queued = record (s.requests) { pending = s.requests.pending ++ id ∷ [] } in
      let after = record s { requests = queued; written = s.written ++ id ∷ [] } in
      sent-InOrder (s.has_socket && s.connected) s after h (
        ap (λ l. l ++ id ∷ []) h
        ∙ append_assoc (map (λ p. p.0) s.requests.settled) s.requests.pending (id ∷ []))
  step-InOrder (receives chunk) s h =
      h ∙ sym (all_ids-take_lines (cut (s.buffer ++ decode chunk)).0 s.requests)

  -- If the requests written so far are just those settled, in this order, and then those that wait,
  -- as at the start, this stays so over any history of connections, requests, chunks, errors and
  -- disconnections: none is lost, settled twice or overtaken.
  pub run-InOrder : (os : List Op) (s : MemIpcClient) → InOrder s → InOrder (run os s)
  unfolding run
  run-InOrder [] s h = h
  run-InOrder (o ∷ os) s h = run-InOrder os (step o s) (step-InOrder o s h)
