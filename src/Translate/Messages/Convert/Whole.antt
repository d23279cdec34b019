-- ===== src/Translate/Messages/Convert/Whole.antt =====
-- The case of an assistant: its calls are new.
use mathlib.Core.Bool.{false≢true}
use ollame.Prelude.{
  ℕ, ◌+◌, ◌≡◌, ◌≢◌, inl, inr, refl, sym, ap, ◌∙◌, arith, Bool, true, false, ◌&&◌, some, List, [],
  ◌∷◌, Bytes, Dict, codes, bytes_eq, bytes_eq_iff, contains, length, ltb, ◌>>=◌, if◌then◌else◌,
  Bool-cases, Result, ok, err, ok_injective, bind_ok,
}
use ollame.Stream.Tools.{ToolCall}
use ollame.Translate.Messages.{
  Reason, duplicate_call_id, OpenAiToolCall, OpenAiMessage, Message, Settings, Progress,
  is_consumed, append_message,
}
use ollame.Translate.Messages.Waiting.{is_tool, call_ids, waiting, Unique}
use ollame.Translate.Messages.Answers.{Settled, Calm, settle-other}
use ollame.Translate.Messages.Convert.{map_calls, call_arguments, tool_id, assistant_message}

-- The ids of new calls are new, and known afterwards.
record Fresh (calls : List OpenAiToolCall) (before after : List Bytes) : Type 0 where
  new : (id : Bytes) → contains (call_ids calls) id ≡ true → contains before id ≡ false
  unique : Unique calls
  kept : (id : Bytes) → contains before id ≡ true → contains after id ≡ true
  listed : (id : Bytes) → contains (call_ids calls) id ≡ true → contains after id ≡ true

Fresh-nil : (ids : List Bytes) → Fresh [] ids ids
unfolding contains
Fresh-nil ids = record {
  new = λ id h. absurd (false≢true h);
  unique = tt;
  kept = λ id h. h;
  listed = λ id h. absurd (false≢true h);
}

Fresh-cons :
    (call : OpenAiToolCall) (calls : List OpenAiToolCall) (before after : List Bytes)
    → contains before call.id ≡ false
    → Fresh calls (call.id ∷ before) after
    → Fresh (call ∷ calls) before after
unfolding contains
Fresh-cons call calls before after h f = record {
  new = λ id k. ground (arith, bytes_eq_iff call.id id, f.new id);
  unique = (ground (arith, bytes_eq_iff call.id call.id, f.new call.id), f.unique);
  kept = λ id k. f.kept id (ground arith);
  listed = λ id k. ground (arith, bytes_eq_iff call.id id, f.kept id, f.listed id);
}

waiting-new :
    (consumed : Dict Bytes) (calls : List OpenAiToolCall)
    → ((id : Bytes) → contains (call_ids calls) id ≡ true → is_consumed consumed id ≡ false)
    → waiting consumed calls ≡ call_ids calls
unfolding contains
waiting-new consumed [] h = refl
waiting-new consumed (call ∷ calls) h =
    let f : is_consumed consumed call.id ≡ false =
      h call.id (ground (arith, bytes_eq_iff call.id call.id)) in
    ground (arith, f, waiting-new consumed calls (λ id k. h id (ground arith)))

pub Settled-if : (b : Bool) (p q : Progress) → Settled p → Settled q → Settled (if b then p else q)
Settled-if true p q h k = h
Settled-if false p q h k = k

pub err≢ok : {E A : Type 0} {e : E} {a : A} → ◌≢◌ {A = Result E A} (err e) (ok a)
err≢ok h = cc

not_consumed :
    (consumed : Dict Bytes) (all_ids : List Bytes) (id : Bytes)
    → (is_consumed consumed id ≡ true → contains all_ids id ≡ true)
    → contains all_ids id ≡ false
    → is_consumed consumed id ≡ false
not_consumed consumed all_ids id k n = elim (Bool-cases (is_consumed consumed id)) [
  | inl e ↦ absurd (false≢true (sym n ∙ k e))
  | inr e ↦ e
]

module _ (sha256 : Bytes → Bytes) (detect_content_type : Bytes → Bytes) where
  map_calls-Fresh :
      (index call_index : ℕ) (calls : List ToolCall) (before : List Bytes)
      (mapped : List OpenAiToolCall) (after : List Bytes)
      → map_calls sha256 detect_content_type index call_index calls before ≡ ok (mapped, after)
      → Fresh mapped before after
  unfolding map_calls
  map_calls-Fresh index call_index [] before mapped after h =
      let a : [] ≡ mapped = ap (λ x. x.0) (ok_injective h) in
      let b : before ≡ after = ap (λ x. x.1) (ok_injective h) in rw (← a, ← b) (Fresh-nil before)
  map_calls-Fresh index call_index (call ∷ calls) before mapped after h =
      by
        (if bytes_eq call.id []
          then tool_id sha256 detect_content_type index call_index call.name
          else call.id)
        (λ ids rest tail k. map_calls-Fresh index (call_index + 1) calls ids rest tail k) h
    where
      by :
          (id : Bytes)
          → ((ids : List Bytes) (rest : List OpenAiToolCall) (tail : List Bytes)
              → map_calls sha256 detect_content_type index (call_index + 1) calls ids
                ≡ ok (rest, tail)
              → Fresh rest ids tail)
          → (let more : Result Reason (List OpenAiToolCall × List Bytes) = do
            arguments ← call_arguments sha256 detect_content_type call.arguments
            (rest, ids) ←
                map_calls sha256 detect_content_type index (call_index + 1) calls (id ∷ before)
            ok (record { id = id; name = call.name; arguments = arguments } ∷ rest, ids)
            in if contains before id then err duplicate_call_id else more)
            ≡ ok (mapped, after)
          → Fresh mapped before after
      by id k h = elim (Bool-cases (contains before id)) [
        | inl e ↦ absurd (err≢ok (rw e at h))
        | inr e ↦
            let (arguments, _, more) =
              bind_ok (call_arguments sha256 detect_content_type call.arguments) _ (rw e at h) in
            let ((rest, ids), found, last) =
              bind_ok
                (map_calls sha256 detect_content_type index (call_index + 1) calls (id ∷ before)) _
                more in
            let c : OpenAiToolCall = record { id = id; name = call.name; arguments = arguments } in
            let a : c ∷ rest ≡ mapped = ap (λ x. x.0) (ok_injective last) in
            let b : ids ≡ after = ap (λ x. x.1) (ok_injective last) in
            rw (← a, ← b) (Fresh-cons c rest before ids e (k (id ∷ before) rest ids found))
      ]

  pub assistant-Settled :
      (cfg : Settings) (index : ℕ) (message : Message) (mapped : OpenAiMessage) (p q : Progress)
      → Calm p
      → is_tool mapped ≡ false
      → assistant_message sha256 detect_content_type cfg index message mapped p ≡ ok q
      → Settled q
  unfolding assistant_message
  assistant-Settled cfg index message mapped p q (s, c) t h =
      let ((calls, ids), found, last) =
        bind_ok (map_calls sha256 detect_content_type index 0 message.tool_calls p.all_ids) _ h in
      let f = map_calls-Fresh index 0 message.tool_calls p.all_ids calls ids found in
      let m : OpenAiMessage = record mapped {
        reasoning_content =
            if bytes_eq cfg.history_thinking (codes "reasoning_content")
            then message.thinking
            else mapped.reasoning_content;
        tool_calls = calls;
        content =
            if ltb 0 (length calls) && bytes_eq message.content []
            then codes "null"
            else mapped.content;
      } in
      let same : record p { result = append_message m p.result; pending = calls; all_ids = ids }
          ≡ q =
        ok_injective last in
      rw (← same) (record {
        due =
            settle-other p.result.messages m (s.due ∙ ap some c) t
            ∙ ap some (
                sym (
                  waiting-new p.consumed calls
                    (λ id k. not_consumed p.consumed p.all_ids id (s.known id) (f.new id k))));
        known = λ id k. f.kept id (s.known id k);
        listed = f.listed;
        unique = f.unique;
      })
